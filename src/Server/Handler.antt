-- ===== src/Server/Handler.antt =====
-- The handler that control-panel/cmd/server/main.go listens with: the session gateway of
-- control-panel/internal/gateway/session_gateway.go in front of the router of
-- control-panel/internal/httpapi/router.go, on the same session store.
use ldndrc.Base.{ℕ, String, List, [], ◌∷◌}
use ldndrc.Gateway.Handler.{Library, Settings, Outcome, passed, answered, proxied, session_handler}
use ldndrc.Http.Router.{Setup, App, Turn, Request, Reply, handle}

-- The answer: of the gateway's proxy, of the gateway, or of the router
pub data Answer : Type 0 where
  from_workspace : String → Answer
  from_gateway : ℕ → String → Answer
  from_router : Reply → Answer

-- A request as it comes in: its Host header, and what the router reads
pub record Incoming : Type 0 where
  pub host : String
  pub request : Request

module _ {W : Type 0} (lib : Library) (vars : Settings) (setup : Setup W) where
  -- The part behind the gateway's decision, on the stores that it left
  unfoldable pub behind_gateway : Turn → Request → Outcome → App W → Answer × App W
  behind_gateway turn req (proxied target) app = (from_workspace target, app)
  behind_gateway turn req (answered code text) app = (from_gateway code text, app)
  behind_gateway turn req passed app =
      let (reply, app') = handle setup turn req app in (from_router reply, app')

  -- The gateway around the router
  unfoldable pub serve_incoming : Turn → Incoming → App W → Answer × App W
  serve_incoming turn x app =
      let (outcome, s, w) =
        session_handler lib vars setup.keys setup.provisioner turn.session_env x.host turn.now
          x.request.cookie app.sessions app.cluster in
      behind_gateway turn x.request outcome (record app { sessions = s; cluster = w })

  -- The state after a row of requests
  unfoldable pub serve_row : List (Turn × Incoming) → App W → App W
  serve_row [] app = app
  serve_row ((turn, x) ∷ rest) app = serve_row rest (serve_incoming turn x app).1
