-- ===== src/Http/Strangers.antt =====
-- What a request can do that carries no valid bearer token.
use ldndrc.Base.{◌≡◌, refl, inl, inr, ◌⊎◌, Bool, true, false, none, arith, Bool-cases}
use ldndrc.Http.Auth.{bearer_claims, passes_csrf}
use ldndrc.Http.Types.{failure, Response, write_json, unauthorized}
use ldndrc.Http.Sessions.{post_session, get_sessions, get_session, delete_session}
use ldndrc.Http.Nodes.{post_approve, post_deny, get_nodes}
use ldndrc.Http.Router.{Setup, App, Turn, Route, Request, Reply, json, method_of, serve, handle}
use ldndrc.Http.Router

-- The patterns whose handlers ask for a bearer token
abbrev pub is_protected : Route → Bool
is_protected Router.create_session = true
is_protected Router.list_sessions = true
is_protected (Router.show_session id) = true
is_protected (Router.end_session id) = true
is_protected Router.list_nodes = true
is_protected (Router.approve_node id) = true
is_protected (Router.deny_node id reason) = true
is_protected _ = false

-- The answer of guardCSRF
abbrev pub stopped_by_guard : Response
stopped_by_guard = write_json 403 (failure "csrf token missing or invalid")

module _ {W : Type 0} (setup : Setup W) (turn : Turn) where
  serve-protected :
      (route : Route) (app : App W)
      → is_protected route ≡ true
      → serve setup turn route none app ≡ (json unauthorized, app)
  unfolding serve post_session get_sessions get_session delete_session post_approve post_deny
      get_nodes
  serve-protected Router.create_session app h = refl
  serve-protected Router.list_sessions app h = refl
  serve-protected (Router.show_session id) app h = refl
  serve-protected (Router.end_session id) app h = refl
  serve-protected Router.list_nodes app h = refl
  serve-protected (Router.approve_node id) app h = refl
  serve-protected (Router.deny_node id reason) app h = refl
  serve-protected _ app h = absurd (ground arith)

  serve-sessions :
      (route : Route) (app : App W) → (serve setup turn route none app).1.sessions ≡ app.sessions
  unfolding serve post_session get_sessions get_session delete_session post_approve post_deny
  serve-sessions Router.health_check app = refl
  serve-sessions (Router.log_in body) app = refl
  serve-sessions (Router.register_node ip body) app = refl
  serve-sessions (Router.poll_node id) app = refl
  serve-sessions (Router.upload id) app = refl
  serve-sessions (Router.page path) app = refl
  serve-sessions Router.create_session app = refl
  serve-sessions Router.list_sessions app = refl
  serve-sessions (Router.show_session id) app = refl
  serve-sessions (Router.end_session id) app = refl
  serve-sessions Router.list_nodes app = refl
  serve-sessions (Router.approve_node id) app = refl
  serve-sessions (Router.deny_node id reason) app = refl

  -- A request without a valid bearer token never changes the sessions; on a pattern that asks for a
  -- token it changes nothing at all, and is answered with 401, or with 403 by the CSRF guard.
  pub strangers_keep_out :
      (req : Request) (app : App W)
      → bearer_claims setup.keys turn.now req.authorization ≡ none
      → let r = handle setup turn req app in
        (r.1.sessions ≡ app.sessions)
        × ((is_protected req.route ≡ false)
            ⊎ ((r ≡ (json unauthorized, app)) ⊎ (r ≡ (json stopped_by_guard, app))))
  unfolding handle
  strangers_keep_out req app h =
      elim (Bool-cases (passes_csrf setup.keys (method_of req.route) req.cookie req.csrf)) [
        | inr bad ↦ (ground (arith, bad), inr (inr (ground (arith, bad))))
        | inl passed ↦ elim (Bool-cases (is_protected req.route)) [
          | inr open_ ↦ (ground (arith, passed, h, serve-sessions req.route app), inl open_)
          | inl shut ↦
              let answer = serve-protected req.route app shut in
              (ground (arith, passed, h, answer), inr (inl (ground (arith, passed, h, answer))))
        ]
      ]
