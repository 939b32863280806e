-- ===== src/Server/Boot.antt =====
-- The end of main in control-panel/cmd/server/main.go: the handlers that it builds from what it has
-- loaded. golang-jwt, crypto/hmac, the conversion of a text to bytes, the embedded files of the web
-- client and path.Clean are parameters.
use ldndrc.Base.{ℕ, ◌*◌, String, Option, List, str_eq}
use ldndrc.Http.Jwt.{Jwt, Service, new_service, keys_of}
use ldndrc.Http.Limiter.{new_limiter}
use ldndrc.Http.Nodes.{Settings}
use ldndrc.Http.Pages.{Dist}
use ldndrc.Http.Router.{Setup, App}
use ldndrc.Server.Start.{Vars, System, Started}

-- The variables that NewRouterWithNodes reads, "" where one is not set
pub record RouterVars : Type 0 where
  pub join_key : String
  pub auto_approve : String
  pub join_url : String

-- What the process takes from libraries and from its build
pub record Outside : Type 0 where
  pub jwt : Jwt
  pub hmac : List ℕ → String → List ℕ
  pub bytes : String → List ℕ
  pub dist : Option Dist
  pub clean : String → String

abbrev minute : ℕ
minute = 60 * 1000000000

-- The life of a token
abbrev day : ℕ
day = 24 * 60 * minute

-- authSvc
unfoldable pub auth_service : Outside → Vars → Service
auth_service out vars = new_service (out.bytes vars.jwt_secret) day

-- The settings of the router
unfoldable pub router_settings : RouterVars → Settings
router_settings vars = record {
  join_key = vars.join_key;
  auto_approve = str_eq vars.auto_approve "true";
  join_url = vars.join_url;
}

module _ {W : Type 0} (out : Outside) (router_vars : RouterVars) (vars : Vars) (sys : System W)
    (st : Started W) where
  -- apiHandler
  unfoldable pub setup_of : Setup W
  setup_of = record {
    keys = keys_of out.jwt out.hmac (auth_service out vars);
    ttl = day;
    lib = sys.lib;
    settings = router_settings router_vars;
    provisioner = st.backend.provisioner;
    minter = st.backend.minter;
    dist = out.dist;
    clean = out.clean;
  }

  -- The state when the first request comes in
  unfoldable pub app_of : App W
  app_of = record {
    sessions = st.backend.sessions;
    nodes = st.nodes;
    limiter = new_limiter 10 minute;
    cluster = sys.cluster;
  }
