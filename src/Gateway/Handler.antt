-- ===== src/Gateway/Handler.antt =====
-- NewSessionHandler of control-panel/internal/gateway/session_gateway.go. strings.ToLower and
-- url.Parse are parameters. The reverse proxy is named by its target.
use ldndrc.Base.{
  ℕ, ltb, String, Bool, true, false, not, ◌||◌, Option, none, some, [], ◌∷◌, Result, ok, err, pos,
  itoa, concat, length, split, has_suffix, head_text, str_eq, if◌then◌else◌,
}
use ldndrc.Base.Map.{Map, lookup}
use ldndrc.Http.Auth.{Keys, verify_cookie}
use ldndrc.Sessions.Types.{Status, ready, Session, Error, not_found, Store, Env, Provisioner}
use ldndrc.Sessions.Methods.{current}

-- GATEWAY_HOST_SUFFIX and SESSION_NAMESPACE, with their defaults
pub record Settings : Type 0 where
  pub host_suffix : String
  pub namespace : String

-- envOr, on the value of the variable
unfoldable pub env_or : String → String → String
env_or value fallback = if not (str_eq value "") then value else fallback

pub record Library : Type 0 where
  pub to_lower : String → String
  pub parses : String → Bool

-- What becomes of a request: the next handler takes it, it is answered here, or it is proxied.
pub data Outcome : Type 0 where
  passed : Outcome
  answered : ℕ → String → Outcome
  proxied : String → Outcome

-- The map `routes`, by the ports
unfoldable pub routes : Map ℕ
routes = ("editor", 7682) ∷ ("desktop", 8080) ∷ ("gazebo", 9002) ∷ []

-- The host that the request names, in small letters and without its port
unfoldable pub host_of : Library → String → String
host_of lib host = lib.to_lower (head_text (split b':' host))

-- The port of the route that the host names, if it names one
unfoldable pub route_of : Library → Settings → String → Option ℕ
route_of lib vars host =
    let suffix = lib.to_lower (env_or vars.host_suffix "ros-platform.local") in
    let name = host_of lib host in
    let parts = split b'.' name in
    if ltb (length parts) 2 || not (has_suffix name (concat ("." ∷ suffix ∷ [])))
    then none
    else lookup (head_text parts) routes

-- The address of a service of the session, with the trailing dot
unfoldable pub target_of : Settings → Session → ℕ → String
target_of vars x port = concat (
    "http://"
    ∷ x.service_name
    ∷ "."
    ∷ env_or vars.namespace "ldndrc"
    ∷ ".svc.cluster.local.:"
    ∷ itoa (pos port)
    ∷ [])

abbrev pub is_ready : Status → Bool
is_ready ready = true
is_ready _ = false

abbrev pub is_missing : Error → Bool
is_missing not_found = true
is_missing _ = false

-- The part behind store.Current
unfoldable pub forward : Library → Settings → ℕ → Result Error Session → Outcome
forward lib vars port (err e) =
    if is_missing e
    then answered 404 "no active workspace session"
    else answered 500 "session lookup failed"
forward lib vars port (ok x) =
    if not (is_ready x.status)
    then answered 503 "workspace session is not ready"
    else if not (lib.parses (target_of vars x port))
    then answered 500 "invalid session target"
    else proxied (target_of vars x port)

module _ {W : Type 0} (lib : Library) (vars : Settings) (keys : Keys) (p : Option (Provisioner W))
    (env : Env) where
  -- The part behind VerifyCookie
  unfoldable pub serve_user : ℕ → Option String → Store → W → Outcome × Store × W
  serve_user port none s w = (answered 401 "authentication required", s, w)
  serve_user port (some u) s w =
      let (r, s', w') = current p env u s w in (forward lib vars port r, s', w')

  -- The handler; `host` is r.Host and `cookie` the value of the session cookie.
  unfoldable pub session_handler : String → ℕ → Option String → Store → W → Outcome × Store × W
  session_handler host now cookie s w = elim (route_of lib vars host) [
    | none ↦ (passed, s, w)
    | some port ↦ serve_user port (verify_cookie keys now cookie) s w
  ]
