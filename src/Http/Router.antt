-- ===== src/Http/Router.antt =====
-- NewRouterWithNodes of control-panel/internal/httpapi/router.go: the handlers behind the CSRF guard,
-- on one state. Which route a request has is net/http's answer.
use ldndrc.Base.{ℕ, String, not, Option, List, if◌then◌else◌}
use ldndrc.Http.Auth.{Keys, bearer_claims, Method, get, post, delete, passes_csrf}
use ldndrc.Http.Types.{failure, health, Response, write_json}
use ldndrc.Http.Sessions.{post_login, post_session, get_sessions, get_session, delete_session}
use ldndrc.Http.Nodes.{
  Settings, Registration, post_register, get_nodes, post_approve, post_deny, post_diagnostics,
}
use ldndrc.Http.Poll.{poll}
use ldndrc.Http.Limiter.{Limiter}
use ldndrc.Http.Pages.{Dist, Page, spa_handler}
use ldndrc.Nodes.Types.{Node, Library}
use ldndrc.Nodes.Types
use ldndrc.Nodes.Tokens.{Minter}
use ldndrc.Sessions.Types.{Provisioner}
use ldndrc.Sessions.Types as SessionTypes

-- What the router is built from; `clean` is path.Clean.
pub record Setup (W : Type 0) : Type 0 where
  pub keys : Keys
  pub ttl : ℕ
  pub lib : Library
  pub settings : Settings
  pub provisioner : Option (Provisioner W)
  pub minter : Option (Minter W)
  pub dist : Option Dist
  pub clean : String → String

-- The state of the process, and of the cluster
pub record App (W : Type 0) : Type 0 where
  pub sessions : SessionTypes.Store
  pub nodes : Types.Store
  pub limiter : Limiter
  pub cluster : W

-- What the clock, crypto/rand and the disk answer while a request is served, the order in which a
-- map is visited, and the error of writing an upload
pub record Turn : Type 0 where
  pub now : ℕ
  pub session_env : SessionTypes.Env
  pub session_later : SessionTypes.Env
  pub node_env : Types.Env
  pub node_later : Types.Env
  pub visited : List (String × Node)
  pub write : Option String

-- The patterns of the mux, with the path's ID and the decoded body
pub data Route : Type 0 where
  health_check list_sessions create_session list_nodes : Route
  log_in : Option (String × String) → Route
  show_session end_session approve_node poll_node page : String → Route
  register_node : String → Option Registration → Route
  deny_node : String → String → Route
  upload : String → Route

pub record Request : Type 0 where
  pub route : Route
  pub authorization : String
  pub cookie : Option String
  pub csrf : String

-- A page or a JSON object
pub data Reply : Type 0 where
  json : Response → Reply
  html : Page → Reply

-- healthHandler
abbrev pub health_handler : Response
health_handler = write_json 200 health

abbrev pub method_of : Route → Method
method_of health_check = get
method_of list_sessions = get
method_of create_session = post
method_of list_nodes = get
method_of (log_in body) = post
method_of (show_session id) = get
method_of (end_session id) = delete
method_of (approve_node id) = post
method_of (poll_node id) = get
method_of (page path) = get
method_of (register_node ip body) = post
method_of (deny_node id reason) = post
method_of (upload id) = post

module _ {W : Type 0} (setup : Setup W) (turn : Turn) where
  abbrev on_sessions : Response × SessionTypes.Store × W → App W → Reply × App W
  on_sessions r app = (json r.0, record app { sessions = r.1; cluster = r.2 })

  abbrev on_nodes : Response × Types.Store → App W → Reply × App W
  on_nodes r app = (json r.0, record app { nodes = r.1 })

  -- The handler of each pattern; `user` is what bearerClaims finds.
  unfoldable pub serve : Route → Option String → App W → Reply × App W
  serve health_check user app = (json health_handler, app)
  serve (log_in body) user app = (json (post_login setup.keys setup.ttl turn.now body), app)
  serve create_session user app =
      on_sessions
        (post_session setup.provisioner turn.session_env turn.session_later app.sessions app.cluster
          user)
        app
  serve list_sessions user app =
      on_sessions
        (get_sessions setup.provisioner turn.session_env turn.session_later app.sessions app.cluster
          user)
        app
  serve (show_session id) user app =
      on_sessions
        (get_session setup.provisioner turn.session_env turn.session_later app.sessions app.cluster
          id user)
        app
  serve (end_session id) user app =
      on_sessions
        (delete_session setup.provisioner turn.session_env turn.session_later app.sessions
          app.cluster id user)
        app
  serve (register_node ip body) user app =
      let (r, l, s) =
        post_register setup.lib setup.settings turn.node_env turn.node_later turn.now ip body
          app.limiter app.nodes in
      (json r, record app { nodes = s; limiter = l })
  serve (poll_node id) user app =
      let (r, s, w) =
        poll setup.minter setup.settings.join_url turn.node_env turn.node_later turn.now id
          app.nodes app.cluster in
      (json r, record app { nodes = s; cluster = w })
  serve list_nodes user app = (json (get_nodes turn.visited user), app)
  serve (approve_node id) user app = on_nodes (post_approve turn.node_env id user app.nodes) app
  serve (deny_node id reason) user app =
      on_nodes (post_deny turn.node_env id reason user app.nodes) app
  serve (upload id) user app = (json (post_diagnostics id turn.write app.nodes), app)
  serve (page path) user app = (html (spa_handler setup.dist setup.clean path), app)

  -- The router: guardCSRF around the mux
  unfoldable pub handle : Request → App W → Reply × App W
  handle req app =
      if not (passes_csrf setup.keys (method_of req.route) req.cookie req.csrf)
      then (json (write_json 403 (failure "csrf token missing or invalid")), app)
      else serve req.route (bearer_claims setup.keys turn.now req.authorization) app
