-- ===== src/Http/Sessions.antt =====
-- The session handlers and the login of control-panel/internal/httpapi/router.go.
use ldndrc.Base.{
  ℕ, String, Option, none, some, [], ◌∷◌, Result, ok, err, concat, str_eq, ◌||◌, if◌then◌else◌,
}
use ldndrc.Http.Types.{failure, login, session, sessions, Response, write_json, unauthorized}
use ldndrc.Http.Auth.{Keys, issue, issue_csrf}
use ldndrc.Sessions.Types.{
  Session, Error, session_exists, not_found, forbidden, username_required, no_domain_ids,
  invalid_status, generate_id, persist, provision, readiness, delete_failed, Store, Env,
  Provisioner, Status, provisioning, ready, stopping, stopped, error, other,
}
use ldndrc.Sessions.Methods.{list_sessions, create, get, delete}

abbrev pub status_text : Status → String
status_text provisioning = "provisioning"
status_text ready = "ready"
status_text stopping = "stopping"
status_text stopped = "stopped"
status_text error = "error"
status_text (other s) = s

-- err.Error()
abbrev pub error_text : Error → String
error_text session_exists = "user already has an active session"
error_text not_found = "session not found"
error_text forbidden = "session does not belong to user"
error_text username_required = "username is required"
error_text no_domain_ids = "no ROS domain IDs available"
error_text (invalid_status from to) =
    concat ("invalid session status transition: " ∷ status_text from ∷ " -> " ∷ status_text to ∷ [])
error_text (generate_id e) = concat ("generate session id: " ∷ e ∷ [])
error_text (persist e) = concat ("persist session: " ∷ e ∷ [])
error_text (provision e) = concat ("provision session: " ∷ e ∷ [])
error_text (readiness e) = concat ("check session readiness: " ∷ e ∷ [])
error_text (delete_failed e) = concat ("delete session: " ∷ e ∷ [])

-- The status code of writeSessionError
abbrev pub session_error_code : Error → ℕ
session_error_code not_found = 404
session_error_code forbidden = 403
session_error_code _ = 500

-- writeSessionError
unfoldable pub write_session_error : Error → Response
write_session_error e = write_json (session_error_code e) (failure (error_text e))

-- The answer of POST /api/sessions
unfoldable pub create_response : Result Error Session → Response
create_response (ok x) = write_json 202 (session x)
create_response (err session_exists) = write_json 409 (failure (error_text session_exists))
create_response (err e) = write_json 500 (failure "provision failed")

-- The answer of GET and DELETE /api/sessions/{id}
unfoldable pub session_response : Result Error Session → Response
session_response (ok x) = write_json 200 (session x)
session_response (err e) = write_session_error e

module _ {W : Type 0} (p : Option (Provisioner W)) (env later : Env) (s : Store) (w : W) where
  -- POST /api/sessions, behind bearerClaims
  unfoldable pub post_session : Option String → Response × Store × W
  post_session none = (unauthorized, s, w)
  post_session (some u) = let (r, s', w') = create p env later u s w in (create_response r, s', w')

  -- GET /api/sessions
  unfoldable pub get_sessions : Option String → Response × Store × W
  get_sessions none = (unauthorized, s, w)
  get_sessions (some u) = (write_json 200 (sessions (list_sessions u s)), s, w)

  -- GET /api/sessions/{id}
  unfoldable pub get_session : String → Option String → Response × Store × W
  get_session id none = (unauthorized, s, w)
  get_session id (some u) = let (r, s', w') = get p env u id s w in (session_response r, s', w')

  -- DELETE /api/sessions/{id}
  unfoldable pub delete_session : String → Option String → Response × Store × W
  delete_session id none = (unauthorized, s, w)
  delete_session id (some u) =
      let (r, s', w') = delete p env later u id s w in (session_response r, s', w')

-- POST /api/auth/login, on the decoded body, or `none` if it does not parse. The token is also set
-- as the session cookie.
unfoldable pub post_login : Keys → ℕ → ℕ → Option (String × String) → Response
post_login keys ttl now none = write_json 400 (failure "invalid body")
post_login keys ttl now (some (username, password)) =
    if str_eq username "" || str_eq password ""
    then write_json 401 (failure "username and password required")
    else elim (issue keys ttl now username) [
      | err e ↦ write_json 500 (failure "token issue failed")
      | ok token ↦ write_json 200 (login token (issue_csrf keys token))
    ]
