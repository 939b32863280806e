-- ===== src/Http/UsersApart.antt =====
-- What a user's requests leave of the other users' sessions.
use ldndrc.Base.{◌≡◌, ◌≢◌, inl, inr, String, some, Bool-cases}
use ldndrc.Http.Auth.{bearer_claims, passes_csrf}
use ldndrc.Http.Router.{Setup, App, Turn, Route, Request, method_of, serve, handle}
use ldndrc.Http.Router
use ldndrc.Http.Sessions.{post_session, get_sessions, get_session, delete_session}
use ldndrc.Sessions.Apart.{
  Apart, Apart-refl, Apart-trans, create_locked-Apart, set_status-Apart, list_sessions-Apart,
}
use ldndrc.Sessions.Invariant.{IsWellFormed}
use ldndrc.Sessions.Methods.{list_sessions}
use ldndrc.Sessions.Sections.{IsFresh}
use ldndrc.Sessions.Walk.{create-follows, get-follows, delete-follows}

module _ {W : Type 0} (setup : Setup W) (turn : Turn) (u : String) where
  serve-Apart :
      (route : Route) (app : App W)
      → IsFresh turn.session_env app.sessions
      → Apart u app.sessions (serve setup turn route (some u) app).1.sessions
  unfolding serve post_session get_sessions get_session delete_session
  serve-Apart Router.create_session app fresh =
      create-follows setup.provisioner u (Apart u) (Apart-refl u) (Apart-trans u)
        (λ env s. create_locked-Apart u env s) (set_status-Apart u) turn.session_env
        turn.session_later app.sessions app.cluster fresh
  serve-Apart (Router.show_session id) app fresh =
      get-follows setup.provisioner u (Apart u) (Apart-refl u) (Apart-trans u)
        (λ env s. create_locked-Apart u env s) (set_status-Apart u) turn.session_env id app.sessions
        app.cluster
  serve-Apart (Router.end_session id) app fresh =
      delete-follows setup.provisioner u (Apart u) (Apart-refl u) (Apart-trans u)
        (λ env s. create_locked-Apart u env s) (set_status-Apart u) turn.session_env
        turn.session_later id app.sessions app.cluster
  serve-Apart Router.list_sessions app fresh = Apart-refl u app.sessions
  serve-Apart (Router.register_node ip body) app fresh = Apart-refl u app.sessions
  serve-Apart (Router.poll_node id) app fresh = Apart-refl u app.sessions
  serve-Apart (Router.approve_node id) app fresh = Apart-refl u app.sessions
  serve-Apart (Router.deny_node id reason) app fresh = Apart-refl u app.sessions
  serve-Apart Router.health_check app fresh = Apart-refl u app.sessions
  serve-Apart (Router.log_in body) app fresh = Apart-refl u app.sessions
  serve-Apart (Router.upload id) app fresh = Apart-refl u app.sessions
  serve-Apart (Router.page path) app fresh = Apart-refl u app.sessions
  serve-Apart Router.list_nodes app fresh = Apart-refl u app.sessions

  handle-Apart :
      (req : Request) (app : App W)
      → IsFresh turn.session_env app.sessions
      → bearer_claims setup.keys turn.now req.authorization ≡ some u
      → Apart u app.sessions (handle setup turn req app).1.sessions
  unfolding handle
  handle-Apart req app fresh who =
      elim (Bool-cases (passes_csrf setup.keys (method_of req.route) req.cookie req.csrf)) [
        | inr bad ↦ rw bad (Apart-refl u app.sessions)
        | inl passed ↦ rw (passed, who) (serve-Apart req.route app fresh)
      ]

  -- A request of one user changes nothing of another user's: List answers the other the same, the
  -- store holds exactly the same sessions of the other, and the other's entry is the same, whatever
  -- the provisioner, the disk and the clock answer; a new session is taken to draw an ID that is not
  -- in use.
  pub users-Apart :
      (req : Request) (app : App W) (v : String)
      → IsWellFormed app.sessions
      → IsFresh turn.session_env app.sessions
      → bearer_claims setup.keys turn.now req.authorization ≡ some u
      → v ≢ u
      → let after = (handle setup turn req app).1.sessions in
        (list_sessions v after ≡ list_sessions v app.sessions) × Apart u app.sessions after
  users-Apart req app v wf fresh who other =
      let apart = handle-Apart req app fresh who in
      (
        list_sessions-Apart u v app.sessions (handle setup turn req app).1.sessions wf apart other,
        apart,
      )
