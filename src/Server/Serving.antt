-- ===== src/Server/Serving.antt =====
-- What holds of the control panel as a whole, the gateway and the router on one session store,
-- whatever requests it serves.
use ldndrc.Base.{
  ◌≡◌, refl, inl, inr, subst, sym, String, true, some, List, [], ◌∷◌, arith, Option-cases,
}
use ldndrc.Gateway.Handler.{
  Library, Settings, Outcome, passed, answered, proxied, route_of, serve_user, session_handler,
}
use ldndrc.Gateway.Ownership.{Entry, own_workspace}
use ldndrc.Http.Auth.{verify_cookie}
use ldndrc.Http.Router.{Setup, App, Turn, Request}
use ldndrc.Http.Serving.{handle-stores}
use ldndrc.Nodes.Invariant.{IsWellFormed}
use ldndrc.Nodes.Steps.{IsFresh}
use ldndrc.Server.Handler.{from_workspace, Incoming, behind_gateway, serve_incoming, serve_row}
use ldndrc.Sessions.Calls.{calls-Reach}
use ldndrc.Sessions.Invariant as SessionInvariant
use ldndrc.Sessions.Sections as Sections
use ldndrc.Sessions.Types.{Store}

module _ {W : Type 0} (lib : Library) (vars : Settings) (setup : Setup W) where
  -- What the gateway makes of a request
  abbrev gateway : Turn → Incoming → App W → Outcome × Store × W
  gateway turn x app =
      session_handler lib vars setup.keys setup.provisioner turn.session_env x.host turn.now
        x.request.cookie app.sessions app.cluster

  abbrev behind : Turn → Incoming → App W → App W
  behind turn x app = record app {
    sessions = (gateway turn x app).1;
    cluster = (gateway turn x app).2;
  }

  gateway-Reach :
      (turn : Turn) (x : Incoming) (app : App W)
      → Sections.Reach app.sessions (gateway turn x app).1
  unfolding session_handler serve_user
  gateway-Reach turn x app = elim (Option-cases (route_of lib vars x.host)) [
    | inl e ↦ rw (e, session_handler) Sections.here
    | inr (port, e) ↦
        rw (e, session_handler)
          (elim (Option-cases (verify_cookie setup.keys turn.now x.request.cookie)) [
            | inl gone ↦ rw gone Sections.here
            | inr (u, good) ↦ rw good (
                (calls-Reach setup.provisioner turn.session_env turn.session_env u "" app.sessions
                  app.cluster [] (λ s. true) (λ s. turn.session_env)).2)
          ])
  ]

  -- The random IDs that the requests would draw are not in use.
  abbrev pub AllFresh : List (Turn × Incoming) → App W → Type 0
  AllFresh [] app = Unit
  AllFresh ((turn, x) ∷ rest) app =
      Sections.IsFresh turn.session_env (behind turn x app).sessions
      × IsFresh turn.node_env app.nodes
      × AllFresh rest (serve_incoming lib vars setup turn x app).1

  abbrev Kept : App W → App W → Type 0
  Kept app app' =
      Sections.Reach app.sessions app'.sessions
      × (IsWellFormed setup.lib app.nodes → IsWellFormed setup.lib app'.nodes)

  behind_gateway-Kept :
      (turn : Turn) (req : Request) (outcome : Outcome) (app : App W)
      → Sections.IsFresh turn.session_env app.sessions
      → IsFresh turn.node_env app.nodes
      → Kept app (behind_gateway lib vars setup turn req outcome app).1
  unfolding behind_gateway
  behind_gateway-Kept turn req (proxied target) app fresh unused = (Sections.here, λ wf. wf)
  behind_gateway-Kept turn req (answered code text) app fresh unused = (Sections.here, λ wf. wf)
  behind_gateway-Kept turn req passed app fresh unused =
      handle-stores setup turn req app fresh unused

  serve_incoming-Kept :
      (turn : Turn) (x : Incoming) (app : App W)
      → Sections.IsFresh turn.session_env (behind turn x app).sessions
      → IsFresh turn.node_env app.nodes
      → Kept app (serve_incoming lib vars setup turn x app).1
  unfolding serve_incoming
  serve_incoming-Kept turn x app fresh unused =
      let (reach, keeps) =
        behind_gateway-Kept turn x.request (gateway turn x app).0 (behind turn x app) fresh
          unused in
      (Sections.Reach-trans (gateway-Reach turn x app) reach, keeps)

  -- Whatever row of requests the control panel serves, for the workspaces and for the API, with
  -- whatever answers of the clock, the disk and the cluster, locked sections reach the session store
  -- that it leaves, so everything that they keep is kept, and both stores stay well formed; the IDs
  -- that are drawn are taken to be unused.
  pub server_keeps_stores :
      (requests : List (Turn × Incoming)) (app : App W)
      → AllFresh requests app
      → SessionInvariant.IsWellFormed app.sessions
      → IsWellFormed setup.lib app.nodes
      → let after = serve_row lib vars setup requests app in
        Sections.Reach app.sessions after.sessions
        × SessionInvariant.IsWellFormed after.sessions
        × IsWellFormed setup.lib after.nodes
  unfolding serve_row
  server_keeps_stores [] app fresh ws wn = (Sections.here, ws, wn)
  server_keeps_stores ((turn, x) ∷ rest) app (fresh, unused, later) ws wn =
      let (reach, keeps) = serve_incoming-Kept turn x app fresh unused in
      let (r, s, n) =
        server_keeps_stores rest (serve_incoming lib vars setup turn x app).1 later
          (Sections.Reach-IsWellFormed ws reach) (keeps wn) in
      (Sections.Reach-trans reach r, s, n)

  behind_gateway-workspace :
      (turn : Turn) (req : Request) (outcome : Outcome) (app : App W) (target : String)
      → (behind_gateway lib vars setup turn req outcome app).0 ≡ from_workspace target
      → (outcome ≡ proxied target)
        × ((behind_gateway lib vars setup turn req outcome app).1.sessions ≡ app.sessions)
  unfolding behind_gateway
  behind_gateway-workspace turn req (proxied t) app target h = (ground (arith, h), refl)
  behind_gateway-workspace turn req (answered code text) app target h = absurd (ground (arith, h))
  behind_gateway-workspace turn req passed app target h = absurd (ground (arith, h))

  -- After any row of requests from well-formed stores, a request is let into a workspace only if its
  -- session cookie names a user, and then only into the service of a session that the store holds,
  -- that is ready and belongs to that user, at the port of the route that the host names; the IDs
  -- that are drawn are taken to be unused.
  pub workspaces_private :
      (requests : List (Turn × Incoming)) (app : App W) (turn : Turn) (x : Incoming)
      (target : String)
      → AllFresh requests app
      → SessionInvariant.IsWellFormed app.sessions
      → IsWellFormed setup.lib app.nodes
      → let r = serve_incoming lib vars setup turn x (serve_row lib vars setup requests app) in
        r.0 ≡ from_workspace target
        → (u : String) × (verify_cookie setup.keys turn.now x.request.cookie ≡ some u)
          × Entry lib vars x.host u target r.1.sessions
  unfolding serve_incoming
  workspaces_private requests app turn x target fresh ws wn h =
      let app' = serve_row lib vars setup requests app in
      let (reach, ws', wn') = server_keeps_stores requests app fresh ws wn in
      let (sent, same) =
        behind_gateway-workspace turn x.request (gateway turn x app').0 (behind turn x app') target
          h in
      let (u, good, entry) =
        own_workspace lib vars setup.keys setup.provisioner turn.session_env x.host turn.now
          x.request.cookie app'.sessions app'.cluster target ws' sent in
      (u, good, subst (Entry lib vars x.host u target) (sym same) entry)
