-- ===== src/Http/Serving.antt =====
-- Whatever requests are served, the two stores stay well formed.
use ldndrc.Base.{
  ℕ, ◌≡◌, inl, inr, ◌&&◌, ◌⊎◌, String, true, not, Option, none, some, ok, List, [], ◌∷◌, arith,
  str_eq, Bool-cases, Result-cases,
}
use ldndrc.Http.Auth.{bearer_claims, passes_csrf}
use ldndrc.Http.Sessions.{post_session, get_sessions, get_session, delete_session}
use ldndrc.Http.Nodes.{
  Settings, Registration, approved_response, post_register, register_node, post_approve, post_deny,
}
use ldndrc.Http.Limiter.{Limiter, allow}
use ldndrc.Http.Router.{Setup, App, Turn, Route, Request, method_of, serve, handle}
use ldndrc.Http.Router
use ldndrc.Http.Poll.{poll}
use ldndrc.Http.PollSteps.{poll-follows}
use ldndrc.Nodes.Types.{Node, Env, Store, Library, Profile}
use ldndrc.Nodes.Steps.{approves, denies, mints, expires, IsFresh}
use ldndrc.Nodes.Effects.{approve-Effect, deny-Effect, mark_minted-Effect, expire-Effect}
use ldndrc.Nodes.Store.{register, approve}
use ldndrc.Nodes.Invariant.{IsWellFormed, Effect-IsWellFormed, register-IsWellFormed}
use ldndrc.Sessions.Sections as Sections
use ldndrc.Sessions.Invariant as SessionInvariant
use ldndrc.Sessions.Calls.{calls-Reach}

module _ (lib : Library) where
  abbrev Keeps : Store → Store → Type 0
  Keeps s t = IsWellFormed lib s → IsWellFormed lib t

  pub approved_store :
      (env : Env) (n : Node) (s : Store) → (approved_response env n s).1 ≡ (approve env n.id s).1
  unfolding approved_response
  approved_store env n s = elim (Result-cases (approve env n.id s).0) [
    | inl (n', e) ↦ ground (arith, e)
    | inr (e, failed) ↦ ground (arith, failed)
  ]

  approved_response-Keeps :
      (env : Env) (n : Node) (s : Store) → Keeps s (approved_response env n s).1
  approved_response-Keeps env n s wf =
      rw (approved_store env n s)
        (Effect-IsWellFormed lib env (approves n.id) s _ (approve-Effect env n.id s) wf)

  pub register_node-stores :
      (settings : Settings) (env later : Env) (p : Profile) (s : Store)
      → let t = (register lib env p s).1 in
        let u = (register_node lib settings env later p s).1 in
        (u ≡ t)
        ⊎ ((n : Node) × ((register lib env p s).0 ≡ ok (n, true))
            × (u ≡ (approved_response later n t).1))
  unfolding register_node
  register_node-stores settings env later p s = elim (Result-cases (register lib env p s).0) [
    | inr (e, failed) ↦ inl (ground (arith, failed))
    | inl ((n, created), e) ↦ elim (Bool-cases (created && settings.auto_approve)) [
      | inl auto ↦ inr (n, ground (arith, e, auto), ground (arith, e, auto))
      | inr manual ↦ inl (ground (arith, e, manual))
    ]
  ]

  register_node-Keeps :
      (settings : Settings) (env later : Env) (p : Profile) (s : Store)
      → IsFresh env s
      → Keeps s (register_node lib settings env later p s).1
  register_node-Keeps settings env later p s fresh wf =
      let t = (register lib env p s).1 in
      let first = register-IsWellFormed lib env p s fresh wf in
      elim (register_node-stores settings env later p s) [
        | inl same ↦ rw same first
        | inr (n, _, same) ↦ rw same (approved_response-Keeps later n t first)
      ]

  post_register-Keeps :
      (settings : Settings) (env later : Env) (now : ℕ) (ip : String) (body : Option Registration)
      (l : Limiter) (s : Store)
      → IsFresh env s
      → Keeps s (post_register lib settings env later now ip body l s).2
  unfolding post_register
  post_register-Keeps settings env later now ip none l s fresh wf = wf
  post_register-Keeps settings env later now ip (some req) l s fresh wf =
      elim (Bool-cases
        (not (str_eq settings.join_key "") && not (str_eq req.join_key settings.join_key))) [
          | inl bad ↦ rw bad wf
          | inr good ↦ elim (Bool-cases (allow now ip l).0) [
            | inr many ↦ rw (good, many) wf
            | inl few ↦
                rw (good, few) (register_node-Keeps settings env later req.profile s fresh wf)
          ]
        ]

module _ {W : Type 0} (setup : Setup W) (turn : Turn) where
  abbrev lib : Library
  lib = setup.lib

  poll-Keeps :
      (id : String) (s : Store) (w : W)
      → Keeps lib s
          (poll setup.minter setup.settings.join_url turn.node_env turn.node_later turn.now id s
            w).1
  poll-Keeps i t v =
      poll-follows setup.minter setup.settings.join_url turn.node_env turn.node_later turn.now
        (λ i. Unit) (Keeps lib) (λ s wf. wf) (λ s t u a b wf. b (a wf))
        (λ id s c.
          Effect-IsWellFormed lib turn.node_env (expires id turn.now) s _
            (expire-Effect turn.node_env id turn.now s))
        (λ id token_id s c.
          Effect-IsWellFormed lib turn.node_later (mints id token_id) s _
            (mark_minted-Effect turn.node_later id token_id s))
        i t v (λ n there. tt)

  serve-nodes :
      (route : Route) (user : Option String) (app : App W)
      → IsFresh turn.node_env app.nodes
      → Keeps lib app.nodes (serve setup turn route user app).1.nodes
  unfolding serve post_approve post_deny
  serve-nodes (Router.register_node ip body) user app fresh =
      post_register-Keeps lib setup.settings turn.node_env turn.node_later turn.now ip body
        app.limiter app.nodes fresh
  serve-nodes (Router.poll_node id) user app fresh = poll-Keeps id app.nodes app.cluster
  serve-nodes (Router.approve_node id) none app fresh = λ wf. wf
  serve-nodes (Router.approve_node id) (some u) app fresh =
      Effect-IsWellFormed lib turn.node_env (approves id) app.nodes _
        (approve-Effect turn.node_env id app.nodes)
  serve-nodes (Router.deny_node id reason) none app fresh = λ wf. wf
  serve-nodes (Router.deny_node id reason) (some u) app fresh =
      Effect-IsWellFormed lib turn.node_env (denies id reason) app.nodes _
        (deny-Effect turn.node_env id reason app.nodes)
  serve-nodes Router.health_check user app fresh = λ wf. wf
  serve-nodes (Router.log_in body) user app fresh = λ wf. wf
  serve-nodes (Router.upload id) user app fresh = λ wf. wf
  serve-nodes (Router.page path) user app fresh = λ wf. wf
  serve-nodes Router.create_session user app fresh = λ wf. wf
  serve-nodes Router.list_sessions user app fresh = λ wf. wf
  serve-nodes (Router.show_session id) user app fresh = λ wf. wf
  serve-nodes (Router.end_session id) user app fresh = λ wf. wf
  serve-nodes Router.list_nodes user app fresh = λ wf. wf

  serve-Reach :
      (route : Route) (user : Option String) (app : App W)
      → Sections.IsFresh turn.session_env app.sessions
      → Sections.Reach app.sessions (serve setup turn route user app).1.sessions
  unfolding serve post_session get_sessions get_session delete_session
  serve-Reach Router.create_session (some u) app fresh =
      (calls-Reach setup.provisioner turn.session_env turn.session_later u "" app.sessions
          app.cluster [] (λ x. true) (λ x. turn.session_env)).0
        fresh
  serve-Reach (Router.show_session id) (some u) app fresh =
      (calls-Reach setup.provisioner turn.session_env turn.session_later u id app.sessions
        app.cluster [] (λ x. true) (λ x. turn.session_env)).1
  serve-Reach (Router.end_session id) (some u) app fresh =
      (calls-Reach setup.provisioner turn.session_env turn.session_later u id app.sessions
        app.cluster [] (λ x. true) (λ x. turn.session_env)).3
  serve-Reach Router.create_session none app fresh = Sections.here
  serve-Reach (Router.show_session id) none app fresh = Sections.here
  serve-Reach (Router.end_session id) none app fresh = Sections.here
  serve-Reach Router.list_sessions none app fresh = Sections.here
  serve-Reach Router.list_sessions (some u) app fresh = Sections.here
  serve-Reach (Router.register_node ip body) user app fresh = Sections.here
  serve-Reach (Router.poll_node id) user app fresh = Sections.here
  serve-Reach (Router.approve_node id) user app fresh = Sections.here
  serve-Reach (Router.deny_node id reason) user app fresh = Sections.here
  serve-Reach Router.health_check user app fresh = Sections.here
  serve-Reach (Router.log_in body) user app fresh = Sections.here
  serve-Reach (Router.upload id) user app fresh = Sections.here
  serve-Reach (Router.page path) user app fresh = Sections.here
  serve-Reach Router.list_nodes user app fresh = Sections.here

module _ {W : Type 0} (setup : Setup W) where
  -- The state after a row of requests, each with what the clock, crypto/rand and the disk answer
  unfoldable pub serve_all : List (Turn × Request) → App W → App W
  serve_all [] app = app
  serve_all ((turn, req) ∷ rest) app = serve_all rest (handle setup turn req app).1

  -- The random IDs that the requests would draw are not in use.
  abbrev pub AllFresh : List (Turn × Request) → App W → Type 0
  AllFresh [] app = Unit
  AllFresh ((turn, req) ∷ rest) app =
      Sections.IsFresh turn.session_env app.sessions
      × IsFresh turn.node_env app.nodes
      × AllFresh rest (handle setup turn req app).1

  pub handle-stores :
      (turn : Turn) (req : Request) (app : App W)
      → Sections.IsFresh turn.session_env app.sessions
      → IsFresh turn.node_env app.nodes
      → Sections.Reach app.sessions (handle setup turn req app).1.sessions
        × Keeps setup.lib app.nodes (handle setup turn req app).1.nodes
  unfolding handle
  handle-stores turn req app fresh unused =
      elim (Bool-cases (passes_csrf setup.keys (method_of req.route) req.cookie req.csrf)) [
        | inr bad ↦ rw bad (Sections.here, λ wf. wf)
        | inl good ↦
            let user = bearer_claims setup.keys turn.now req.authorization in
            rw good (
              serve-Reach setup turn req.route user app fresh,
              serve-nodes setup turn req.route user app unused,
            )
      ]

  -- Whatever row of requests the router serves, with whatever answers of the clock, the disk and the
  -- cluster, locked sections reach the session store that it leaves, so everything that they keep is
  -- kept, and both stores stay well formed; the IDs that are drawn are taken to be unused.
  requests_keep_stores :
      (requests : List (Turn × Request)) (app : App W)
      → AllFresh requests app
      → SessionInvariant.IsWellFormed app.sessions
      → IsWellFormed setup.lib app.nodes
      → let after = serve_all requests app in
        Sections.Reach app.sessions after.sessions
        × SessionInvariant.IsWellFormed after.sessions
        × IsWellFormed setup.lib after.nodes
  unfolding serve_all
  requests_keep_stores [] app fresh ws wn = (Sections.here, ws, wn)
  requests_keep_stores ((turn, req) ∷ rest) app (fresh, unused, later) ws wn =
      let (reach, keeps) = handle-stores turn req app fresh unused in
      let (r, s, n) =
        requests_keep_stores rest (handle setup turn req app).1 later
          (Sections.Reach-IsWellFormed ws reach) (keeps wn) in
      (Sections.Reach-trans reach r, s, n)
