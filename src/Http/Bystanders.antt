-- ===== src/Http/Bystanders.antt =====
-- What the requests about other laptops leave alone: the record of one laptop.
use ldndrc.Base.{
  ◌≡◌, ◌∙◌, sym, ap, inl, inr, subst, ◌&&◌, String, Bool, true, false, not, Option, none, some,
  List, [], ◌∷◌, ok, arith, All, str_eq, eq_iff, Bool-cases, Option-cases, ℕ,
}
use ldndrc.Base.Map.{lookup, lookup-put, lookup-put_self}
use ldndrc.Http.Auth.{bearer_claims, passes_csrf}
use ldndrc.Http.Limiter.{Limiter, allow}
use ldndrc.Http.Nodes.{
  Settings, Registration, post_register, register_node, post_approve, post_deny,
}
use ldndrc.Http.Poll.{poll}
use ldndrc.Http.PollSteps.{poll-follows}
use ldndrc.Http.Router.{Setup, App, Turn, Route, Request, method_of, serve, handle}
use ldndrc.Http.Router
use ldndrc.Http.Serving.{serve_all, AllFresh, handle-stores, approved_store, register_node-stores}
use ldndrc.Nodes.Effects.{
  Effect, keeps, writes, target, update, approve-Effect, deny-Effect, mark_minted-Effect,
  expire-Effect, save_node-nodes,
}
use ldndrc.Nodes.History.{register-keeps}
use ldndrc.Nodes.Invariant.{IsWellFormed}
use ldndrc.Nodes.Registering.{known, refused, added, register-Registered}
use ldndrc.Nodes.Steps.{approves, denies, mints, expires, IsFresh}
use ldndrc.Nodes.Store.{register, known_node, new_node, can_approve, approve_node, approve, get}
use ldndrc.Nodes.Types.{Node, Env, Store, Library, Profile}

-- The record under `id` is as it was.
abbrev pub Leaves : String → Store → Store → Type 0
Leaves id s t = (n : Node) → lookup id s.nodes ≡ some n → lookup id t.nodes ≡ some n

-- The route is no poll, approval or denial of the laptop.
abbrev pub is_quiet : String → Route → Bool
is_quiet id (Router.approve_node j) = not (str_eq j id)
is_quiet id (Router.deny_node j reason) = not (str_eq j id)
is_quiet id (Router.poll_node j) = not (str_eq j id)
is_quiet id _ = true

module _ (id : String) where
  Effect-Leaves :
      (env : Env) (op : _) (s t : Store)
      → str_eq (target op) id ≡ false
      → Effect env op s t
      → Leaves id s t
  Effect-Leaves env op s t other (keeps e) n h = ap (λ (u : Store). lookup id u.nodes) e ∙ h
  Effect-Leaves env op s t other (writes x found m nodes index) n h =
      ground (arith, nodes, other, h, lookup-put (target op) id (update env op x) s.nodes)

  -- A laptop that Register has created was not in the store.
  created-other :
      (lib : Library) (env : Env) (p : Profile) (s : Store) (n m : Node)
      → IsFresh env s
      → (register lib env p s).0 ≡ ok (n, true)
      → lookup id s.nodes ≡ some m
      → str_eq n.id id ≡ false
  unfolding new_node known_node
  created-other lib env p s n m fresh h found = elim (register-Registered lib env p s fresh) [
    | known i good there e ↦ elim (Option-cases (lookup i s.nodes)) [
      | inl gone ↦ absurd (ground (arith, gone, e, h))
      | inr (x, old) ↦ absurd (ground (arith, old, e, h))
    ]
    | refused c why w e ↦ absurd (ground (arith, e, h))
    | added i f unused free e ↦ elim (Bool-cases (str_eq n.id id)) [
      | inr miss ↦ miss
      | inl hit ↦
          let same : i ≡ n.id = ground (arith, e, h) in
          absurd (cc (same, (eq_iff n.id id).0 hit, unused, found))
    ]
  ]

  register_node-Leaves :
      (lib : Library) (settings : Settings) (env later : Env) (p : Profile) (s : Store)
      → IsFresh env s
      → Leaves id s (register_node lib settings env later p s).1
  register_node-Leaves lib settings env later p s fresh m h =
      let t = (register lib env p s).1 in
      let first = register-keeps lib env p s id m fresh h in
      elim (register_node-stores lib settings env later p s) [
        | inl same ↦ rw same first
        | inr (n, new, same) ↦
            let other = created-other lib env p s n m fresh new h in
            rw (same, approved_store lib later n t)
              (Effect-Leaves later (approves n.id) t _ other (approve-Effect later n.id t) m first)
      ]

  post_register-Leaves :
      (lib : Library) (settings : Settings) (env later : Env) (now : ℕ) (ip : String)
      (body : Option Registration) (l : Limiter) (s : Store)
      → IsFresh env s
      → Leaves id s (post_register lib settings env later now ip body l s).2
  unfolding post_register
  post_register-Leaves lib settings env later now ip none l s fresh n h = h
  post_register-Leaves lib settings env later now ip (some req) l s fresh n h =
      elim (Bool-cases
        (not (str_eq settings.join_key "") && not (str_eq req.join_key settings.join_key))) [
          | inl bad ↦ rw bad h
          | inr good ↦ elim (Bool-cases (allow now ip l).0) [
            | inr many ↦ rw (good, many) h
            | inl few ↦
                rw (good, few) (register_node-Leaves lib settings env later req.profile s fresh n h)
          ]
        ]

  module _ {W : Type 0} (setup : Setup W) (turn : Turn) where
    poll-Leaves :
        (j : String) (s : Store) (w : W)
        → IsWellFormed setup.lib s
        → str_eq j id ≡ false
        → Leaves id s
            (poll setup.minter setup.settings.join_url turn.node_env turn.node_later turn.now j s
              w).1
    unfolding get
    poll-Leaves j s w wf other =
        poll-follows setup.minter setup.settings.join_url turn.node_env turn.node_later turn.now
          (λ i. str_eq i id ≡ false) (Leaves id) (λ t n h. h) (λ s t u a b n h. b n (a n h))
          (λ i t miss.
            Effect-Leaves turn.node_env (expires i turn.now) t _ miss
              (expire-Effect turn.node_env i turn.now t))
          (λ i token_id t miss.
            Effect-Leaves turn.node_later (mints i token_id) t _ miss
              (mark_minted-Effect turn.node_later i token_id t))
          j s w
          (λ n there. elim (Option-cases (lookup j s.nodes)) [
            | inl gone ↦ absurd (ground (arith, gone, there))
            | inr (x, found) ↦
                let same : n.id ≡ j = ground (arith, found, there, wf.keyed j x found) in
                subst (λ k. str_eq k id ≡ false) (sym same) other
          ])

    serve-Leaves :
        (route : Route) (user : Option String) (app : App W)
        → IsFresh turn.node_env app.nodes
        → IsWellFormed setup.lib app.nodes
        → is_quiet id route ≡ true
        → Leaves id app.nodes (serve setup turn route user app).1.nodes
    unfolding serve post_approve post_deny
    serve-Leaves (Router.register_node ip body) user app fresh wf quiet =
        post_register-Leaves setup.lib setup.settings turn.node_env turn.node_later turn.now ip body
          app.limiter app.nodes fresh
    serve-Leaves (Router.poll_node j) user app fresh wf quiet =
        poll-Leaves j app.nodes app.cluster wf (ground (arith, quiet))
    serve-Leaves (Router.approve_node j) none app fresh wf quiet = λ n h. h
    serve-Leaves (Router.approve_node j) (some u) app fresh wf quiet =
        Effect-Leaves turn.node_env (approves j) app.nodes _ (ground (arith, quiet))
          (approve-Effect turn.node_env j app.nodes)
    serve-Leaves (Router.deny_node j reason) none app fresh wf quiet = λ n h. h
    serve-Leaves (Router.deny_node j reason) (some u) app fresh wf quiet =
        Effect-Leaves turn.node_env (denies j reason) app.nodes _ (ground (arith, quiet))
          (deny-Effect turn.node_env j reason app.nodes)
    serve-Leaves Router.health_check user app fresh wf quiet = λ n h. h
    serve-Leaves (Router.log_in body) user app fresh wf quiet = λ n h. h
    serve-Leaves (Router.upload j) user app fresh wf quiet = λ n h. h
    serve-Leaves (Router.page path) user app fresh wf quiet = λ n h. h
    serve-Leaves Router.create_session user app fresh wf quiet = λ n h. h
    serve-Leaves Router.list_sessions user app fresh wf quiet = λ n h. h
    serve-Leaves (Router.show_session j) user app fresh wf quiet = λ n h. h
    serve-Leaves (Router.end_session j) user app fresh wf quiet = λ n h. h
    serve-Leaves Router.list_nodes user app fresh wf quiet = λ n h. h

    handle-Leaves :
        (req : Request) (app : App W)
        → IsFresh turn.node_env app.nodes
        → IsWellFormed setup.lib app.nodes
        → is_quiet id req.route ≡ true
        → Leaves id app.nodes (handle setup turn req app).1.nodes
    unfolding handle
    handle-Leaves req app fresh wf quiet n h =
        elim (Bool-cases (passes_csrf setup.keys (method_of req.route) req.cookie req.csrf)) [
          | inr bad ↦ rw bad h
          | inl good ↦ rw good (
              serve-Leaves req.route (bearer_claims setup.keys turn.now req.authorization) app fresh
                wf quiet n h)
        ]

  -- Requests that do not poll, approve or deny a laptop leave its record as it is.
  pub serve_all-Leaves :
      {W : Type 0} (setup : Setup W) (requests : List (Turn × Request)) (app : App W)
      → AllFresh setup requests app
      → IsWellFormed setup.lib app.nodes
      → All (λ r. is_quiet id r.1.route ≡ true) requests
      → Leaves id app.nodes (serve_all setup requests app).nodes
  unfolding serve_all
  serve_all-Leaves setup [] app fresh wf quiet n h = h
  serve_all-Leaves setup ((turn, req) ∷ rest) app (fresh, unused, later) wf quiet n h =
      serve_all-Leaves setup rest (handle setup turn req app).1 later
        ((handle-stores setup turn req app fresh unused).1 wf) quiet.1 n
        (handle-Leaves setup turn req app unused wf quiet.0 n h)

approve-written :
    (env : Env) (id : String) (n : Node) (s : Store)
    → lookup id s.nodes ≡ some n
    → can_approve n.status ≡ true
    → lookup id (approve env id s).1.nodes ≡ some (approve_node env n)
unfolding approve
approve-written env id n s found waiting =
    let written = (save_node-nodes env id (approve_node env n) s).0 in
    rw (found, approve)
      (rw waiting (ap (lookup id) written ∙ lookup-put_self id (approve_node env n) s.nodes))

-- What the request of an operator makes of a laptop that may be approved, saved or not
pub handle-approves :
    {W : Type 0} (setup : Setup W) (turn : Turn) (req : Request) (app : App W) (id u : String)
    (n : Node)
    → req.route ≡ Router.approve_node id
    → passes_csrf setup.keys (method_of req.route) req.cookie req.csrf ≡ true
    → bearer_claims setup.keys turn.now req.authorization ≡ some u
    → lookup id app.nodes.nodes ≡ some n
    → can_approve n.status ≡ true
    → lookup id (handle setup turn req app).1.nodes.nodes ≡ some (approve_node turn.node_env n)
unfolding handle serve post_approve
handle-approves setup turn req app id u n route passes operator found waiting =
    rw (passes, route, operator) (approve-written turn.node_env id n app.nodes found waiting)
