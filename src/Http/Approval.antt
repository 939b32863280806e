-- ===== src/Http/Approval.antt =====
-- A laptop is approved by nobody but an operator.
use ldndrc.Base.{
  ℕ, ◌≡◌, refl, sym, ◌∙◌, ap, subst, inl, inr, ◌&&◌, String, Bool, true, false, not, Option, none,
  some, arith, str_eq, Bool-cases, Option-cases, Result-cases,
}
use ldndrc.Base.Map.{lookup, lookup-put, lookup-put_cases, lookup-remove_cases, put}
use ldndrc.Http.Auth.{bearer_claims, passes_csrf}
use ldndrc.Http.Sessions.{post_session, get_sessions, get_session, delete_session}
use ldndrc.Http.Nodes.{
  Settings, Registration, post_register, register_node, post_approve, post_deny,
}
use ldndrc.Http.Limiter.{Limiter, allow}
use ldndrc.Http.Poll.{poll}
use ldndrc.Http.Router.{Setup, App, Turn, Route, Request, method_of, serve, handle}
use ldndrc.Http.Router
use ldndrc.Http.PollSteps.{poll-follows}
use ldndrc.Nodes.Types.{Node, Env, Store, Library, Profile}
use ldndrc.Nodes.Steps.{Op, registers, approves, denies, joins, mints, expires}
use ldndrc.Nodes.Effects.{Effect, keeps, writes, target, update, mark_minted-Effect, expire-Effect}
use ldndrc.Nodes.Store.{
  register, insert_node, save_locked, new_node, is_invalid, fingerprint, new_id, is_approved,
}
use ldndrc.Nodes.Tokens.{Minter}

-- Each request that the second store has approved, the first has.
abbrev pub ApprovedBefore : Store → Store → Type 0
ApprovedBefore s t =
    (id : String) (n' : Node)
    → lookup id t.nodes ≡ some n'
    → is_approved n'.status ≡ true
    → (n : Node) × (lookup id s.nodes ≡ some n) × (is_approved n.status ≡ true)

abbrev is_approval : Op → Bool
is_approval (approves id) = true
is_approval (registers p) = true
is_approval _ = false

update-approved :
    (env : Env) (op : Op) (n : Node)
    → is_approval op ≡ false
    → is_approved (update env op n).status ≡ true
    → is_approved n.status ≡ true
update-approved env (denies id reason) n q h = absurd (ground arith)
update-approved env (mints id token_id) n q h = h
update-approved env (joins id) n q h = absurd (ground arith)
update-approved env (expires id now) n q h = absurd (ground arith)
update-approved env _ n q h = absurd (ground arith)

Effect-ApprovedBefore :
    (env : Env) (op : Op) (s t : Store)
    → is_approval op ≡ false
    → Effect env op s t
    → ApprovedBefore s t
Effect-ApprovedBefore env op s t q (keeps e) id n' found h =
    (n', subst (λ u. lookup id u.nodes ≡ some n') e found, h)
Effect-ApprovedBefore env op s t q (writes n there m nodes index) id n' found h =
    elim (lookup-put_cases (target op) id (update env op n) n' s.nodes
      (ap (lookup id) (sym nodes) ∙ found)) [
        | inl (same, new) ↦ (
          n,
          subst (λ k. lookup k s.nodes ≡ some n) same there,
          update-approved env op n q (subst (λ x. is_approved x.status ≡ true) (sym new) h),
        )
        | inr (other, old) ↦ (n', old, h)
      ]

ApprovedBefore-trans :
    (s t u : Store) → ApprovedBefore s t → ApprovedBefore t u → ApprovedBefore s u
ApprovedBefore-trans s t u a b id n found h =
    let (m, there, good) = b id n found h in a id m there good

ApprovedBefore-refl : (s : Store) → ApprovedBefore s s
ApprovedBefore-refl s id n found h = (n, found, h)

poll-ApprovedBefore :
    {W : Type 0} (minter : Option (Minter W)) (url : String) (env later : Env) (now : ℕ)
    (id : String) (s : Store) (w : W)
    → ApprovedBefore s (poll minter url env later now id s w).1
poll-ApprovedBefore minter url env later now id s w =
    poll-follows minter url env later now (λ i. Unit) ApprovedBefore ApprovedBefore-refl
      ApprovedBefore-trans
      (λ i t c. Effect-ApprovedBefore env (expires i now) t _ refl (expire-Effect env i now t))
      (λ i token_id t c.
        Effect-ApprovedBefore later (mints i token_id) t _ refl
          (mark_minted-Effect later i token_id t))
      id s w (λ n there. tt)

insert_node-ApprovedBefore :
    (env : Env) (fp : String) (p : Profile) (id : String) (s : Store)
    → ApprovedBefore s (insert_node env fp (new_node env p id) s).1
unfolding insert_node save_locked new_node
insert_node-ApprovedBefore env fp p id s j n' found h = elim (Option-cases env.write) [
  | inl fine ↦
      elim (lookup-put_cases id j (new_node env p id) n' s.nodes (ground (arith, fine, found))) [
        | inl (here, e) ↦ absurd (ground (arith, e, h))
        | inr (there, old) ↦ (n', old, h)
      ]
  | inr (m, bad) ↦
      let kept =
        lookup-remove_cases id j n' (put id (new_node env p id) s.nodes)
          (ground (arith, bad, found)) in
      (n', ground (arith, kept.0, kept.1, lookup-put id j (new_node env p id) s.nodes), h)
]

register-ApprovedBefore :
    (lib : Library) (env : Env) (p : Profile) (s : Store)
    → ApprovedBefore s (register lib env p s).1
unfolding register
register-ApprovedBefore lib env p s = elim (Bool-cases (is_invalid p)) [
  | inl bad ↦ rw bad (ApprovedBefore-refl s)
  | inr good ↦ elim (Option-cases (lookup (fingerprint lib p) s.by_fingerprint)) [
    | inr (id, e) ↦ rw (good, e) (ApprovedBefore-refl s)
    | inl free ↦ elim (Result-cases (new_id env.random)) [
      | inr (m, e) ↦ rw (good, free, e) (ApprovedBefore-refl s)
      | inl (id, e) ↦ rw (good, free, e) (insert_node-ApprovedBefore env (fingerprint lib p) p id s)
    ]
  ]
]

register_node-store :
    (lib : Library) (settings : Settings) (env later : Env) (p : Profile) (s : Store)
    → settings.auto_approve ≡ false
    → (register_node lib settings env later p s).1 ≡ (register lib env p s).1
unfolding register_node
register_node-store lib settings env later p s manual =
    elim (Result-cases (register lib env p s).0) [
      | inl ((n, created), e) ↦ ground (arith, e, manual)
      | inr (e, failed) ↦ ground (arith, failed)
    ]

post_register-ApprovedBefore :
    (lib : Library) (settings : Settings) (env later : Env) (now : ℕ) (ip : String)
    (body : Option Registration) (l : Limiter) (s : Store)
    → settings.auto_approve ≡ false
    → ApprovedBefore s (post_register lib settings env later now ip body l s).2
unfolding post_register
post_register-ApprovedBefore lib settings env later now ip none l s manual = ApprovedBefore-refl s
post_register-ApprovedBefore lib settings env later now ip (some req) l s manual =
    elim (Bool-cases
      (not (str_eq settings.join_key "") && not (str_eq req.join_key settings.join_key))) [
        | inl bad ↦ rw bad (ApprovedBefore-refl s)
        | inr good ↦ elim (Bool-cases (allow now ip l).0) [
          | inr many ↦ rw (good, many) (ApprovedBefore-refl s)
          | inl few ↦
              rw (good, few, register_node-store lib settings env later req.profile s manual)
                (register-ApprovedBefore lib env req.profile s)
        ]
      ]

module _ {W : Type 0} (setup : Setup W) (turn : Turn) where
  serve-ApprovedBefore :
      (route : Route) (app : App W)
      → setup.settings.auto_approve ≡ false
      → ApprovedBefore app.nodes (serve setup turn route none app).1.nodes
  unfolding serve post_session get_sessions get_session delete_session post_approve post_deny
  serve-ApprovedBefore (Router.register_node ip body) app manual =
      post_register-ApprovedBefore setup.lib setup.settings turn.node_env turn.node_later turn.now
        ip body app.limiter app.nodes manual
  serve-ApprovedBefore (Router.poll_node id) app manual =
      poll-ApprovedBefore setup.minter setup.settings.join_url turn.node_env turn.node_later
        turn.now id app.nodes app.cluster
  serve-ApprovedBefore Router.health_check app manual = ApprovedBefore-refl app.nodes
  serve-ApprovedBefore (Router.log_in body) app manual = ApprovedBefore-refl app.nodes
  serve-ApprovedBefore (Router.upload id) app manual = ApprovedBefore-refl app.nodes
  serve-ApprovedBefore (Router.page path) app manual = ApprovedBefore-refl app.nodes
  serve-ApprovedBefore Router.create_session app manual = ApprovedBefore-refl app.nodes
  serve-ApprovedBefore Router.list_sessions app manual = ApprovedBefore-refl app.nodes
  serve-ApprovedBefore (Router.show_session id) app manual = ApprovedBefore-refl app.nodes
  serve-ApprovedBefore (Router.end_session id) app manual = ApprovedBefore-refl app.nodes
  serve-ApprovedBefore Router.list_nodes app manual = ApprovedBefore-refl app.nodes
  serve-ApprovedBefore (Router.approve_node id) app manual = ApprovedBefore-refl app.nodes
  serve-ApprovedBefore (Router.deny_node id reason) app manual = ApprovedBefore-refl app.nodes

  -- Unless AUTO_APPROVE is set, a request without a valid bearer token approves no laptop: a laptop
  -- that is approved after the request was approved before it.
  pub operator_approves :
      (req : Request) (app : App W) (id : String) (n' : Node)
      → setup.settings.auto_approve ≡ false
      → bearer_claims setup.keys turn.now req.authorization ≡ none
      → lookup id (handle setup turn req app).1.nodes.nodes ≡ some n'
      → is_approved n'.status ≡ true
      → (n : Node) × (lookup id app.nodes.nodes ≡ some n) × (is_approved n.status ≡ true)
  unfolding handle
  operator_approves req app id n' manual stranger found h =
      elim (Bool-cases (passes_csrf setup.keys (method_of req.route) req.cookie req.csrf)) [
        | inr bad ↦ (n', ground (arith, bad), h)
        | inl passed ↦
            serve-ApprovedBefore req.route app manual id n' (ground (arith, passed, stranger)) h
      ]
