-- ===== src/Http/Withheld.antt =====
-- While no laptop is approved, the router answers nobody without a bearer token with a bootstrap
-- token.
use ldndrc.Base.{
  ℕ, ◌≡◌, refl, inl, inr, ◌&&◌, ◌||◌, String, Bool, false, not, Option, none, some, arith, str_eq,
  Bool-cases, Option-cases, Result-cases,
}
use ldndrc.Base.Map.{lookup}
use ldndrc.Http.Approval.{ApprovedBefore}
use ldndrc.Http.Auth.{bearer_claims, passes_csrf, issue}
use ldndrc.Http.Auth
use ldndrc.Http.Limiter.{Limiter, allow}
use ldndrc.Http.Nodes.{
  Settings, Registration, post_register, register_node, register_response, post_approve, post_deny,
  get_nodes, post_diagnostics, save_diagnostics,
}
use ldndrc.Http.Poll.{poll, poll_node, is_changed}
use ldndrc.Http.Router.{
  Setup, App, Turn, Route, Request, Reply, json, html, method_of, serve, handle,
}
use ldndrc.Http.Router
use ldndrc.Http.Sessions.{post_login, post_session, get_sessions, get_session, delete_session}
use ldndrc.Http.TokenOnce.{delivers}
use ldndrc.Http.Types.{write_json, unauthorized}
use ldndrc.Nodes.Types.{Node, Env, Store, Library, Profile}
use ldndrc.Nodes.Store.{is_approved, register, get, expire_if_elapsed}
use ldndrc.Nodes.Tokens.{Minter}

-- No laptop of the store is approved.
abbrev pub Waiting : Store → Type 0
Waiting s = (id : String) (n : Node) → lookup id s.nodes ≡ some n → is_approved n.status ≡ false

pub Waiting-ApprovedBefore : (s t : Store) → ApprovedBefore s t → Waiting s → Waiting t
Waiting-ApprovedBefore s t before waiting id n found = elim (Bool-cases (is_approved n.status)) [
  | inr no_ ↦ no_
  | inl yes_ ↦
      let (m, there, good) = before id n found yes_ in
      absurd (ground (arith, waiting id m there, good))
]

post_login-bare :
    (keys : Auth.Keys) (ttl now : ℕ) (body : Option (String × String))
    → delivers (post_login keys ttl now body) ≡ false
unfolding post_login write_json
post_login-bare keys ttl now none = refl
post_login-bare keys ttl now (some (u, password)) =
    elim (Bool-cases (str_eq u "" || str_eq password "")) [
      | inl part ↦ ground (arith, part)
      | inr full ↦ ground (arith, full, Result-cases (issue keys ttl now u))
    ]

register_node-bare :
    (lib : Library) (settings : Settings) (env later : Env) (p : Profile) (s : Store)
    → settings.auto_approve ≡ false
    → delivers (register_node lib settings env later p s).0 ≡ false
unfolding register_node write_json register_response
register_node-bare lib settings env later p s manual =
    elim (Result-cases (register lib env p s).0) [
      | inl ((n, created), e) ↦ ground (arith, e, manual)
      | inr (e, failed) ↦ ground (arith, failed)
    ]

post_register-bare :
    (lib : Library) (settings : Settings) (env later : Env) (now : ℕ) (ip : String)
    (body : Option Registration) (l : Limiter) (s : Store)
    → settings.auto_approve ≡ false
    → delivers (post_register lib settings env later now ip body l s).0 ≡ false
unfolding post_register write_json
post_register-bare lib settings env later now ip none l s manual = refl
post_register-bare lib settings env later now ip (some req) l s manual =
    elim (Bool-cases
      (not (str_eq settings.join_key "") && not (str_eq req.join_key settings.join_key))) [
        | inl bad ↦ rw bad refl
        | inr good ↦ elim (Bool-cases (allow now ip l).0) [
          | inr many ↦ rw (good, many) refl
          | inl few ↦
              rw (good, few) (register_node-bare lib settings env later req.profile s manual)
        ]
      ]

poll-bare :
    {W : Type 0} (m : Option (Minter W)) (url : String) (env later : Env) (now : ℕ) (id : String)
    (s : Store) (w : W)
    → Waiting s
    → delivers (poll m url env later now id s w).0 ≡ false
unfolding poll get poll_node write_json
poll-bare m url env later now id s w waiting = elim (Option-cases (lookup id s.nodes)) [
  | inl gone ↦ ground (arith, gone)
  | inr (n, found) ↦ ground (
    arith,
    found,
    waiting id n found,
    Bool-cases (is_changed (expire_if_elapsed env n.id now s).0),
  )
]

post_diagnostics-bare :
    (id : String) (write : Option String) (s : Store)
    → delivers (post_diagnostics id write s) ≡ false
unfolding post_diagnostics write_json
post_diagnostics-bare id write s = ground (arith, Option-cases (save_diagnostics id write s))

-- A reply that carries a bootstrap token
abbrev pub is_delivery : Reply → Bool
is_delivery (json r) = delivers r
is_delivery (html page) = false

module _ {W : Type 0} (setup : Setup W) (turn : Turn) where
  serve-bare :
      (route : Route) (app : App W)
      → setup.settings.auto_approve ≡ false
      → Waiting app.nodes
      → is_delivery (serve setup turn route none app).0 ≡ false
  unfolding serve post_session get_sessions get_session delete_session post_approve post_deny
      get_nodes unauthorized write_json
  serve-bare (Router.register_node ip body) app manual waiting =
      post_register-bare setup.lib setup.settings turn.node_env turn.node_later turn.now ip body
        app.limiter app.nodes manual
  serve-bare (Router.poll_node id) app manual waiting =
      poll-bare setup.minter setup.settings.join_url turn.node_env turn.node_later turn.now id
        app.nodes app.cluster waiting
  serve-bare (Router.log_in body) app manual waiting =
      post_login-bare setup.keys setup.ttl turn.now body
  serve-bare (Router.upload id) app manual waiting = post_diagnostics-bare id turn.write app.nodes
  serve-bare Router.health_check app manual waiting = refl
  serve-bare (Router.page path) app manual waiting = refl
  serve-bare Router.create_session app manual waiting = refl
  serve-bare Router.list_sessions app manual waiting = refl
  serve-bare (Router.show_session id) app manual waiting = refl
  serve-bare (Router.end_session id) app manual waiting = refl
  serve-bare Router.list_nodes app manual waiting = refl
  serve-bare (Router.approve_node id) app manual waiting = refl
  serve-bare (Router.deny_node id reason) app manual waiting = refl

  pub handle-bare :
      (req : Request) (app : App W)
      → setup.settings.auto_approve ≡ false
      → bearer_claims setup.keys turn.now req.authorization ≡ none
      → Waiting app.nodes
      → is_delivery (handle setup turn req app).0 ≡ false
  unfolding handle write_json
  handle-bare req app manual stranger waiting =
      elim (Bool-cases (passes_csrf setup.keys (method_of req.route) req.cookie req.csrf)) [
        | inr bad ↦ ground (arith, bad)
        | inl passed ↦ rw (passed, stranger) (serve-bare req.route app manual waiting)
      ]
