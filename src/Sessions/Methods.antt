-- ===== src/Sessions/Methods.antt =====
-- The methods of control-panel/internal/sessions/store.go that call the provisioner outside the
-- lock, and the two that loop over stored sessions.
use ldndrc.Base.{
  ℕ, ◌+◌, String, Bool, true, false, not, Option, none, some, List, [], ◌∷◌, Result, ok, err,
  str_eq, if◌then◌else◌,
}
use ldndrc.Base.Map.{lookup}
use ldndrc.Sessions.Types.{
  Status, provisioning, ready, stopping, stopped, error, Session, Error, not_found, forbidden,
  provision, readiness, delete_failed, Store, Env, Provisioner,
}
use ldndrc.Sessions.Domain.{is_active}
use ldndrc.Sessions.Store.{session_or_zero, create_locked, set_status}

abbrev pub is_provisioning : Status → Bool
is_provisioning provisioning = true
is_provisioning _ = false

abbrev pub is_stopped : Status → Bool
is_stopped stopped = true
is_stopped _ = false

-- List
unfoldable pub list_sessions : String → Store → List Session
list_sessions u s = elim (lookup u s.by_user) [
  | none ↦ []
  | some id ↦ session_or_zero (lookup id s.sessions) ∷ []
]

-- The last test of Current: a stopped or failed session counts as none.
abbrev pub current_result : Result Error Session → Result Error Session
current_result (err e) = err e
current_result (ok x) = if is_active x.status then ok x else err not_found

-- What a call returns, the store and the cluster that it leaves.
abbrev pub Reply : Type 0 → Type 0
Reply W = Result Error Session × Store × W

module _ {W : Type 0} where
  -- Create after s.mu.Unlock(): the provisioner's Apply, and the error status when it fails.
  unfoldable pub provision_session : Option (Provisioner W) → Env → Session → Store → W → Reply W
  provision_session none env x s w = (ok x, s, w)
  provision_session (some p) env x s w =
      let (failed, w') = p.apply x w in
      elim failed [
        | none ↦ (ok x, s, w')
        | some e ↦ (err (provision e), (set_status env x.username x.id error e s).1, w')
      ]

  -- Create, whose two locked sections have environments of their own.
  unfoldable pub create : Option (Provisioner W) → Env → Env → String → Store → W → Reply W
  create p env later u s w =
      let (r, s') = create_locked env u s in
      elim r [ ok x ↦ provision_session p later x s' w | err e ↦ (err e, s', w) ]

  -- provisioner.(StatusProvider)
  abbrev pub status_provider :
      Option (Provisioner W) → Option (Session → W → Result String Bool × W)
  status_provider none = none
  status_provider (some p) = p.ready

  -- The readiness probe that Get and Current share: a session that turned ready is written back.
  unfoldable pub probe :
      Option (Provisioner W) → Env → String → String → Session → Store → W → Reply W
  probe p env u id x s w = elim (status_provider p) [
    | none ↦ (ok x, s, w)
    | some ask ↦
        if is_provisioning x.status
        then (let (answer, w') = ask x w in
            elim answer [
              | err e ↦ (err (readiness e), s, w')
              | ok up ↦
                  if up
                  then (let (r, s') = set_status env u id ready "" s in (r, s', w'))
                  else (ok x, s, w')
            ])
        else (ok x, s, w)
  ]

  -- Get
  unfoldable pub get : Option (Provisioner W) → Env → String → String → Store → W → Reply W
  get p env u id s w = elim (lookup id s.sessions) [
    | none ↦ (err not_found, s, w)
    | some x ↦ if not (str_eq x.username u) then (err forbidden, s, w) else probe p env u id x s w
  ]

  -- Current
  unfoldable pub current : Option (Provisioner W) → Env → String → Store → W → Reply W
  current p env u s w = elim (lookup u s.by_user) [
    | none ↦ (err not_found, s, w)
    | some id ↦
        let (r, s', w') = probe p env u id (session_or_zero (lookup id s.sessions)) s w in
        (current_result r, s', w')
  ]

  -- Delete after its call of Get
  unfoldable pub delete_found :
      Option (Provisioner W) → Env → String → String → Session → Store → W → Reply W
  delete_found p env u id x s w = if is_stopped x.status then (ok x, s, w) else elim p [
    | none ↦ (let (r, s') = set_status env u id stopped "" s in (r, s', w))
    | some pr ↦
        let (failed, w') = pr.delete x w in
        elim failed [
          | some e ↦ (err (delete_failed e), s, w')
          | none ↦ (let (r, s') = set_status env u id stopped "" s in (r, s', w'))
        ]
  ]

  -- Delete, with one environment for Get's locked section and one for its own.
  unfoldable pub delete : Option (Provisioner W) → Env → Env → String → String → Store → W → Reply W
  delete p env later u id s w =
      let (r, s', w') = get p env u id s w in
      elim r [ ok x ↦ delete_found p later u id x s' w' | err e ↦ (err e, s', w') ]

-- The statuses that Reconcile compares against live workloads
abbrev pub is_live : Status → Bool
is_live provisioning = true
is_live ready = true
is_live stopping = true
is_live _ = false

-- The first loop of Reconcile, over the sessions in the order in which they are visited.
unfoldable pub live_sessions : List (String × Session) → List Session
live_sessions [] = []
live_sessions ((k, x) ∷ m) =
    let rest = live_sessions m in if is_live x.status then x ∷ rest else rest

abbrev pub is_ok {ℓ κ} : {E : Type ℓ} {A : Type κ} → Result E A → ℕ
is_ok (ok a) = 1
is_ok (err e) = 0

-- The second loop of Reconcile: `found` is `exists`, and the environments are those of its writes.
unfoldable pub reconcile_loop :
    (Session → Bool) → (Session → Env) → List Session → ℕ → ℕ → Store → ℕ × ℕ × Store
reconcile_loop found env [] adopted tombstoned s = (adopted, tombstoned, s)
reconcile_loop found env (x ∷ xs) adopted tombstoned s = elim (found x) [
  | true ↦ reconcile_loop found env xs (adopted + 1) tombstoned s
  | false ↦
      let (r, s') = set_status (env x) x.username x.id stopped "workload gone at restart" s in
      reconcile_loop found env xs adopted (tombstoned + is_ok r) s'
]

-- Reconcile, when its loop visits the sessions in the order `visited`.
unfoldable pub reconcile :
    List (String × Session) → (Session → Bool) → (Session → Env) → Store → ℕ × ℕ × Store
unfolding live_sessions reconcile_loop
reconcile visited found env s = reconcile_loop found env (live_sessions visited) 0 0 s
