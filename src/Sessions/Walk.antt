-- ===== src/Sessions/Walk.antt =====
-- The calls of control-panel/internal/sessions/store.go as rows of locked sections of one user: a
-- relation of stores that each section keeps, each call keeps, whatever the provisioner answers.
use ldndrc.Base.{
  ◌≡◌, sym, subst, arith, inl, inr, String, Option, str_eq, Bool-cases, Option-cases, Result-cases,
}
use ldndrc.Base.Map.{lookup}
use ldndrc.Sessions.Types.{Status, ready, stopped, error, Session, Store, Env, Provisioner}
use ldndrc.Sessions.Store.{session_or_zero, create_locked, set_status}
use ldndrc.Sessions.Creation.{create_locked-Created}
use ldndrc.Sessions.Methods.{
  provision_session, create, status_provider, is_provisioning, is_stopped, probe, get, current,
  delete_found, delete,
}
use ldndrc.Sessions.Sections.{IsFresh}

module _ {ℓ} {W : Type 0} (p : Option (Provisioner W)) (u : String)
    (follows : Store → Store → Type ℓ) (stay : (s : Store) → follows s s)
    (chain : (s t v : Store) → follows s t → follows t v → follows s v)
    (creates : (env : Env) (s : Store) → IsFresh env s → follows s (create_locked env u s).1)
    (sets : (env : Env) (id : String) (status : Status) (m : String) (s : Store)
      → follows s (set_status env u id status m s).1) where
  provision_session-follows :
      (env : Env) (x : Session) (s : Store) (w : W)
      → x.username ≡ u
      → follows s (provision_session p env x s w).1
  unfolding provision_session
  provision_session-follows env x s w mine = elim (Option-cases p) [
    | inl e ↦ rw (e, provision_session) (stay s)
    | inr (pr, e) ↦
        rw (e, provision_session)
          (elim (Option-cases (pr.apply x w).0) [
            | inl fine ↦ rw fine (stay s)
            | inr (m, bad) ↦ rw bad (
                subst (λ v. follows s (set_status env v x.id error m s).1) (sym mine)
                  (sets env x.id error m s))
          ])
  ]

  pub create-follows :
      (env later : Env) (s : Store) (w : W) → IsFresh env s → follows s (create p env later u s w).1
  unfolding create
  create-follows env later s w fresh =
      let first : follows s (create_locked env u s).1 = creates env s fresh in
      elim (Result-cases (create_locked env u s).0) [
        | inl (x, e) ↦
            let mine =
              (create_locked-Created env u s (create_locked env u s).1 x fresh
                (ground (arith, e))).user in
            rw (e, create)
              (chain _ _ _ first
                (provision_session-follows later x (create_locked env u s).1 w mine))
        | inr (m, e) ↦ rw (e, create) first
      ]

  probe-follows :
      (env : Env) (id : String) (x : Session) (s : Store) (w : W)
      → follows s (probe p env u id x s w).1
  unfolding probe
  probe-follows env id x s w = elim (Option-cases (status_provider p)) [
    | inl e ↦ rw (e, probe) (stay s)
    | inr (ask, e) ↦
        rw (e, probe)
          (elim (Bool-cases (is_provisioning x.status)) [
            | inr past ↦ rw past (stay s)
            | inl waiting ↦ rw waiting (elim (Result-cases (ask x w).0) [
              | inr (m, bad) ↦ rw bad (stay s)
              | inl (up, good) ↦ rw good (elim (Bool-cases up) [
                | inr down ↦ rw down (stay s)
                | inl up' ↦ rw up' (sets env id ready "" s)
              ])
            ])
          ])
  ]

  pub get-follows : (env : Env) (id : String) (s : Store) (w : W) → follows s (get p env u id s w).1
  unfolding get
  get-follows env id s w = elim (Option-cases (lookup id s.sessions)) [
    | inl e ↦ rw (e, get) (stay s)
    | inr (x, e) ↦
        rw (e, get)
          (elim (Bool-cases (str_eq x.username u)) [
            | inr foreign ↦ rw foreign (stay s)
            | inl mine ↦ rw mine (probe-follows env id x s w)
          ])
  ]

  pub current-follows : (env : Env) (s : Store) (w : W) → follows s (current p env u s w).1
  unfolding current
  current-follows env s w = elim (Option-cases (lookup u s.by_user)) [
    | inl e ↦ rw (e, current) (stay s)
    | inr (id, e) ↦
        rw (e, current) (probe-follows env id (session_or_zero (lookup id s.sessions)) s w)
  ]

  delete_found-follows :
      (env : Env) (id : String) (x : Session) (s : Store) (w : W)
      → follows s (delete_found p env u id x s w).1
  unfolding delete_found
  delete_found-follows env id x s w = elim (Bool-cases (is_stopped x.status)) [
    | inl done ↦ rw done (stay s)
    | inr live ↦ rw live (elim (Option-cases p) [
      | inl e ↦ rw (e, delete_found) (sets env id stopped "" s)
      | inr (pr, e) ↦
          rw (e, delete_found)
            (elim (Option-cases (pr.delete x w).0) [
              | inl fine ↦ rw fine (sets env id stopped "" s)
              | inr (m, bad) ↦ rw bad (stay s)
            ])
    ])
  ]

  pub delete-follows :
      (env later : Env) (id : String) (s : Store) (w : W)
      → follows s (delete p env later u id s w).1
  unfolding delete
  delete-follows env later id s w =
      let r = get p env u id s w in
      let first : follows s r.1 = get-follows env id s w in
      elim (Result-cases r.0) [
        | inl (x, e) ↦ rw (e, delete) (chain _ _ _ first (delete_found-follows later id x r.1 r.2))
        | inr (m, e) ↦ rw (e, delete) first
      ]
