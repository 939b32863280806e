-- ===== src/Sessions/Calls.antt =====
-- Each method of the store is a row of locked sections, whatever the provisioner answers.
use ldndrc.Base.{ℕ, refl, inl, inr, String, Bool, Option, List, [], ◌∷◌, Bool-cases}
use ldndrc.Sessions.Types.{Status, stopped, Session, Store, Env, Provisioner}
use ldndrc.Sessions.Store.{set_status}
use ldndrc.Sessions.Methods.{create, get, current, delete, reconcile_loop, reconcile, live_sessions}
use ldndrc.Sessions.Walk.{create-follows, get-follows, current-follows, delete-follows}
use ldndrc.Sessions.Sections.{IsFresh, Reach, creates, sets, here, next, Reach-trans}

set_status-Reach :
    (env : Env) (u id : String) (status : Status) (m : String) (s : Store)
    → Reach s (set_status env u id status m s).1
set_status-Reach env u id status m s = next here (sets env u id status m refl)

reconcile_loop-Reach :
    (found : Session → Bool) (env : Session → Env) (xs : List Session) (a t : ℕ) (s : Store)
    → Reach s (reconcile_loop found env xs a t s).2
unfolding reconcile_loop
reconcile_loop-Reach found env [] a t s = here
reconcile_loop-Reach found env (x ∷ xs) a t s = elim (Bool-cases (found x)) [
  | inl there ↦ rw (there, reconcile_loop) (reconcile_loop-Reach found env xs _ t s)
  | inr gone ↦
      let r = set_status (env x) x.username x.id stopped "workload gone at restart" s in
      rw (gone, reconcile_loop)
        (Reach-trans (set_status-Reach (env x) x.username x.id stopped _ s)
          (reconcile_loop-Reach found env xs a _ r.1))
]

pub reconcile-Reach :
    (visited : List (String × Session)) (found : Session → Bool) (envs : Session → Env) (s : Store)
    → Reach s (reconcile visited found envs s).2
unfolding reconcile
reconcile-Reach visited found envs s = reconcile_loop-Reach found envs (live_sessions visited) 0 0 s

-- Whatever the clock, crypto/rand, the disk and the provisioner answer, each call of Create (with a
-- fresh ID), Get, Current, Delete or Reconcile leaves a store that locked sections reach.
pub calls-Reach :
    {W : Type 0} (p : Option (Provisioner W)) (env later : Env) (u id : String) (s : Store) (w : W)
    (visited : List (String × Session)) (found : Session → Bool) (envs : Session → Env)
    → (IsFresh env s → Reach s (create p env later u s w).1)
      × Reach s (get p env u id s w).1
      × Reach s (current p env u s w).1
      × Reach s (delete p env later u id s w).1
      × Reach s (reconcile visited found envs s).2
calls-Reach p env later u id s w visited found envs =
    let chain = λ (s t v : Store) (r : Reach s t) (q : Reach t v). Reach-trans r q in
    let creates =
      λ (e : Env) (t : Store) (fresh : IsFresh e t). next here (creates e u fresh refl) in
    let sets = λ (e : Env) (i : String) (status : Status) (m : String) (t : Store).
      set_status-Reach e u i status m t in
    (
      create-follows p u Reach (λ t. here) chain creates sets env later s w,
      get-follows p u Reach (λ t. here) chain creates sets env id s w,
      current-follows p u Reach (λ t. here) chain creates sets env s w,
      delete-follows p u Reach (λ t. here) chain creates sets env later id s w,
      reconcile-Reach visited found envs s,
    )
