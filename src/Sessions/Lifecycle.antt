-- ===== src/Sessions/Lifecycle.antt =====
-- What every history of locked sections guarantees of the sessions in the store.
use ldndrc.Base.{
  ◌≤◌, ◌≡◌, refl, sym, ap, ◌∙◌, subst, inl, inr, String, true, false, some, arith, str_eq, eq_iff,
  Bool-cases,
}
use ldndrc.Base.Map.{lookup, lookup-put}
use ldndrc.Sessions.Types.{Status, Session, Store, Env}
use ldndrc.Sessions.Domain.{is_active, min_domain, max_domain}
use ldndrc.Sessions.Store.{new_session, create_locked, set_status, valid_transition}
use ldndrc.Sessions.Load.{new_store}
use ldndrc.Sessions.Create.{create_locked_cases, insert_session_cases}
use ldndrc.Sessions.Status.{set_status_cases, restatus, valid_transition-active}
use ldndrc.Sessions.Sections.{
  IsFresh, Step, Reach, creates, sets, here, next, Reach-IsWellFormed, new_store-IsWellFormed,
}

-- In every store that is reached from the empty one by locked sections whose new sessions draw IDs
-- that are not in use, two active sessions of the same user, or with the same ROS domain ID, are the
-- same session, and its domain ID is in 100 .. 232.
pub active_sessions_apart :
    {t : Store} (i j : String) (x y : Session)
    → Reach new_store t
    → lookup i t.sessions ≡ some x
    → lookup j t.sessions ≡ some y
    → is_active x.status ≡ true
    → is_active y.status ≡ true
    → (x.username ≡ y.username → i ≡ j)
      × (x.ros_domain_id ≡ y.ros_domain_id → i ≡ j)
      × (min_domain ≤ x.ros_domain_id)
      × (x.ros_domain_id ≤ max_domain)
active_sessions_apart i j x y r hx hy ax ay =
    let wf = Reach-IsWellFormed new_store-IsWellFormed r in
    (
      λ same. cc (wf.owned i x hx ax, wf.owned j y hy ay),
      wf.isolated i j x y hx hy ax ay,
      (wf.ranged i x hx ax).0,
      (wf.ranged i x hx ax).1,
    )

-- `y` is a later state of the session `x`: what was fixed at creation is unchanged, and an ended
-- session is unchanged altogether.
pub record Follows (x y : Session) : Type 0 where
  pub same_id : y.id ≡ x.id
  pub same_user : y.username ≡ x.username
  pub same_workload : y.workload_name ≡ x.workload_name
  pub same_service : y.service_name ≡ x.service_name
  pub same_domain : y.ros_domain_id ≡ x.ros_domain_id
  pub same_creation : y.created_at ≡ x.created_at
  pub ended : is_active x.status ≡ false → y ≡ x

Follows-refl : (x : Session) → Follows x x
Follows-refl x = record {
  same_id = refl;
  same_user = refl;
  same_workload = refl;
  same_service = refl;
  same_domain = refl;
  same_creation = refl;
  ended = λ e. refl;
}

Follows-trans : {x y z : Session} → Follows x y → Follows y z → Follows x z
Follows-trans p q = record {
  same_id = q.same_id ∙ p.same_id;
  same_user = q.same_user ∙ p.same_user;
  same_workload = q.same_workload ∙ p.same_workload;
  same_service = q.same_service ∙ p.same_service;
  same_domain = q.same_domain ∙ p.same_domain;
  same_creation = q.same_creation ∙ p.same_creation;
  ended = λ e. q.ended (ap (λ (s : Session). is_active s.status) (p.ended e) ∙ e) ∙ p.ended e;
}

-- The session under `id` is still there, in a later state.
abbrev pub Persists : String → Session → Store → Type 0
Persists id x t = (y : Session) × (lookup id t.sessions ≡ some y) × Follows x y

create_locked-Persists :
    (env : Env) (u : String) (s : Store) (id : String) (x : Session)
    → IsFresh env s
    → lookup id s.sessions ≡ some x
    → Persists id x (create_locked env u s).1
unfolding new_session
create_locked-Persists env u s id x fresh h = elim (create_locked_cases env u s) [
  | inl (e, refused) ↦ rw refused (x, h, Follows-refl x)
  | inr (new, d, idle, random, allocated, inserts) ↦
      let z = new_session env u new d in
      elim (insert_session_cases env z s (fresh new random)) [
        | inr (m, f, e) ↦ rw (inserts, e) (x, h, Follows-refl x)
        | inl (f, e) ↦
            rw (inserts, e)
              (
                x,
                ground (arith, lookup-put new id z s.sessions, eq_iff new id, fresh new random),
                Follows-refl x,
              )
      ]
]

restatus-Follows :
    (env : Env) (status : Status) (m : String) (y : Session)
    → valid_transition y.status status ≡ true
    → Follows y (restatus env status m y)
restatus-Follows env status m y v = record {
  same_id = refl;
  same_user = refl;
  same_workload = refl;
  same_service = refl;
  same_domain = refl;
  same_creation = refl;
  ended = λ e. ground (arith, valid_transition-active y.status status v);
}

set_status-Persists :
    (env : Env) (u key : String) (status : Status) (m : String) (s : Store) (id : String)
    (x : Session)
    → lookup id s.sessions ≡ some x
    → Persists id x (set_status env u key status m s).1
set_status-Persists env u key status m s id x h = elim (set_status_cases env u key status m s) [
  | inl (e, refused) ↦ rw refused (x, h, Follows-refl x)
  | inr (y, f, w) ↦ subst (Persists id x) (sym w.store) (elim (Bool-cases (str_eq key id)) [
    | inr miss ↦ (x, rw (lookup-put, miss) h, Follows-refl x)
    | inl hit ↦
        let e : y ≡ x = ground (arith, eq_iff key id, w.found, h) in
        (
          restatus env status m y,
          rw (lookup-put, hit),
          subst (λ (z : Session). Follows z (restatus env status m y)) e
              (restatus-Follows env status m y w.valid),
        )
  ])
]

Step-Persists :
    {s t : Store} (id : String) {x : Session}
    → Step s t
    → lookup id s.sessions ≡ some x
    → Persists id x t
Step-Persists {s} id {x} (creates env u fresh e) h =
    subst (Persists id x) (sym e) (create_locked-Persists env u s id x fresh h)
Step-Persists {s} id {x} (sets env u key status m e) h =
    subst (Persists id x) (sym e) (set_status-Persists env u key status m s id x h)

-- Whatever requests run in between, as long as the new sessions draw IDs that are not in use, a
-- session stays in the store with its owner, workload, service, domain ID and creation time, and a
-- stopped or failed session stays exactly as it is.
pub Reach-Persists :
    {s t : Store} (id : String) (x : Session)
    → lookup id s.sessions ≡ some x
    → Reach s t
    → Persists id x t
Reach-Persists id x h here = (x, h, Follows-refl x)
Reach-Persists id x h (next r st) =
    let (y, there, p) = Reach-Persists id x h r in
    let (z, now, q) = Step-Persists id st there in (z, now, Follows-trans p q)
