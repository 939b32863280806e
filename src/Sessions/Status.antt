-- ===== src/Sessions/Status.antt =====
-- setStatus: the transition relation and what a call leaves behind on every branch.
use ldndrc.Base.{
  ◌≡◌, refl, sym, ap, ◌∙◌, ◌⊎◌, inl, inr, String, true, some, Result, ok, err, arith, str_eq,
  eq_iff, Bool-cases, Option-cases,
}
use ldndrc.Base.Map.{lookup, put, lookup-put_self}
use ldndrc.Sessions.Types.{
  Status, Session, Error, not_found, forbidden, invalid_status, persist, File, Store, Env,
}
use ldndrc.Sessions.Domain.{is_active}
use ldndrc.Sessions.Store.{valid_transition, save_status, set_status}
use ldndrc.Sessions.Create.{save_locked_cases}
use ldndrc.Sessions.Invariant.{Retires}

-- The session that setStatus writes.
abbrev pub restatus : Env → Status → String → Session → Session
restatus env status m x = record x { status = status; message = m; updated_at = env.now }

abbrev pub with_status : String → Session → File → Store → Store
with_status id x f s = record s { sessions = put id x s.sessions; file = f }

-- No transition leads out of a stopped, failed or unknown status, nor into an active one from it.
pub valid_transition-active :
    (from to : Status) → valid_transition from to ≡ true → is_active from ≡ true
unfolding valid_transition
valid_transition-active from to h = ground arith

-- A save of a status changes that session and the file, also where it fails.
save_status_cases :
    (env : Env) (id : String) (x : Session) (s : Store)
    → ((f : File) × (save_status env id x s ≡ (ok x, with_status id x f s)))
      ⊎ ((e : String) × (f : File) × (save_status env id x s
            ≡ (err (persist e), with_status id x f s)))
unfolding save_status
save_status_cases env id x s = elim (save_locked_cases env (with_status id x s.file s)) [
  | inl (f, e) ↦ inl (f, ground arith)
  | inr (m, f, e) ↦ inr (m, f, ground arith)
]

-- What setStatus found when it wrote: the caller's session, in a status with a valid transition.
pub record Wrote (env : Env) (u id : String) (status : Status) (m : String) (s : Store)
    (r : Result Error Session × Store) (x : Session) (f : File) : Type 0 where
  pub found : lookup id s.sessions ≡ some x
  pub user : x.username ≡ u
  pub valid : valid_transition x.status status ≡ true
  pub store : r.1 ≡ with_status id (restatus env status m x) f s
  pub answer : (y : Session) → r.0 ≡ ok y → y ≡ restatus env status m x

-- setStatus answers an error and leaves the store alone, or it writes the new status.
pub set_status_cases :
    (env : Env) (u id : String) (status : Status) (m : String) (s : Store)
    → ((e : Error) × (set_status env u id status m s ≡ (err e, s)))
      ⊎ ((x : Session) × (f : File) × Wrote env u id status m s
            (set_status env u id status m s)
            x
            f)
unfolding set_status
set_status_cases env u id status m s = elim (Option-cases (lookup id s.sessions)) [
  | inl none' ↦ inl (not_found, ground arith)
  | inr (x, found) ↦ elim (Bool-cases (str_eq x.username u)) [
    | inr other ↦ inl (forbidden, ground arith)
    | inl mine ↦ elim (Bool-cases (valid_transition x.status status)) [
      | inr bad ↦ inl (invalid_status x.status status, ground arith)
      | inl good ↦ elim (save_status_cases env id (restatus env status m x) s) [
        | inl (f, e) ↦ inr (
          x,
          f,
          record {
            found = found;
            user = (eq_iff x.username u).0 mine;
            valid = good;
            store = ground arith;
            answer = λ y h. ground arith;
          },
        )
        | inr (w, f, e) ↦ inr (
          x,
          f,
          record {
            found = found;
            user = (eq_iff x.username u).0 mine;
            valid = good;
            store = ground arith;
            answer = λ y h. ground arith;
          },
        )
      ]
    ]
  ]
]

-- After a successful call the store holds the answered session, in the new status.
pub set_status-ok :
    (env : Env) (u id : String) (status : Status) (m : String) (s : Store) (y : Session)
    → (set_status env u id status m s).0 ≡ ok y
    → (lookup id (set_status env u id status m s).1.sessions ≡ some y)
      × (y.username ≡ u)
      × (y.status ≡ status)
set_status-ok env u id status m s y h = elim (set_status_cases env u id status m s) [
  | inl (e, refused) ↦ absurd (ground arith)
  | inr (x, f, w) ↦
      let e = w.answer y h in
      (rw w.store (lookup-put_self id _ s.sessions ∙ ap some (sym e)), rw e w.user, rw e)
]

pub restatus-Retires :
    (env : Env) (status : Status) (m : String) (x : Session)
    → valid_transition x.status status ≡ true
    → Retires (restatus env status m x) x
restatus-Retires env status m x h = record {
  same_id = refl;
  same_user = refl;
  same_domain = refl;
  still_active = λ a. valid_transition-active x.status status h;
}

-- A valid transition by the owner is written, also where it cannot be saved.
pub set_status-found :
    (env : Env) (u id : String) (status : Status) (m : String) (x : Session) (s : Store)
    → lookup id s.sessions ≡ some x
    → x.username ≡ u
    → valid_transition x.status status ≡ true
    → (f : File) × ((set_status env u id status m s).1
        ≡ with_status id (restatus env status m x) f s)
unfolding set_status
set_status-found env u id status m x s found mine valid =
    elim (save_status_cases env id (restatus env status m x) s) [
      | inl (f, e) ↦ (f, ground (arith, eq_iff x.username u))
      | inr (w, f, e) ↦ (f, ground (arith, eq_iff x.username u))
    ]
