-- ===== src/Sessions/Sections.antt =====
-- The store as a shared object. A method of the store is a row of locked sections, between which
-- other requests run; a step is one locked section that writes, so every interleaving of calls of
-- Create, Get, Current, SetStatus, Delete and Reconcile is a row of steps.
use ldndrc.Base.{◌≡◌, sym, subst, inl, inr, String, none, [], ok}
use ldndrc.Base.Map.{lookup}
use ldndrc.Sessions.Types.{Status, Session, File, absent, Store, Env}
use ldndrc.Sessions.Domain.{Allocates, next_domain_id-Allocates}
use ldndrc.Sessions.Store.{new_id, new_session, create_locked, set_status}
use ldndrc.Sessions.Load.{new_store}
use ldndrc.Sessions.Invariant.{IsWellFormed, put-IsWellFormed, added-IsWellFormed}
use ldndrc.Sessions.Create.{create_locked_cases, insert_session_cases, idle_of_has_active}
use ldndrc.Sessions.Status.{set_status_cases, restatus-Retires}

-- The six random bytes of a new session are not the ID of a session that the store holds.
abbrev pub IsFresh : Env → Store → Type 0
IsFresh env s = (id : String) → new_id env.random ≡ ok id → lookup id s.sessions ≡ none

pub data Step (s t : Store) : Type 0 where
  creates : (env : Env) (u : String) → IsFresh env s → t ≡ (create_locked env u s).1 → Step s t
  sets :
      (env : Env) (u id : String) (status : Status) (m : String)
      → t ≡ (set_status env u id status m s).1
      → Step s t

pub data Reach (s : Store) : Store → Type 0 where
  here : Reach s s
  next : {t u : Store} → Reach s t → Step t u → Reach s u

file-IsWellFormed : (s : Store) (f : File) → IsWellFormed s → IsWellFormed (record s { file = f })
file-IsWellFormed s f wf = record {
  unique = wf.unique;
  keyed = wf.keyed;
  ranged = wf.ranged;
  isolated = wf.isolated;
  owned = wf.owned;
  entry = wf.entry;
}

pub create_locked-IsWellFormed :
    (env : Env) (u : String) (s : Store)
    → IsFresh env s
    → IsWellFormed s
    → IsWellFormed (create_locked env u s).1
unfolding new_session
create_locked-IsWellFormed env u s fresh wf = elim (create_locked_cases env u s) [
  | inl (e, refused) ↦ rw refused wf
  | inr (id, d, idle, random, allocated, inserts) ↦
      let x : Session = new_session env u id d in
      let spot : Allocates s.sessions (ok d) =
        subst (Allocates s.sessions) allocated (next_domain_id-Allocates s.sessions wf.unique) in
      elim (insert_session_cases env x s (fresh id random)) [
        | inr (m, f, e) ↦ rw (inserts, e) (file-IsWellFormed s f wf)
        | inl (f, e) ↦
            rw (inserts, e)
              (added-IsWellFormed s x f wf (fresh id random)
                (λ i y h same. idle_of_has_active s u i y wf idle h same) spot.2 (spot.0, spot.1))
      ]
]

pub set_status-IsWellFormed :
    (env : Env) (u id : String) (status : Status) (m : String) (s : Store)
    → IsWellFormed s
    → IsWellFormed (set_status env u id status m s).1
set_status-IsWellFormed env u id status m s wf = elim (set_status_cases env u id status m s) [
  | inl (e, refused) ↦ rw refused wf
  | inr (x, f, w) ↦
      subst IsWellFormed (sym w.store)
        (put-IsWellFormed s id x _ f w.found (restatus-Retires env status m x w.valid) wf)
]

Step-IsWellFormed : {s t : Store} → Step s t → IsWellFormed s → IsWellFormed t
Step-IsWellFormed {s} (creates env u fresh e) wf =
    subst IsWellFormed (sym e) (create_locked-IsWellFormed env u s fresh wf)
Step-IsWellFormed {s} (sets env u id status m e) wf =
    subst IsWellFormed (sym e) (set_status-IsWellFormed env u id status m s wf)

-- Every interleaving of locked sections keeps the store well formed: domain IDs of active sessions
-- are in 100 .. 232 and pairwise different, and byUser names each user's active session.
pub Reach-IsWellFormed : {s t : Store} → IsWellFormed s → Reach s t → IsWellFormed t
Reach-IsWellFormed wf here = wf
Reach-IsWellFormed wf (next r st) = Step-IsWellFormed st (Reach-IsWellFormed wf r)

pub Reach-trans : {s t u : Store} → Reach s t → Reach t u → Reach s u
Reach-trans r here = r
Reach-trans r (next q st) = next (Reach-trans r q) st

pub empty-IsWellFormed :
    (path : String) (f : File)
    → IsWellFormed (record { path = path; sessions = []; by_user = []; file = f })
unfolding lookup
empty-IsWellFormed path f = record {
  unique = tt;
  keyed = λ i x h. absurd (cc);
  ranged = λ i x h. cc;
  isolated = λ i j x y h. cc;
  owned = λ i x h. cc;
  entry = λ u i h. absurd (cc);
}

pub new_store-IsWellFormed : IsWellFormed new_store
unfolding new_store
new_store-IsWellFormed = empty-IsWellFormed "" absent
