-- ===== src/Sessions/Creation.antt =====
-- What Create answers, and what a failed Create leaves behind.
use ldndrc.Base.{
  ◌≡◌, ◌≢◌, ◌⊎◌, sym, ap, ◌∙◌, subst, Bool-cases, if◌then◌else◌, refl, inl, inr, String, true,
  false, some, ok, err, arith, eq_iff,
}
use ldndrc.Base.Map.{lookup, lookup-put_self}
use ldndrc.Sessions.Types.{
  Status, provisioning, error, Session, Error, session_exists, provision, File, Store, Env,
  Provisioner,
}
use ldndrc.Sessions.Store.{has_active, new_session, create_locked, set_status, valid_transition}
use ldndrc.Sessions.Methods.{is_live, provision_session, create}
use ldndrc.Sessions.Create.{insert_session_cases, create_locked_cases}
use ldndrc.Sessions.Status.{set_status-found, set_status_cases, restatus, with_status}
use ldndrc.Sessions.Domain.{is_active}
use ldndrc.Sessions.Invariant.{IsWellFormed}
use ldndrc.Sessions.Lifecycle.{Follows, Reach-Persists}
use ldndrc.Sessions.Sections.{IsFresh, Reach, Reach-IsWellFormed, create_locked-IsWellFormed}

-- What a successful locked section of Create has done.
pub record Created (env : Env) (u : String) (s : Store) (x : Session) (t : Store) : Type 0 where
  pub user : x.username ≡ u
  pub starting : x.status ≡ provisioning
  pub stored : lookup x.id t.sessions ≡ some x
  pub indexed : lookup u t.by_user ≡ some x.id

pub create_locked-Created :
    (env : Env) (u : String) (s t : Store) (x : Session)
    → IsFresh env s
    → create_locked env u s ≡ (ok x, t)
    → Created env u s x t
unfolding new_session
create_locked-Created env u s t x fresh h = elim (create_locked_cases env u s) [
  | inl (e, refused) ↦ absurd (ground arith)
  | inr (id, d, idle, random, allocated, inserts) ↦
      let z : Session = new_session env u id d in
      elim (insert_session_cases env z s (fresh id random)) [
        | inr (m, f, e) ↦ absurd (ground arith)
        | inl (f, e) ↦ record {
          user = ground arith;
          starting = ground arith;
          stored = ground (arith, lookup-put_self z.id z s.sessions);
          indexed = ground (arith, lookup-put_self u z.id s.by_user);
        }
      ]
]

-- After a successful Create every further Create of the same user is refused, and changes nothing.
create_again_refused :
    (env env' : Env) (u : String) (s t : Store) (x : Session)
    → IsFresh env s
    → create_locked env u s ≡ (ok x, t)
    → u ≢ ""
    → create_locked env' u t ≡ (err session_exists, t)
unfolding create_locked has_active
create_again_refused env env' u s t x fresh h named =
    let c = create_locked-Created env u s t x fresh h in
    ground (arith, c.stored, c.indexed, c.starting, eq_iff u "")

-- Whatever makes the locked section of Create fail, a bad name, an active session, crypto/rand, no
-- free domain ID or the disk, the sessions and the index of users are as they were before, if the
-- random bytes are not the ID of a stored session.
pub create_locked-err :
    (env : Env) (u : String) (s : Store) (e : Error)
    → IsFresh env s
    → (create_locked env u s).0 ≡ err e
    → ((create_locked env u s).1.sessions ≡ s.sessions)
      × ((create_locked env u s).1.by_user ≡ s.by_user)
unfolding new_session
create_locked-err env u s e fresh h = elim (create_locked_cases env u s) [
  | inl (e', refused) ↦ (ground arith, ground arith)
  | inr (id, d, idle, random, allocated, inserts) ↦
      elim (insert_session_cases env (new_session env u id d) s (fresh id random)) [
        | inr (m, f, e') ↦ (ground arith, ground arith)
        | inl (f, e') ↦ absurd (ground arith)
      ]
]

-- A failed session under the entry of its user leaves the user without an active session.
idle_after_failure :
    (id u : String) (x : Session) (f : File) (t : Store)
    → lookup u t.by_user ≡ some id
    → x.status ≡ error
    → has_active (with_status id x f t) u ≡ false
unfolding has_active
idle_after_failure id u x f t e failed = ground (arith, lookup-put_self id x t.sessions)

is_live-error :
    (status : Status)
    → is_live status ≡ true
    → (valid_transition status error ≡ true) × (is_active status ≡ true)
unfolding valid_transition
is_live-error status h = (ground (arith, h), ground (arith, h))

ended-error : (status : Status) → is_live status ≡ false → valid_transition status error ≡ false
unfolding valid_transition
ended-error status h = ground (arith, h)

-- What is left of the session `x` of the user `u` when its Apply has failed: in the store `t'`, which
-- other requests have made meanwhile, it was a later state of itself, and unless that was stopped or
-- failed already it has the status error and the message, and the user has no active session.
pub record GivenUp (later : Env) (u m : String) (x : Session) (t' t'' : Store) : Type 0 where
  pub session : Session
  pub found : lookup x.id t'.sessions ≡ some session
  pub follows : Follows x session
  pub stored :
      lookup x.id t''.sessions
      ≡ some (if is_live session.status then restatus later error m session else session)
  pub idle : (is_live session.status ≡ false) ⊎ (has_active t'' u ≡ false)

failed-GivenUp :
    (later : Env) (m : String) (x z : Session) (t' : Store)
    → IsWellFormed t'
    → lookup x.id t'.sessions ≡ some z
    → Follows x z
    → GivenUp later x.username m x t' (set_status later x.username x.id error m t').1
failed-GivenUp later m x z t' wf found follows = elim (Bool-cases (is_live z.status)) [
  | inl live ↦
      let (f, e) =
        set_status-found later x.username x.id error m z t' found follows.same_user
          (is_live-error z.status live).0 in
      let failed : Session = restatus later error m z in
      let owned = wf.owned x.id z found (is_live-error z.status live).1 in
      let entry = ap (λ u. lookup u t'.by_user) (sym follows.same_user) ∙ owned in
      record {
        session = z;
        found = found;
        follows = follows;
        stored = rw (e, live) (lookup-put_self x.id failed t'.sessions);
        idle = inr (rw e (idle_after_failure x.id x.username failed f t' entry refl));
      }
  | inr over ↦ elim (set_status_cases later x.username x.id error m t') [
    | inl (e, refused) ↦ record {
      session = z;
      found = found;
      follows = follows;
      stored = rw (refused, over) found;
      idle = inl over;
    }
    | inr (y, f, wrote) ↦
        let same : y ≡ z = cc (wrote.found, found) in
        let never : valid_transition y.status error ≡ false =
          ap (λ (k : Session). valid_transition k.status error) same ∙ ended-error z.status over in
        absurd (ground (arith, wrote.valid, never))
  ]
]

-- When the provisioner refuses a new session, whatever locked sections of other requests run between
-- the two of Create, Create answers the provisioner's error and the session is still in the store:
-- with the status error and the message, whether or not that can be saved, and with no active
-- session of its user, so that Create may be called again; or as it was, if one of those requests
-- has stopped or failed it. The store is well formed before, and the IDs that are drawn are unused.
pub create_provision_failed :
    {W : Type 0} (p : Provisioner W) (env later : Env) (u : String) (s t t' : Store) (x : Session)
    (m : String) (w : W)
    → IsWellFormed s
    → IsFresh env s
    → create_locked env u s ≡ (ok x, t)
    → Reach t t'
    → (p.apply x w).0 ≡ some m
    → let r = provision_session (some p) later x t' w in
      (create (some p) env later u s w ≡ provision_session (some p) later x t w)
      × (r.0 ≡ err (provision m))
      × (r.2 ≡ (p.apply x w).1)
      × GivenUp later u m x t' r.1
unfolding create provision_session
create_provision_failed p env later u s t t' x m w wf fresh h reach bad =
    let c = create_locked-Created env u s t x fresh h in
    let created : IsWellFormed t =
      subst IsWellFormed (ap (λ r. r.1) h) (create_locked-IsWellFormed env u s fresh wf) in
    let (z, found, follows) = Reach-Persists x.id x c.stored reach in
    let left = failed-GivenUp later m x z t' (Reach-IsWellFormed created reach) found follows in
    (
      ground (arith, h),
      ground arith,
      ground arith,
      rw (bad, provision_session)
          (subst (λ v. GivenUp later v m x t' (set_status later x.username x.id error m t').1)
            c.user left),
    )
