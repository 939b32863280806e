-- ===== src/Sessions/Answers.antt =====
-- What Get, Current and Delete answer, and to whom.
use ldndrc.Base.{
  ◌≡◌, ◌≢◌, inl, inr, String, true, false, Option, none, some, ok, err, arith, str_eq, eq_iff,
  Option-cases, Result-cases,
}
use ldndrc.Base.Map.{lookup}
use ldndrc.Sessions.Types.{
  Status, ready, stopped, error, Session, forbidden, invalid_status, Store, Env, Provisioner,
}
use ldndrc.Sessions.Domain.{is_active}
use ldndrc.Sessions.Store.{valid_transition, set_status}
use ldndrc.Sessions.Methods.{probe, get, current, delete_found, delete}
use ldndrc.Sessions.Invariant.{IsWellFormed}
use ldndrc.Sessions.Status.{set_status-ok}

module _ {W : Type 0} (p : Option (Provisioner W)) where
  -- A session of another user is refused by Get, Delete and SetStatus, which change nothing and do
  -- not call the provisioner.
  foreign_session_refused :
      (env later : Env) (u id : String) (status : Status) (m : String) (x : Session) (s : Store)
      (w : W)
      → lookup id s.sessions ≡ some x
      → x.username ≢ u
      → (get p env u id s w ≡ (err forbidden, s, w))
        × (delete p env later u id s w ≡ (err forbidden, s, w))
        × (set_status env u id status m s ≡ (err forbidden, s))
  unfolding get delete set_status
  foreign_session_refused env later u id status m x s w found foreign =
      let e : str_eq x.username u ≡ false = ground (arith, eq_iff x.username u) in
      (ground arith, ground arith, ground arith)

  -- The probe answers a session that the store then holds.
  pub probe-ok :
      (env : Env) (u id : String) (x y : Session) (s : Store) (w : W)
      → lookup id s.sessions ≡ some x
      → x.username ≡ u
      → (probe p env u id x s w).0 ≡ ok y
      → (lookup id (probe p env u id x s w).1.sessions ≡ some y) × (y.username ≡ u)
  unfolding probe
  probe-ok env u id x y s w found mine h = ground (arith, set_status-ok env u id ready "" s y)

  pub get-ok :
      (env : Env) (u id : String) (y : Session) (s : Store) (w : W)
      → (get p env u id s w).0 ≡ ok y
      → (lookup id (get p env u id s w).1.sessions ≡ some y) × (y.username ≡ u)
  unfolding get
  get-ok env u id y s w h = elim (Option-cases (lookup id s.sessions)) [
    | inl e ↦ absurd (ground arith)
    | inr (x, e) ↦ ground (arith, eq_iff x.username u, probe-ok env u id x y s w e)
  ]

  -- In a well-formed store, what Current answers is an active session of the user that asks.
  current_own :
      (env : Env) (u : String) (y : Session) (s : Store) (w : W)
      → IsWellFormed s
      → (current p env u s w).0 ≡ ok y
      → (y.username ≡ u) × (is_active y.status ≡ true)
  unfolding current
  current_own env u y s w wf h = elim (Option-cases (lookup u s.by_user)) [
    | inl e ↦ absurd (ground arith)
    | inr (id, e) ↦
        let (x, found, mine) = wf.entry u id e in
        ground (arith, probe-ok env u id x y s w found mine)
  ]

  delete_found-ok :
      (env : Env) (u id : String) (x y : Session) (s : Store) (w : W)
      → lookup id s.sessions ≡ some x
      → x.username ≡ u
      → (delete_found p env u id x s w).0 ≡ ok y
      → (lookup id (delete_found p env u id x s w).1.sessions ≡ some y)
        × (y.username ≡ u)
        × (y.status ≡ stopped)
  unfolding delete_found
  delete_found-ok env u id x y s w found mine h =
      ground (arith, set_status-ok env u id stopped "" s y)

  pub delete-ok :
      (env later : Env) (u id : String) (y : Session) (s : Store) (w : W)
      → (delete p env later u id s w).0 ≡ ok y
      → (lookup id (delete p env later u id s w).1.sessions ≡ some y)
        × (y.username ≡ u)
        × (y.status ≡ stopped)
  unfolding delete
  delete-ok env later u id y s w h = elim (Result-cases (get p env u id s w).0) [
    | inr (m, e) ↦ absurd (ground arith)
    | inl (x, e) ↦
        let r = get p env u id s w in
        let (found, mine) = get-ok env u id x s w e in
        ground (arith, delete_found-ok later u id x y r.1 r.2 found mine)
  ]

  delete_stopped :
      (env later : Env) (u id : String) (y : Session) (s : Store) (w : W)
      → lookup id s.sessions ≡ some y
      → y.username ≡ u
      → y.status ≡ stopped
      → delete p env later u id s w ≡ (ok y, s, w)
  unfolding delete get probe delete_found
  delete_stopped env later u id y s w found mine ended = ground (arith, eq_iff y.username u)

  -- A Delete that succeeds leaves the session in the store, stopped and with its owner, and answers
  -- it; a second Delete answers the same session, changes nothing and does not call the provisioner.
  delete_twice :
      (env later env' later' : Env) (u id : String) (y : Session) (s : Store) (w : W)
      → (delete p env later u id s w).0 ≡ ok y
      → let r = delete p env later u id s w in
        (lookup id r.1.sessions ≡ some y)
        × (y.username ≡ u)
        × (y.status ≡ stopped)
        × (delete p env' later' u id r.1 r.2 ≡ (ok y, r.1, r.2))
  delete_twice env later env' later' u id y s w h =
      let (found, mine, ended) = delete-ok env later u id y s w h in
      (found, mine, ended, delete_stopped env' later' u id y _ _ found mine ended)

-- The status error admits no transition, so Delete removes the resources of a failed session, then
-- answers an error and leaves it failed: no call of Delete on a failed session ever succeeds.
pub delete_failed_session :
    {W : Type 0} (p : Provisioner W) (env later : Env) (u id : String) (x : Session) (s : Store)
    (w : W)
    → lookup id s.sessions ≡ some x
    → x.username ≡ u
    → x.status ≡ error
    → (p.delete x w).0 ≡ none
    → delete (some p) env later u id s w ≡ (err (invalid_status error stopped), s, (p.delete x w).1)
unfolding delete get probe delete_found set_status valid_transition
delete_failed_session p env later u id x s w found mine failed gone =
    ground (arith, eq_iff x.username u)
