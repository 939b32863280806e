-- ===== src/Sessions/Apart.antt =====
-- The locked sections of one user leave the sessions of every other user alone.
use ldndrc.Base.{
  ◌≡◌, ◌≢◌, refl, sym, ap, subst, ◌∙◌, inl, inr, String, some, arith, str_eq, eq_iff, Bool-cases,
  Option-cases,
}
use ldndrc.Base.Map.{lookup, put, lookup-put, lookup-put_cases}
use ldndrc.Sessions.Types.{Status, Session, Store, Env}
use ldndrc.Sessions.Store.{new_session, create_locked, set_status}
use ldndrc.Sessions.Methods.{list_sessions}
use ldndrc.Sessions.Create.{create_locked_cases, insert_session_cases}
use ldndrc.Sessions.Invariant.{IsWellFormed}
use ldndrc.Sessions.Sections.{IsFresh}
use ldndrc.Sessions.Status.{set_status_cases, restatus}

-- The two stores hold the same sessions of all users but `u`, and the same entries.
pub record Apart (u : String) (s t : Store) : Type 0 where
  pub entries : (v : String) → v ≢ u → lookup v t.by_user ≡ lookup v s.by_user
  pub kept :
      (id : String) (x : Session)
      → x.username ≢ u
      → lookup id s.sessions ≡ some x
      → lookup id t.sessions ≡ some x
  pub only :
      (id : String) (x : Session)
      → x.username ≢ u
      → lookup id t.sessions ≡ some x
      → lookup id s.sessions ≡ some x

pub Apart-refl : (u : String) (s : Store) → Apart u s s
Apart-refl u s = record {
  entries = λ v other. refl;
  kept = λ id x other found. found;
  only = λ id x other found. found;
}

pub Apart-trans : (u : String) (s t v : Store) → Apart u s t → Apart u t v → Apart u s v
Apart-trans u s t v a b = record {
  entries = λ w other. b.entries w other ∙ a.entries w other;
  kept = λ id x other found. b.kept id x other (a.kept id x other found);
  only = λ id x other found. a.only id x other (b.only id x other found);
}

-- A session of the user in place of none, or of one of the user's own
put-kept :
    (u id j : String) (x y : Session) (s : Store)
    → ((z : Session) → lookup id s.sessions ≡ some z → z.username ≡ u)
    → y.username ≢ u
    → lookup j s.sessions ≡ some y
    → lookup j (put id x s.sessions) ≡ some y
put-kept u id j x y s own other found = elim (Bool-cases (str_eq id j)) [
  | inr miss ↦ ground (arith, lookup-put id j x s.sessions, miss, found)
  | inl hit ↦
      absurd (
        other (own y (subst (λ k. lookup k s.sessions ≡ some y) (sym ((eq_iff id j).0 hit)) found)))
]

put-only :
    (u id j : String) (x y : Session) (s : Store)
    → x.username ≡ u
    → y.username ≢ u
    → lookup j (put id x s.sessions) ≡ some y
    → lookup j s.sessions ≡ some y
put-only u id j x y s mine other found = elim (lookup-put_cases id j x y s.sessions found) [
  | inl (here, e) ↦ absurd (other (ap (λ (z : Session). z.username) (sym e) ∙ mine))
  | inr (there, old) ↦ old
]

pub create_locked-Apart :
    (u : String) (env : Env) (s : Store) → IsFresh env s → Apart u s (create_locked env u s).1
unfolding new_session
create_locked-Apart u env s fresh = elim (create_locked_cases env u s) [
  | inl (e, refused) ↦ rw refused (Apart-refl u s)
  | inr (id, d, idle, random, allocated, inserts) ↦
      let x : Session = new_session env u id d in
      elim (insert_session_cases env x s (fresh id random)) [
        | inr (m, f, e) ↦
            rw (inserts, e)
              (record {
                entries = λ v other. refl;
                kept = λ id x other found. found;
                only = λ id x other found. found;
              })
        | inl (f, e) ↦
            rw (inserts, e)
              (record {
                entries = λ v other. ground (arith, lookup-put u v id s.by_user, other, eq_iff u v);
                kept = λ j y other found.
                    put-kept u id j x y s
                      (λ z there. absurd (ground (arith, there, fresh id random))) other found;
                only = λ j y other found. put-only u id j x y s refl other found;
              })
      ]
]

pub set_status-Apart :
    (u : String) (env : Env) (id : String) (status : Status) (m : String) (s : Store)
    → Apart u s (set_status env u id status m s).1
set_status-Apart u env id status m s = elim (set_status_cases env u id status m s) [
  | inl (e, refused) ↦ rw refused (Apart-refl u s)
  | inr (x, f, w) ↦ rw (w.store) (record {
    entries = λ v other. refl;
    kept = λ j y other found.
        put-kept u id j (restatus env status m x) y s
          (λ z there. ground (arith, there, w.found, w.user)) other found;
    only = λ j y other found. put-only u id j (restatus env status m x) y s w.user other found;
  })
]

-- List shows the other users what it showed them before.
pub list_sessions-Apart :
    (u v : String) (s t : Store)
    → IsWellFormed s
    → Apart u s t
    → v ≢ u
    → list_sessions v t ≡ list_sessions v s
unfolding list_sessions
list_sessions-Apart u v s t wf a other = elim (Option-cases (lookup v s.by_user)) [
  | inl gone ↦ ground (arith, gone, a.entries v other)
  | inr (id, there) ↦
      let (x, found, mine) = wf.entry v id there in
      let same = a.kept id x (λ e. other (sym mine ∙ e)) found in
      ground (arith, there, a.entries v other, found, same)
]
