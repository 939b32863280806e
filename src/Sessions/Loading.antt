-- ===== src/Sessions/Loading.antt =====
-- The loop of NewStoreWithPath over the saved sessions, and what it has built after each round.
use ldndrc.Base.{
  ◌≡◌, ◌⊎◌, refl, ap, ◌∙◌, inl, inr, String, true, false, none, some, [], ◌∷◌, arith, eq_iff,
  eq_refl, Bool-cases, Option-cases,
}
use ldndrc.Base.Map.{
  Map, lookup, put, IsUnique, lookup-put, lookup-put_self, lookup-put_cases, put-IsUnique,
}
use ldndrc.Sessions.Types.{Session, Store}
use ldndrc.Sessions.Domain.{is_active}
use ldndrc.Sessions.Load.{load_entry, load_entries}
use ldndrc.Sessions.Invariant.{IsWellFormed}

-- The active session `i` of the user `u`.
pub record Active (m : Map Session) (u i : String) : Type 0 where
  pub session : Session
  pub found : lookup i m ≡ some session
  pub user : session.username ≡ u
  pub active : is_active session.status ≡ true

-- `a` has been loaded from a part of the sessions of `s`.
pub record Partly (s a : Store) : Type 0 where
  pub unique : IsUnique a.sessions
  pub sub : (k : String) (x : Session) → lookup k a.sessions ≡ some x → lookup k s.sessions ≡ some x
  pub owned :
      (k : String) (x : Session)
      → lookup k a.sessions ≡ some x
      → is_active x.status ≡ true
      → lookup x.username a.by_user ≡ some k
  pub entry : (u i : String) → lookup u a.by_user ≡ some i → Active a.sessions u i

-- An active session of a user excludes every other one.
Active-unique :
    {s : Store} {u i j : String}
    → IsWellFormed s
    → Active s.sessions u i
    → Active s.sessions u j
    → i ≡ j
Active-unique wf a b =
    cc
      (wf.owned _ a.session a.found a.active, wf.owned _ b.session b.found b.active, a.user, b.user)

module _ (s a : Store) (k : String) (x : Session) (wf : IsWellFormed s) (p : Partly s a)
    (mine : lookup k s.sessions ≡ some x) (fresh : lookup k a.sessions ≡ none) where
  -- A user of an active session that is still to be loaded has no entry yet.
  unclaimed : is_active x.status ≡ true → lookup x.username a.by_user ≡ none
  unclaimed active = elim (Option-cases (lookup x.username a.by_user)) [
    | inl free ↦ free
    | inr (i, taken) ↦
        let c = p.entry x.username i taken in
        let there : Active s.sessions x.username i = record {
          session = c.session;
          found = p.sub i c.session c.found;
          user = c.user;
          active = c.active;
        } in
        let here : Active s.sessions x.username k = record {
          session = x;
          found = mine;
          user = refl;
          active = active;
        } in
        let same = Active-unique wf there here in absurd (cc (same, c.found, fresh))
  ]

  load-sub :
      (j : String) (y : Session)
      → lookup j (put k x a.sessions) ≡ some y
      → lookup j s.sessions ≡ some y
  load-sub j y h = elim (lookup-put_cases k j x y a.sessions h) [
    | inl (hit, e) ↦ cc (hit, e, mine)
    | inr (miss, old) ↦ p.sub j y old
  ]

  load-kept : (u i : String) → Active a.sessions u i → Active (put k x a.sessions) u i
  load-kept u i c = record {
    session = c.session;
    found = ground (arith, lookup-put k i x a.sessions, eq_iff k i, c.found);
    user = c.user;
    active = c.active;
  }

  load-ended : is_active x.status ≡ false → Partly s (record a { sessions = put k x a.sessions })
  load-ended ended = record {
    unique = put-IsUnique k x a.sessions p.unique;
    sub = load-sub;
    owned = λ j y h active. elim (lookup-put_cases k j x y a.sessions h) [
      | inl (hit, e) ↦ absurd (cc (ended, active, ap (λ (z : Session). is_active z.status) e))
      | inr (miss, old) ↦ p.owned j y old active
    ];
    entry = λ u i h. load-kept u i (p.entry u i h);
  }

  load-active :
      is_active x.status ≡ true
      → Partly s (record a { sessions = put k x a.sessions; by_user = put x.username k a.by_user })
  load-active active = record {
    unique = put-IsUnique k x a.sessions p.unique;
    sub = load-sub;
    owned = λ j y h active'. elim (lookup-put_cases k j x y a.sessions h) [
      | inl (hit, e) ↦ rw (← e) (lookup-put_self x.username k a.by_user ∙ ap some hit)
      | inr (miss, old) ↦ ground (
        arith,
        lookup-put x.username y.username k a.by_user,
        eq_iff x.username y.username,
        p.owned j y old active',
        unclaimed active,
      )
    ];
    entry = λ u i h. elim (lookup-put_cases x.username u k i a.by_user h) [
      | inl (hit, e) ↦ record {
        session = x;
        found = rw (← e) (lookup-put_self k x a.sessions);
        user = hit;
        active = active;
      }
      | inr (miss, old) ↦ load-kept u i (p.entry u i old)
    ];
  }

  load_entry-Partly : Partly s (load_entry k x a)
  unfolding load_entry
  load_entry-Partly = elim (Bool-cases (is_active x.status)) [
    | inr ended ↦ rw (ended, load_entry) (load-ended ended)
    | inl active ↦ rw (active, unclaimed active, load_entry) (load-active active)
  ]

-- Every entry that is still to be loaded is a session of `s` that has not been loaded.
pub record Pending (s a : Store) (m : Map Session) : Type 0 where
  pub apart : IsUnique m
  pub known : (k : String) (x : Session) → lookup k m ≡ some x → lookup k s.sessions ≡ some x
  pub fresh : (k : String) (x : Session) → lookup k m ≡ some x → lookup k a.sessions ≡ none

Pending-next :
    (s a : Store) (k : String) (x : Session) (m : Map Session)
    → Pending s a ((k, x) ∷ m)
    → (lookup k s.sessions ≡ some x) × (lookup k a.sessions ≡ none) × Pending s (load_entry k x a) m
unfolding lookup load_entry
Pending-next s a k x m q = (
  q.known k x (rw (eq_refl k)),
  q.fresh k x (rw (eq_refl k)),
  record {
    apart = q.apart.1;
    known = λ j y h. q.known j y (ground (arith, eq_iff k j, q.apart.0));
    fresh =
        λ j y h. ground (arith, eq_iff k j, q.apart.0, lookup-put k j x a.sessions, q.fresh j y);
  },
)

pub load_entries-Partly :
    (s a : Store) (m : Map Session)
    → IsWellFormed s
    → Partly s a
    → Pending s a m
    → Partly s (load_entries m a)
unfolding load_entries
load_entries-Partly s a [] wf p q = p
load_entries-Partly s a ((k, x) ∷ m) wf p q =
    let (mine, fresh, rest) = Pending-next s a k x m q in
    load_entries-Partly s (load_entry k x a) m wf (load_entry-Partly s a k x wf p mine fresh) rest

-- The loop keeps what is loaded, and loads the rest.
pub load_entries-lookup :
    (j : String) (x : Session) (a : Store) (m : Map Session)
    → (lookup j m ≡ some x) ⊎ ((lookup j m ≡ none) × (lookup j a.sessions ≡ some x))
    → IsUnique m
    → lookup j (load_entries m a).sessions ≡ some x
unfolding load_entries lookup load_entry
load_entries-lookup j x a [] h u = ground arith
load_entries-lookup j x a ((k, y) ∷ m) h u =
    load_entries-lookup j x (load_entry k y a) m
      (ground (arith, eq_iff k j, lookup-put k j y a.sessions, u.0)) u.1
