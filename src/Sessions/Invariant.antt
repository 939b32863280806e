-- ===== src/Sessions/Invariant.antt =====
-- What holds of a session store between two locked sections, and its preservation by each.
use ldndrc.Base.{
  ◌≤◌, ◌≡◌, refl, sym, ap, ◌∙◌, subst, inl, inr, String, true, false, none, some, arith, str_eq,
  eq_iff, Bool-cases,
}
use ldndrc.Base.Map.{
  lookup, put, IsUnique, lookup-put, lookup-put_self, lookup-put_cases, put-IsUnique,
}
use ldndrc.Sessions.Types.{Session, File, Store}
use ldndrc.Sessions.Domain.{is_active, min_domain, max_domain, Holds}

-- Each session stands under its ID, domain IDs of active sessions are in range and pairwise
-- different, each active session is the one that its user's entry names, and each entry names a
-- session of its user.
pub record IsWellFormed (s : Store) : Type 0 where
  pub unique : IsUnique s.sessions
  pub keyed : (i : String) (x : Session) → lookup i s.sessions ≡ some x → x.id ≡ i
  pub ranged :
      (i : String) (x : Session)
      → lookup i s.sessions ≡ some x
      → is_active x.status ≡ true
      → (min_domain ≤ x.ros_domain_id) × (x.ros_domain_id ≤ max_domain)
  pub isolated :
      (i j : String) (x y : Session)
      → lookup i s.sessions ≡ some x
      → lookup j s.sessions ≡ some y
      → is_active x.status ≡ true
      → is_active y.status ≡ true
      → x.ros_domain_id ≡ y.ros_domain_id
      → i ≡ j
  pub owned :
      (i : String) (x : Session)
      → lookup i s.sessions ≡ some x
      → is_active x.status ≡ true
      → lookup x.username s.by_user ≡ some i
  pub entry :
      (u i : String)
      → lookup u s.by_user ≡ some i
      → (x : Session) × (lookup i s.sessions ≡ some x) × (x.username ≡ u)

-- `y` is `x` with another status, and active only if `x` is.
pub record Retires (y x : Session) : Type 0 where
  pub same_id : y.id ≡ x.id
  pub same_user : y.username ≡ x.username
  pub same_domain : y.ros_domain_id ≡ x.ros_domain_id
  pub still_active : is_active y.status ≡ true → is_active x.status ≡ true

-- A write of one session over another that it retires.
module _ (s : Store) (id : String) (x x' : Session) (f : File)
    (found : lookup id s.sessions ≡ some x) (r : Retires x' x) where
  -- Each session after the write was there before it.
  before :
      (i : String) (y : Session)
      → lookup i (put id x' s.sessions) ≡ some y
      → (z : Session) × (lookup i s.sessions ≡ some z) × Retires y z
  before i y h = elim (lookup-put_cases id i x' y s.sessions h) [
    | inl (hit, e) ↦ (x, rw (← hit) found, subst (λ z. Retires z x) e r)
    | inr (miss, old) ↦ (
      y,
      old,
      record { same_id = refl; same_user = refl; same_domain = refl; still_active = λ a. a },
    )
  ]

  kept :
      (i : String) (y : Session)
      → lookup i s.sessions ≡ some y
      → (z : Session) × (lookup i (put id x' s.sessions) ≡ some z) × (z.username ≡ y.username)
  kept i y h = elim (Bool-cases (str_eq id i)) [
    | inl hit ↦ (
      x',
      ground (arith, lookup-put id i x' s.sessions),
      ground (arith, eq_iff id i, r.same_user),
    )
    | inr miss ↦ (y, ground (arith, lookup-put id i x' s.sessions), refl)
  ]

  pub put-IsWellFormed :
      IsWellFormed s → IsWellFormed (record s { sessions = put id x' s.sessions; file = f })
  put-IsWellFormed wf = record {
    unique = put-IsUnique id x' s.sessions wf.unique;
    keyed = λ i y h. let (z, old, q) = before i y h in q.same_id ∙ wf.keyed i z old;
    ranged = λ i y h a.
        let (z, old, q) = before i y h in rw q.same_domain (wf.ranged i z old (q.still_active a));
    isolated = λ i j y y' h h' a a' e.
        let (z, old, q) = before i y h in
        let (z', old', q') = before j y' h' in
        wf.isolated i j z z' old old' (q.still_active a) (q'.still_active a')
          (sym q.same_domain ∙ e ∙ q'.same_domain);
    owned = λ i y h a.
        let (z, old, q) = before i y h in rw q.same_user (wf.owned i z old (q.still_active a));
    entry = λ u i h.
        let (y, old, e) = wf.entry u i h in let (z, now, e') = kept i y old in (z, now, e' ∙ e);
  }

-- A new session under a fresh key, for a user with no active session.
module _ (s : Store) (x : Session) (f : File) (wf : IsWellFormed s)
    (fresh : lookup x.id s.sessions ≡ none)
    (idle : (i : String) (y : Session)
      → lookup i s.sessions ≡ some y
      → y.username ≡ x.username
      → is_active y.status ≡ false)
    (free : ¬ Holds s.sessions x.ros_domain_id)
    (range : (min_domain ≤ x.ros_domain_id) × (x.ros_domain_id ≤ max_domain)) where
  added-isolated :
      (i j : String) (y z : Session)
      → lookup i (put x.id x s.sessions) ≡ some y
      → lookup j (put x.id x s.sessions) ≡ some z
      → is_active y.status ≡ true
      → is_active z.status ≡ true
      → y.ros_domain_id ≡ z.ros_domain_id
      → i ≡ j
  added-isolated i j y z h h' a a' e = elim (lookup-put_cases x.id i x y s.sessions h) [
    | inl (hit, new) ↦ elim (lookup-put_cases x.id j x z s.sessions h') [
      | inl (hit', new') ↦ sym hit ∙ hit'
      | inr (miss', old') ↦
          absurd (free (j, z, old', a', sym e ∙ ap (λ (t : Session). t.ros_domain_id) (sym new)))
    ]
    | inr (miss, old) ↦ elim (lookup-put_cases x.id j x z s.sessions h') [
      | inl (hit', new') ↦
          absurd (free (i, y, old, a, e ∙ ap (λ (t : Session). t.ros_domain_id) (sym new')))
      | inr (miss', old') ↦ wf.isolated i j y z old old' a a' e
    ]
  ]

  added-owned :
      (i : String) (y : Session)
      → lookup i (put x.id x s.sessions) ≡ some y
      → is_active y.status ≡ true
      → lookup y.username (put x.username x.id s.by_user) ≡ some i
  added-owned i y h a = elim (lookup-put_cases x.id i x y s.sessions h) [
    | inl (hit, new) ↦ rw (← new) (lookup-put_self x.username x.id s.by_user ∙ ap some hit)
    | inr (miss, old) ↦ ground (
      arith,
      lookup-put x.username y.username x.id s.by_user,
      eq_iff x.username y.username,
      idle i y old,
      wf.owned i y old a,
    )
  ]

  added-entry :
      (u i : String)
      → lookup u (put x.username x.id s.by_user) ≡ some i
      → (y : Session) × (lookup i (put x.id x s.sessions) ≡ some y) × (y.username ≡ u)
  added-entry u i h = elim (lookup-put_cases x.username u x.id i s.by_user h) [
    | inl (hit, same) ↦ (x, rw (← same) (lookup-put_self x.id x s.sessions), hit)
    | inr (miss, old) ↦
        let (y, there, e) = wf.entry u i old in
        (y, ground (arith, lookup-put x.id i x s.sessions, eq_iff x.id i), e)
  ]

  pub added-IsWellFormed : IsWellFormed (record s {
    sessions = put x.id x s.sessions;
    by_user = put x.username x.id s.by_user;
    file = f;
  })
  added-IsWellFormed = record {
    unique = put-IsUnique x.id x s.sessions wf.unique;
    keyed = λ i y h. elim (lookup-put_cases x.id i x y s.sessions h) [
      | inl (hit, new) ↦ rw (← new) hit
      | inr (miss, old) ↦ wf.keyed i y old
    ];
    ranged = λ i y h a. elim (lookup-put_cases x.id i x y s.sessions h) [
      | inl (hit, new) ↦ rw (← new) range
      | inr (miss, old) ↦ wf.ranged i y old a
    ];
    isolated = added-isolated;
    owned = added-owned;
    entry = added-entry;
  }
