-- ===== src/Nodes/Invariant.antt =====
-- What holds of a node store between two locked sections.
use ldndrc.Base.{
  ◌≡◌, ◌≢◌, refl, sym, ap, ◌∙◌, subst, inl, inr, String, false, none, some, ok, err, arith, str_eq,
  eq_iff, Bool-cases,
}
use ldndrc.Base.Map.{
  lookup, put, IsUnique, put-IsUnique, lookup-put, lookup-put_self, lookup-put_cases,
}
use ldndrc.Nodes.Types.{Node, Profile, nil_dereference, File, Store, Env, Library}
use ldndrc.Nodes.Store.{profile, fingerprint, new_node, known_node, register, is_invalid}
use ldndrc.Nodes.Steps.{Op, step, IsFresh, Moves, Reach, here, next}
use ldndrc.Nodes.Effects.{Effect, keeps, writes, target, update, step-Effect, step-registers}
use ldndrc.Nodes.Registering.{known, refused, added, register-Registered}

-- Each node stands under its ID, the index names each node by its fingerprint, and every entry of
-- the index names a node with that fingerprint.
pub record IsWellFormed (lib : Library) (s : Store) : Type 0 where
  pub unique : IsUnique s.nodes
  pub keyed : (i : String) (n : Node) → lookup i s.nodes ≡ some n → n.id ≡ i
  pub indexed :
      (i : String) (n : Node)
      → lookup i s.nodes ≡ some n
      → lookup (fingerprint lib (profile n)) s.by_fingerprint ≡ some i
  pub entry :
      (fp i : String)
      → lookup fp s.by_fingerprint ≡ some i
      → (n : Node) × (lookup i s.nodes ≡ some n) × (fingerprint lib (profile n) ≡ fp)

-- A node is rewritten to a later state of itself.
module _ (lib : Library) (s : Store) (wf : IsWellFormed lib s) (f : File) (id : String)
    (n n' : Node) (found : lookup id s.nodes ≡ some n) (m : Moves n n') where
  moved-before :
      (i : String) (x : Node)
      → lookup i (put id n' s.nodes) ≡ some x
      → (y : Node) × (lookup i s.nodes ≡ some y) × (x.id ≡ y.id) × (profile x ≡ profile y)
  moved-before i x h = elim (lookup-put_cases id i n' x s.nodes h) [
    | inl (hit, e) ↦ (
      n,
      rw (← hit) found,
      subst (λ (z : Node). z.id ≡ n.id) e m.same_id,
      subst (λ (z : Node). profile z ≡ profile n) e m.same_profile,
    )
    | inr (miss, old) ↦ (x, old, refl, refl)
  ]

  moved-after :
      (i : String) (x : Node)
      → lookup i s.nodes ≡ some x
      → (y : Node) × (lookup i (put id n' s.nodes) ≡ some y) × (profile y ≡ profile x)
  moved-after i x h = elim (Bool-cases (str_eq id i)) [
    | inl hit ↦
        let e : n ≡ x = ground (arith, eq_iff id i, found, h) in
        (n', ground (arith, lookup-put id i n' s.nodes), m.same_profile ∙ ap profile e)
    | inr miss ↦ (x, ground (arith, lookup-put id i n' s.nodes), refl)
  ]

  moved-IsWellFormed :
      IsWellFormed lib
        (record { nodes = put id n' s.nodes; by_fingerprint = s.by_fingerprint; file = f })
  moved-IsWellFormed = record {
    unique = put-IsUnique id n' s.nodes wf.unique;
    keyed = λ i x h. let (y, old, e, _) = moved-before i x h in e ∙ wf.keyed i y old;
    indexed = λ i x h. let (y, old, _, e) = moved-before i x h in rw e (wf.indexed i y old);
    entry = λ fp i h.
        let (x, old, e) = wf.entry fp i h in
        let (y, now, e') = moved-after i x old in (y, now, ap (fingerprint lib) e' ∙ e);
  }

-- A pending node is added under a fresh ID and a fresh fingerprint.
module _ (lib : Library) (s : Store) (wf : IsWellFormed lib s) (f : File) (id : String) (n : Node)
    (same : n.id ≡ id) (fresh : lookup id s.nodes ≡ none)
    (free : lookup (fingerprint lib (profile n)) s.by_fingerprint ≡ none) where
  added-indexed :
      (i : String) (x : Node)
      → lookup i (put id n s.nodes) ≡ some x
      → lookup (fingerprint lib (profile x)) (put (fingerprint lib (profile n)) id s.by_fingerprint)
        ≡ some i
  added-indexed i x h = elim (lookup-put_cases id i n x s.nodes h) [
    | inl (hit, e) ↦
        subst
          (λ (z : Node).
            lookup (fingerprint lib (profile z))
              (put (fingerprint lib (profile n)) id s.by_fingerprint)
            ≡ some i)
          e (lookup-put_self _ id s.by_fingerprint ∙ ap some hit)
    | inr (miss, old) ↦ ground (
      arith,
      lookup-put (fingerprint lib (profile n)) (fingerprint lib (profile x)) id s.by_fingerprint,
      eq_iff (fingerprint lib (profile n)) (fingerprint lib (profile x)),
      wf.indexed i x old,
    )
  ]

  added-entry :
      (fp i : String)
      → lookup fp (put (fingerprint lib (profile n)) id s.by_fingerprint) ≡ some i
      → (x : Node) × (lookup i (put id n s.nodes) ≡ some x) × (fingerprint lib (profile x) ≡ fp)
  added-entry fp i h =
      elim (lookup-put_cases (fingerprint lib (profile n)) fp id i s.by_fingerprint h) [
        | inl (hit, e) ↦ (n, rw (← e) (lookup-put_self id n s.nodes), hit)
        | inr (miss, old) ↦
            let (x, there, e) = wf.entry fp i old in
            (x, ground (arith, lookup-put id i n s.nodes, eq_iff id i), e)
      ]

  pub added-IsWellFormed : IsWellFormed lib (record {
    nodes = put id n s.nodes;
    by_fingerprint = put (fingerprint lib (profile n)) id s.by_fingerprint;
    file = f;
  })
  added-IsWellFormed = record {
    unique = put-IsUnique id n s.nodes wf.unique;
    keyed = λ i x h. elim (lookup-put_cases id i n x s.nodes h) [
      | inl (hit, e) ↦ subst (λ (z : Node). z.id ≡ i) e (same ∙ hit)
      | inr (miss, old) ↦ wf.keyed i x old
    ];
    indexed = added-indexed;
    entry = added-entry;
  }

pub Effect-IsWellFormed :
    (lib : Library) (env : Env) (op : Op) (s t : Store)
    → Effect env op s t
    → IsWellFormed lib s
    → IsWellFormed lib t
Effect-IsWellFormed lib env op s t (keeps e) wf = subst (IsWellFormed lib) (sym e) wf
Effect-IsWellFormed lib env op s t (writes n found m nodes index) wf =
    subst (IsWellFormed lib) (ground arith)
      (moved-IsWellFormed lib s wf t.file (target op) n (update env op n) found m)

pub register-IsWellFormed :
    (lib : Library) (env : Env) (p : Profile) (s : Store)
    → IsFresh env s
    → IsWellFormed lib s
    → IsWellFormed lib (register lib env p s).1
unfolding new_node
register-IsWellFormed lib env p s fresh wf = elim (register-Registered lib env p s fresh) [
  | known id good h e ↦ rw e wf
  | refused m why w e ↦ rw e wf
  | added id f unused free e ↦
      rw e (added-IsWellFormed lib s wf f id (new_node env p id) refl unused free)
]

-- Every interleaving of calls keeps the node store well formed.
pub IsWellFormed-Reach :
    {lib : Library} {s t : Store} → Reach lib s t → IsWellFormed lib s → IsWellFormed lib t
IsWellFormed-Reach here wf = wf
IsWellFormed-Reach {lib} {s} (next {t = t} env op r fresh) wf =
    let before = IsWellFormed-Reach r wf in
    elim (step-Effect lib env op t) [
      | inr effect ↦ Effect-IsWellFormed lib env op t _ effect before
      | inl (p, e) ↦
          subst (λ o. IsWellFormed lib (step lib env o t)) (sym e)
            (rw step-registers (register-IsWellFormed lib env p t fresh before))
    ]

-- A laptop that is known by its profile gets its own record back, in its current status, and the
-- store does not change.
register_known :
    (lib : Library) (env : Env) (i : String) (n : Node) (s : Store)
    → IsWellFormed lib s
    → lookup i s.nodes ≡ some n
    → is_invalid (profile n) ≡ false
    → register lib env (profile n) s ≡ (ok (n, false), s)
unfolding register known_node
register_known lib env i n s wf found good = ground (arith, wf.indexed i n found)

-- Register never meets an entry of its index without a node.
register-ne-panic :
    (lib : Library) (env : Env) (p : Profile) (s : Store)
    → IsFresh env s
    → IsWellFormed lib s
    → (register lib env p s).0 ≢ err nil_dereference
unfolding known_node
register-ne-panic lib env p s fresh wf h = elim (register-Registered lib env p s fresh) [
  | known id good there e ↦ let (n, found, _) = wf.entry _ id there in ground arith
  | refused m why w e ↦ w (ground arith)
  | added id f unused free e ↦ ground arith
]
