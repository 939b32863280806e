-- ===== src/Nodes/Reload.antt =====
-- A restart of the control panel: the store that NewStore of control-panel/internal/nodes/store.go
-- builds from a saved file.
use ldndrc.Base.{
  ◌≡◌, ◌⊎◌, refl, sym, ap, subst, ◌∙◌, inl, inr, String, none, some, [], ◌∷◌, ok, arith, eq_iff,
  eq_refl, Option-cases,
}
use ldndrc.Base.Map.{Map, lookup, put, IsUnique, Visits, lookup-put, lookup-put_cases}
use ldndrc.Nodes.Types.{Node, File, absent, saved, Store, Library}
use ldndrc.Nodes.Store.{profile, fingerprint, load_nodes, new_store}
use ldndrc.Nodes.Invariant.{IsWellFormed, added-IsWellFormed}

-- One round of the loop
abbrev load_node : Library → String → Node → Store → Store
load_node lib k x a = record a {
  nodes = put k x a.nodes;
  by_fingerprint = put (fingerprint lib (profile x)) k a.by_fingerprint;
}

module _ (lib : Library) (s : Store) (wf : IsWellFormed lib s) where
  -- `a` has been loaded from a part of the nodes of `s`.
  record Partly (a : Store) : Type 0 where
    well : IsWellFormed lib a
    sub : (k : String) (x : Node) → lookup k a.nodes ≡ some x → lookup k s.nodes ≡ some x

  -- Every node that is still to be loaded is a node of `s` that has not been loaded.
  record Pending (a : Store) (m : Map Node) : Type 0 where
    apart : IsUnique m
    known : (k : String) (x : Node) → lookup k m ≡ some x → lookup k s.nodes ≡ some x
    fresh : (k : String) (x : Node) → lookup k m ≡ some x → lookup k a.nodes ≡ none

  module _ (a : Store) (k : String) (x : Node) (p : Partly a) (mine : lookup k s.nodes ≡ some x)
      (unloaded : lookup k a.nodes ≡ none) where
    -- The fingerprint of a node that is still to be loaded has no entry yet.
    unclaimed : lookup (fingerprint lib (profile x)) a.by_fingerprint ≡ none
    unclaimed = elim (Option-cases (lookup (fingerprint lib (profile x)) a.by_fingerprint)) [
      | inl free ↦ free
      | inr (i, taken) ↦
          let (n, there, same) = p.well.entry (fingerprint lib (profile x)) i taken in
          absurd (cc (wf.indexed i n (p.sub i n there), wf.indexed k x mine, same, there, unloaded))
    ]

    load_node-Partly : Partly (load_node lib k x a)
    load_node-Partly = record {
      well = added-IsWellFormed lib a p.well a.file k x (wf.keyed k x mine) unloaded unclaimed;
      sub = λ j y h. elim (lookup-put_cases k j x y a.nodes h) [
        | inl (hit, e) ↦ cc (hit, e, mine)
        | inr (miss, old) ↦ p.sub j y old
      ];
    }

  Pending-next :
      (a : Store) (k : String) (x : Node) (m : Map Node)
      → Pending a ((k, x) ∷ m)
      → (lookup k s.nodes ≡ some x) × (lookup k a.nodes ≡ none) × Pending (load_node lib k x a) m
  unfolding lookup
  Pending-next a k x m q = (
    q.known k x (rw (eq_refl k)),
    q.fresh k x (rw (eq_refl k)),
    record {
      apart = q.apart.1;
      known = λ j y h. q.known j y (ground (arith, eq_iff k j, q.apart.0));
      fresh = λ j y h. ground (arith, eq_iff k j, q.apart.0, lookup-put k j x a.nodes, q.fresh j y);
    },
  )

  load_nodes-Partly :
      (a : Store) (m : Map Node) → Partly a → Pending a m → Partly (load_nodes lib m a)
  unfolding load_nodes
  load_nodes-Partly a [] p q = p
  load_nodes-Partly a ((k, x) ∷ m) p q =
      let (mine, unloaded, rest) = Pending-next a k x m q in
      load_nodes-Partly (load_node lib k x a) m (load_node-Partly a k x p mine unloaded) rest

-- The loop keeps what is loaded, and loads the rest.
load_nodes-lookup :
    (lib : Library) (j : String) (x : Node) (a : Store) (m : Map Node)
    → (lookup j m ≡ some x) ⊎ ((lookup j m ≡ none) × (lookup j a.nodes ≡ some x))
    → IsUnique m
    → lookup j (load_nodes lib m a).nodes ≡ some x
unfolding load_nodes lookup
load_nodes-lookup lib j x a [] h u = ground arith
load_nodes-lookup lib j x a ((k, y) ∷ m) h u =
    load_nodes-lookup lib j x (load_node lib k y a) m
      (ground (arith, eq_iff k j, lookup-put k j y a.nodes, u.0)) u.1

-- A store that holds nothing yet.
empty : File → Store
empty f = record { nodes = []; by_fingerprint = []; file = f }

empty-IsWellFormed : (lib : Library) (f : File) → IsWellFormed lib (empty f)
unfolding empty lookup
empty-IsWellFormed lib f = record {
  unique = tt;
  keyed = λ i x h. absurd (cc);
  indexed = λ i n h. absurd (cc);
  entry = λ fp i h. absurd (cc);
}

empty-Partly :
    (lib : Library) (s : Store) (wf : IsWellFormed lib s) (f : File) → Partly lib s wf (empty f)
unfolding empty lookup
empty-Partly lib s wf f = record { well = empty-IsWellFormed lib f; sub = λ k x h. absurd (cc) }

module _ (lib : Library) (s : Store) (wf : IsWellFormed lib s) (visited : Map Node)
    (v : Visits visited s.nodes) where
  loaded : Store
  loaded = load_nodes lib visited (empty (saved visited))

  loaded-Partly : Partly lib s wf loaded
  unfolding loaded empty lookup
  loaded-Partly =
      load_nodes-Partly lib s wf _ visited (empty-Partly lib s wf (saved visited))
        (record { apart = v.once; known = λ k x h. sym (v.same k) ∙ h; fresh = λ k x h. refl })

  loaded-lookup : (k : String) → lookup k loaded.nodes ≡ lookup k s.nodes
  unfolding loaded
  loaded-lookup k = elim (Option-cases (lookup k s.nodes)) [
    | inr (x, e) ↦ load_nodes-lookup lib k x _ visited (inl (v.same k ∙ e)) v.once ∙ sym e
    | inl e ↦ elim (Option-cases (lookup k loaded.nodes)) [
      | inl e' ↦ e' ∙ sym e
      | inr (x, e') ↦ absurd (cc (loaded-Partly.sub k x e', e))
    ]
  ]

-- A restart loses no join request: from the file of a well-formed store, in whatever order its
-- entries are visited, NewStore builds a well-formed store with the same nodes.
pub reload_keeps_nodes :
    (lib : Library) (s : Store) (visited : Map Node)
    → IsWellFormed lib s
    → Visits visited s.nodes
    → (t : Store) × (new_store lib (saved visited) ≡ ok t)
      × IsWellFormed lib t
      × ((k : String) → lookup k t.nodes ≡ lookup k s.nodes)
unfolding new_store loaded empty
reload_keeps_nodes lib s visited wf v = (
  loaded lib s wf visited v,
  refl,
  (loaded-Partly lib s wf visited v).well,
  loaded-lookup lib s wf visited v,
)

-- The file of nodes that a start finds: none, or what a well-formed store has saved
pub data WellSaved (lib : Library) (f : File) : Type 0 where
  first_start : f ≡ absent → WellSaved lib f
  saved_by :
      (s : Store) (visited : Map Node)
      → f ≡ saved visited
      → IsWellFormed lib s
      → Visits visited s.nodes
      → WellSaved lib f

pub new_store-IsWellFormed :
    (lib : Library) (f : File) (t : Store)
    → WellSaved lib f
    → new_store lib f ≡ ok t
    → IsWellFormed lib t
unfolding new_store empty
new_store-IsWellFormed lib f t (first_start e) h =
    subst (IsWellFormed lib) (ground (arith, e, h)) (empty-IsWellFormed lib absent)
new_store-IsWellFormed lib f t (saved_by s visited e wf v) h =
    let (t', built, well, same) = reload_keeps_nodes lib s visited wf v in
    subst (IsWellFormed lib) (cc (sym built ∙ ap (new_store lib) (sym e) ∙ h)) well
