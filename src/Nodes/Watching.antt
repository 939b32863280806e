-- ===== src/Nodes/Watching.antt =====
-- What a round of the watcher does to the requests to join.
use ldndrc.Base.{
  ◌≡◌, ◌∙◌, sym, subst, refl, inl, inr, String, Bool, true, false, not, ◌&&◌, Option, none, some,
  List, [], ◌∷◌, Result, ok, err, arith, str_eq, eq_iff, eq_refl, Bool-cases, Result-cases,
  if◌then◌else◌,
}
use ldndrc.Base.Map.{Map, lookup, IsUnique, lookup-put, Visits}
use ldndrc.Nodes.Types.{Node, joined, Store, Env, Library}
use ldndrc.Nodes.Store.{is_approved, mark_joined, save_node, save_locked, list_nodes}
use ldndrc.Nodes.Invariant.{IsWellFormed}
use ldndrc.Nodes.Watcher.{
  Condition, node_ready, Client, host_labels, WatchError, label_and_join, visit, watch_all,
  run_once,
}

-- The API server answers each read of a node by `conditions`, and takes each label.
pub record Serves {W : Type 0} (client : Client W)
    (conditions : String → Result String (List Condition)) : Type 0 where
  pub answers : (name : String) (w : W) → (client.get name w).0 ≡ conditions name
  pub labels : (name : String) (w : W) → (client.patch name host_labels w).0 ≡ none

abbrev pub is_up : Result String (List Condition) → Bool
is_up (ok cs) = node_ready cs
is_up (err e) = false

-- The request after the round
abbrev pub outcome : (String → Result String (List Condition)) → Node → Node
outcome conditions n =
    if is_approved n.status && is_up (conditions n.node_name)
    then record n { status = joined }
    else n

module _ {W : Type 0} (client : Client W) (env : Node → Env)
    (conditions : String → Result String (List Condition)) (serves : Serves client conditions)
    (saves : (n : Node) → (env n).write ≡ none) where
  label_and_join-lookup :
      (n : Node) (s : Store) (w : W) (j : String)
      → lookup n.id s.nodes ≡ some n
      → is_approved n.status ≡ true
      → ((label_and_join client env n s w).0 ≡ none)
        × (lookup j (label_and_join client env n s w).1.nodes
            ≡ (if str_eq n.id j then some (record n { status = joined }) else lookup j s.nodes))
  unfolding label_and_join mark_joined save_node save_locked
  label_and_join-lookup n s w j found good =
      let l = serves.labels n.node_name w in
      let v = saves n in
      let p = lookup-put n.id j (record n { status = joined }) s.nodes in
      (ground (arith, l, v), ground (arith, l, v, p))

  abbrev round : Node → Store → W → Option WatchError × Store × W
  round n s w = if not (is_approved n.status) then (none, s, w) else visit client env n s w

  round-lookup :
      (n : Node) (s : Store) (w : W) (j : String)
      → lookup n.id s.nodes ≡ some n
      → ((round n s w).0 ≡ none)
        × (lookup j (round n s w).1.nodes
            ≡ (if str_eq n.id j then some (outcome conditions n) else lookup j s.nodes))
  unfolding visit
  round-lookup n s w j found = elim (Bool-cases (is_approved n.status)) [
    | inr idle ↦ (ground arith, ground (arith, eq_iff n.id j))
    | inl good ↦ elim (Result-cases (conditions n.node_name)) [
      | inr (e, missing) ↦
          let a = serves.answers n.node_name w in
          (ground (arith, a), ground (arith, a, eq_iff n.id j))
      | inl (cs, there) ↦
          let a = serves.answers n.node_name w in
          let w' = (client.get n.node_name w).1 in
          let done = label_and_join-lookup n s w' j found good in
          (ground (arith, a, done), ground (arith, a, done, eq_iff n.id j))
    ]
  ]

  watch_all-next :
      (n : Node) (ns : List Node) (s : Store) (w : W)
      → (round n s w).0 ≡ none
      → watch_all client env (n ∷ ns) s w ≡ watch_all client env ns (round n s w).1 (round n s w).2
  unfolding watch_all
  watch_all-next n ns s w h = ground arith

  -- What a request becomes that the round meets, or does not
  abbrev settled : Option Node → Option Node → Option Node
  settled none old = old
  settled (some n) old = some (outcome conditions n)

  abbrev Settles : Map Node → Store → String → Option WatchError × Store × W → Type 0
  Settles m s j r = (r.0 ≡ none) × (lookup j r.1.nodes ≡ settled (lookup j m) (lookup j s.nodes))

  run_once-Settles :
      (m : Map Node) (s : Store) (w : W) (j : String)
      → IsUnique m
      → ((k : String) (y : Node) → lookup k m ≡ some y → (y.id ≡ k) × (lookup k s.nodes ≡ some y))
      → Settles m s j (run_once client env m s w)
  unfolding lookup run_once list_nodes
  run_once-Settles [] s w j u known = unfold watch_all in (refl, refl)
  run_once-Settles ((k, n) ∷ m) s w j (absent, u) known =
      let (keyed, found) = known k n (rw (eq_refl k)) in
      let found' : lookup n.id s.nodes ≡ some n =
        subst (λ i. lookup i s.nodes ≡ some n) (sym keyed) found in
      let (fine, now) = round-lookup n s w j found' in
      let t = (round n s w).1 in
      let later : (i : String) (y : Node)
          → lookup i m ≡ some y
          → (y.id ≡ i) × (lookup i t.nodes ≡ some y) =
        λ i y h.
          let (keyed', found'') = known i y (ground (arith, eq_iff k i, absent)) in
          let (_, same) = round-lookup n s w i found' in
          (keyed', ground (arith, same, keyed, eq_iff k i, eq_iff n.id i, absent)) in
      let rest = run_once-Settles m t (round n s w).2 j u later in
      subst (Settles ((k, n) ∷ m) s j) (sym (watch_all-next n (list_nodes m) s w fine))
        (rest.0, ground (arith, rest.1, now, keyed, absent, eq_iff k j, eq_iff n.id j))

-- If the API server answers each read of a node by `conditions` and takes every label, and the
-- disk takes every save, a round of the watcher ends without an error, in whatever order it visits
-- the requests, every approved request whose node is ready is joined, and every other request is
-- as it was.
pub ready_nodes_join :
    {W : Type 0} (client : Client W) (env : Node → Env)
    (conditions : String → Result String (List Condition)) (lib : Library) (visited : Map Node)
    (s : Store) (w : W) (id : String) (n : Node)
    → Serves client conditions
    → ((x : Node) → (env x).write ≡ none)
    → IsWellFormed lib s
    → Visits visited s.nodes
    → lookup id s.nodes ≡ some n
    → ((run_once client env visited s w).0 ≡ none)
      × (lookup id (run_once client env visited s w).1.nodes
          ≡ some (
              if is_approved n.status && is_up (conditions n.node_name)
              then record n { status = joined }
              else n))
ready_nodes_join client env conditions lib visited s w id n serves saves wf v found =
    let known : (k : String) (y : Node)
        → lookup k visited ≡ some y
        → (y.id ≡ k) × (lookup k s.nodes ≡ some y) =
      λ k y e. let h = sym (v.same k) ∙ e in (wf.keyed k y h, h) in
    let (fine, now) =
      run_once-Settles client env conditions serves saves visited s w id v.once known in
    (fine, now ∙ (rw (v.same id ∙ found)))
