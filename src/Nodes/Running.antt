-- ===== src/Nodes/Running.antt =====
-- The loop of the watcher: no error of a round keeps a later round from its work.
use ldndrc.Base.{
  ◌≡◌, refl, inl, inr, ◌&&◌, not, String, Option, none, some, List, [], ◌∷◌, ◌++◌, All, Result,
  Bool-cases, Option-cases, Result-cases, if◌then◌else◌,
}
use ldndrc.Base.Map.{lookup, Visits}
use ldndrc.Nodes.Effects.{mark_joined-Effect}
use ldndrc.Nodes.Invariant.{IsWellFormed, Effect-IsWellFormed}
use ldndrc.Nodes.Steps.{joins}
use ldndrc.Nodes.Store.{is_approved, list_nodes}
use ldndrc.Nodes.Types.{Node, joined, Store, Env, Library}
use ldndrc.Nodes.Watcher.{
  Condition, node_ready, Client, host_labels, WatchError, label_and_join, visit, watch_all,
  run_once, Tick, run,
}
use ldndrc.Nodes.Watching.{Serves, is_up, ready_nodes_join}

module _ {W : Type 0} (lib : Library) where
  label_and_join-IsWellFormed :
      (client : Client W) (env : Node → Env) (n : Node) (s : Store) (w : W)
      → IsWellFormed lib s
      → IsWellFormed lib (label_and_join client env n s w).1
  unfolding label_and_join
  label_and_join-IsWellFormed client env n s w wf =
      elim (Option-cases (client.patch n.node_name host_labels w).0) [
        | inr (e, refused) ↦ rw (refused, label_and_join) wf
        | inl taken ↦
            rw (taken, label_and_join)
              (Effect-IsWellFormed lib (env n) (joins n.id) s _ (mark_joined-Effect (env n) n.id s)
                wf)
      ]

  visit-IsWellFormed :
      (client : Client W) (env : Node → Env) (n : Node) (s : Store) (w : W)
      → IsWellFormed lib s
      → IsWellFormed lib (visit client env n s w).1
  unfolding visit
  visit-IsWellFormed client env n s w wf =
      let w' = (client.get n.node_name w).1 in
      elim (Result-cases (client.get n.node_name w).0) [
        | inr (e, gone) ↦ rw (gone, visit) wf
        | inl (conditions, there) ↦ elim (Bool-cases (node_ready conditions)) [
          | inr unready ↦ rw (there, visit, unready) wf
          | inl ready ↦ rw (there, visit, ready) (label_and_join-IsWellFormed client env n s w' wf)
        ]
      ]

  -- One turn of the loop of RunOnce
  abbrev turn : Client W → (Node → Env) → Node → Store → W → Option WatchError × Store × W
  turn client env n s w =
      if not (is_approved n.status) then (none, s, w) else visit client env n s w

  turn-IsWellFormed :
      (client : Client W) (env : Node → Env) (n : Node) (s : Store) (w : W)
      → IsWellFormed lib s
      → IsWellFormed lib (turn client env n s w).1
  turn-IsWellFormed client env n s w wf = elim (Bool-cases (is_approved n.status)) [
    | inl good ↦ rw good (visit-IsWellFormed client env n s w wf)
    | inr bad ↦ rw bad wf
  ]

  watch_all-IsWellFormed :
      (client : Client W) (env : Node → Env) (ns : List Node) (s : Store) (w : W)
      → IsWellFormed lib s
      → IsWellFormed lib (watch_all client env ns s w).1
  unfolding watch_all
  watch_all-IsWellFormed client env [] s w wf = wf
  watch_all-IsWellFormed client env (n ∷ ns) s w wf =
      let r = turn client env n s w in
      let first = turn-IsWellFormed client env n s w wf in
      elim r.0
        as (λ f.
          IsWellFormed lib
            (elim f as (λ x. Option WatchError × Store × W) [
              | some e ↦ (some e, r.1, r.2)
              | none ↦ watch_all client env ns r.1 r.2
            ]).1) [ some e ↦ first | none ↦ watch_all-IsWellFormed client env ns r.1 r.2 first ]

  -- What the other requests do between two ticks keeps the store well formed.
  abbrev pub Meanwhile : Tick W → Type 0
  Meanwhile t = (s : Store) (w : W) → IsWellFormed lib s → IsWellFormed lib (t.meanwhile s w).0

  run-IsWellFormed :
      (ts : List (Tick W)) (s : Store) (w : W)
      → All Meanwhile ts
      → IsWellFormed lib s
      → IsWellFormed lib (run ts s w).1
  unfolding run run_once
  run-IsWellFormed [] s w h wf = wf
  run-IsWellFormed (t ∷ ts) s w (keeps, h) wf =
      let r = t.meanwhile s w in
      let round = run_once t.client t.env (t.visits r.0) r.0 r.1 in
      run-IsWellFormed ts round.1 round.2 h
        (watch_all-IsWellFormed t.client t.env (list_nodes (t.visits r.0)) r.0 r.1 (keeps s w wf))

-- The last tick works on what the ticks before it left.
run-append :
    {W : Type 0} (ts : List (Tick W)) (t : Tick W) (s : Store) (w : W)
    → (run (ts ++ t ∷ []) s w).1 ≡ (
        let (s1, w1) = t.meanwhile (run ts s w).1 (run ts s w).2 in
        (run_once t.client t.env (t.visits s1) s1 w1).1)
unfolding run
run-append [] t s w = refl
run-append (u ∷ ts) t s w =
    let r = u.meanwhile s w in
    let round = run_once u.client u.env (u.visits r.0) r.0 r.1 in run-append ts t round.1 round.2

-- Whatever failed in the rounds before, at a tick at which the API server answers each read of a node
-- and takes every label, and the disk every save, Run joins every approved request whose node is
-- ready, and leaves every other request as it is at that tick.
pub watcher_recovers :
    {W : Type 0} (lib : Library) (before : List (Tick W)) (t : Tick W)
    (conditions : String → Result String (List Condition)) (s : Store) (w : W) (id : String)
    (n : Node)
    → IsWellFormed lib s
    → All (Meanwhile lib) before
    → Meanwhile lib t
    → Serves t.client conditions
    → ((x : Node) → (t.env x).write ≡ none)
    → let now = (t.meanwhile (run before s w).1 (run before s w).2).0 in
      Visits (t.visits now) now.nodes
      → lookup id now.nodes ≡ some n
      → lookup id (run (before ++ t ∷ []) s w).1.nodes
        ≡ some (
            if is_approved n.status && is_up (conditions n.node_name)
            then record n { status = joined }
            else n)
watcher_recovers lib before t conditions s w id n wf keeps keep serves saves visits found =
    let r = run before s w in
    let (now, v) = t.meanwhile r.1 r.2 in
    let well = keep r.1 r.2 (run-IsWellFormed lib before s w keeps wf) in
    rw (run-append before t s w) (
      (ready_nodes_join t.client t.env conditions lib (t.visits now) now v id n serves saves well
        visits found).1)
