-- ===== src/Nodes/Watcher.antt =====
-- control-panel/internal/nodes/watcher.go: RunOnce, over the API server as a parameter. The loop of
-- Run calls it at each tick.
use ldndrc.Base.{
  String, Bool, false, not, ◌&&◌, ◌||◌, Option, none, some, List, [], ◌∷◌, Result, ok, err, concat,
  str_eq, if◌then◌else◌,
}
use ldndrc.Nodes.Types.{Node, Error, Store, Env}
use ldndrc.Nodes.Store.{is_approved, mark_joined, list_nodes}

-- A condition of a cluster node, by its type and status
pub record Condition : Type 0 where
  pub kind : String
  pub status : String

-- c.Type == corev1.NodeReady && c.Status == corev1.ConditionTrue
unfoldable pub node_ready : List Condition → Bool
node_ready [] = false
node_ready (c ∷ cs) = (str_eq c.kind "Ready" && str_eq c.status "True") || node_ready cs

-- The API server: the conditions of a node, and the merge patch that adds labels to it
pub record Client (W : Type 0) : Type 0 where
  pub get : String → W → Result String (List Condition) × W
  pub patch : String → List (String × String) → W → Option String × W

unfoldable pub host_labels : List (String × String)
host_labels = ("node-role.kubernetes.io/role", "host") ∷ ("ldndrc/host", "true") ∷ []

-- The errors of RunOnce: of the patch, and of MarkJoined
pub data WatchError : Type 0 where
  label_failed : String → WatchError
  join_failed : Error → WatchError

abbrev pub join_error {ℓ} : {A : Type ℓ} → Result Error A → Option WatchError
join_error (ok a) = none
join_error (err e) = some (join_failed e)

module _ {W : Type 0} (client : Client W) (env : Node → Env) where
  -- The end of a round: the labels, and MarkJoined
  unfoldable pub label_and_join : Node → Store → W → Option WatchError × Store × W
  label_and_join n s w =
      let (refused, w') = client.patch n.node_name host_labels w in
      elim refused [
        | some e ↦
            (some (label_failed (concat ("label node " ∷ n.node_name ∷ ": " ∷ e ∷ []))), s, w')
        | none ↦ (let (r, s') = mark_joined (env n) n.id s in (join_error r, s', w'))
      ]

  -- One round, on an approved node; a node that is not in the cluster, or not ready, is left.
  unfoldable pub visit : Node → Store → W → Option WatchError × Store × W
  visit n s w =
      let (found, w') = client.get n.node_name w in
      elim found [
        | err e ↦ (none, s, w')
        | ok conditions ↦
            if not (node_ready conditions) then (none, s, w') else label_and_join n s w'
      ]

  -- The loop of RunOnce, which ends at the first error
  unfoldable pub watch_all : List Node → Store → W → Option WatchError × Store × W
  watch_all [] s w = (none, s, w)
  watch_all (n ∷ ns) s w =
      let (failed, s', w') = if not (is_approved n.status) then (none, s, w) else visit n s w in
      elim failed [ some e ↦ (some e, s', w') | none ↦ watch_all ns s' w' ]

  -- RunOnce; `visited` are the nodes in the order of List.
  unfoldable pub run_once : List (String × Node) → Store → W → Option WatchError × Store × W
  run_once visited s w = watch_all (list_nodes visited) s w

-- A tick of Run: what the other requests have done to the store and the cluster since the last one,
-- the API server as it answers now, the order in which List visits the nodes, and the environments
-- of the saves
pub record Tick (W : Type 0) : Type 0 where
  pub meanwhile : Store → W → Store × W
  pub client : Client W
  pub visits : Store → List (String × Node)
  pub env : Node → Env

abbrev logged : Option WatchError → List WatchError → List WatchError
logged none log = log
logged (some e) log = e ∷ log

-- Run, until its context is done after these ticks: the errors that it logs, and what it leaves
unfoldable pub run : {W : Type 0} → List (Tick W) → Store → W → List WatchError × Store × W
run [] s w = ([], s, w)
run (t ∷ ts) s w =
    let (s1, w1) = t.meanwhile s w in
    let (failed, s2, w2) = run_once t.client t.env (t.visits s1) s1 w1 in
    let (log, s3, w3) = run ts s2 w2 in (logged failed log, s3, w3)
