-- ===== src/Nodes/WatchExamples.antt =====
-- The watcher at work: an approved laptop is ready in the cluster.
use ldndrc.Nodes.Running.{watcher_recovers}
use ldndrc.Nodes.Watcher.{Tick, run, watch_all, visit}
use ldndrc.Nodes.Store.{list_nodes}
use ldndrc.Base.{
  ◌≡◌, refl, String, ℕ, ◌&&◌, none, some, List, [], ◌∷◌, Result, ok, err, if◌then◌else◌, hex_encode,
}
use ldndrc.Base.Float.{fle, of_int}
use ldndrc.Base.Map.{lookup, put, Visits}
use ldndrc.Nodes.Types.{Node, Env, Store, joined}
use ldndrc.Nodes.Store.{
  is_approved, register, is_invalid, fingerprint, new_id, insert_node, save_locked, new_node,
  approve, save_node, approve_node,
}
use ldndrc.Nodes.Watcher.{Condition, Client, run_once}
use ldndrc.Nodes.Watching.{Serves, is_up}
use ldndrc.Nodes.Examples.{lib, later_env, asked, node, asked_reached, empty_well, no_id}
use ldndrc.Nodes.Invariant.{IsWellFormed, IsWellFormed-Reach}
use ldndrc.Nodes.Steps.{step, approves, next}

-- An API server on which each node is ready
abbrev up : String → Result String (List Condition)
up name = ok (record { kind = "Ready"; status = "True" } ∷ [])

abbrev server : Client ℕ
server = record { get = λ name w. (up name, w); patch = λ name labels w. (none, w) }

server-Serves : Serves server up
server-Serves = record { answers = λ name w. refl; labels = λ name w. refl }

abbrev quiet_env : Env
quiet_env = record later_env { write = none }

abbrev pub store : Store
store = step lib quiet_env (approves "010203") asked

pub store_well : IsWellFormed lib store
store_well = IsWellFormed-Reach (next quiet_env (approves "010203") asked_reached no_id) empty_well

abbrev pub approved_node : Node
approved_node = approve_node quiet_env node

approved_found : lookup "010203" store.nodes ≡ some approved_node
unfolding step register is_invalid fingerprint new_id hex_encode lookup put insert_node save_locked
    new_node fle of_int approve save_node
approved_found = refl

all_visited : Visits store.nodes store.nodes
all_visited = record { once = store_well.unique; same = λ k. refl }

-- A round while the API server is away, and a round behind it
abbrev broken : Tick ℕ
broken = record {
  meanwhile = λ s w. (s, w);
  client = record {
    get = λ name w. (err "connection refused", w);
    patch = λ name labels w. (some "connection refused", w);
  };
  visits = λ s. s.nodes;
  env = λ x. quiet_env;
}

abbrev healed : Tick ℕ
healed = record {
  meanwhile = λ s w. (s, w);
  client = server;
  visits = λ s. s.nodes;
  env = λ x. quiet_env;
}

broken_left : (run (broken ∷ []) store 0).1 ≡ store
unfolding run run_once watch_all visit list_nodes step register is_invalid fingerprint new_id
    hex_encode lookup put insert_node save_locked new_node fle of_int approve save_node
broken_left = refl

watcher_recovers_example :
    lookup "010203" (run (broken ∷ healed ∷ []) store 0).1.nodes
    ≡ some (
        if is_approved approved_node.status && is_up (up approved_node.node_name)
        then record approved_node { status = joined }
        else approved_node)
watcher_recovers_example =
    watcher_recovers lib (broken ∷ []) healed up store 0 "010203" approved_node store_well
      ((λ s w wf. wf), tt) (λ s w wf. wf) server-Serves (λ x. refl) (rw broken_left all_visited)
      (rw broken_left approved_found)
