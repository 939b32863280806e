-- ===== src/Server/Examples.antt =====
-- The start at work: the cluster has lost the workloads of both sessions on the disk.
use ldndrc.Base.{
  ◌≡◌, refl, String, false, not, ◌&&◌, none, some, [], Result, ok, err, pos, if◌then◌else◌,
}
use ldndrc.Base.Map.{lookup}
use ldndrc.Sessions.Types.{saved, stopped}
use ldndrc.Sessions.Invariant.{IsWellFormed}
use ldndrc.Sessions.Load.{new_store_with_path}
use ldndrc.Sessions.Methods.{is_live}
use ldndrc.Sessions.Status.{restatus}
use ldndrc.Sessions.Cluster.{workload_exists}
use ldndrc.Sessions.ClusterExamples.{Objects, server, empty}
use ldndrc.Sessions.Examples.{with_both, both_well, both_visited, alice, alice_found, later_env}
use ldndrc.Nodes.Types
use ldndrc.Nodes.Store.{new_store}
use ldndrc.Nodes.Examples.{lib, asked, asked_well}
use ldndrc.Nodes.Reload
use ldndrc.Nodes.Invariant
use ldndrc.Server.Start.{
  Vars, System, Started, load_sessions, load_nodes, backend_of, in_cluster, provisioner_client,
  kube_client, parse_port, start_parts, start,
}
use ldndrc.Server.Restart.{restart_in_cluster}

abbrev pub vars : Vars
vars = record {
  port = "";
  jwt_secret = "s3cret";
  sessions_db = "";
  nodes_db = "";
  service_host = "10.43.0.1";
  in_cluster = "";
  namespace = "";
  image = "";
  storage = "";
  gpu_limit = "";
  advertise = none;
}

abbrev pub sys : System Objects
sys = record {
  session_file = λ path. saved with_both.sessions;
  node_file = λ path. Types.saved asked.nodes;
  lib = lib;
  config = none;
  dynamic_client = ok server;
  kube_client = ok (λ secret w. (none, w));
  mint_env = record {
    random_id = err "none";
    random_secret = err "none";
    now = 0;
    ca_file = err "none";
  };
  cluster = empty;
  visits = λ t. t.sessions;
  env = λ x. later_env;
  atoi = λ s. ok (pos 8082);
  quoted = λ s. s;
}

-- What the start serves, if it does
abbrev pub served : Started Objects → Result String (Started Objects) → Started Objects
served other (ok st) = st
served other (err e) = other

abbrev pub nothing : Started Objects
nothing = record {
  backend = record { sessions = with_both; provisioner = none; minter = none; is_watching = false };
  nodes = record { nodes = []; by_fingerprint = []; file = Types.absent };
  port = pos 0;
  advertises = false;
}

started : start vars sys ≡ ok (served nothing (start vars sys))
unfolding start start_parts load_sessions load_nodes backend_of in_cluster provisioner_client
    kube_client parse_port new_store_with_path new_store
started = refl

pub nodes_saved : Reload.WellSaved lib (Types.saved asked.nodes)
nodes_saved =
    Reload.saved_by asked asked.nodes refl asked_well
      (record { once = asked_well.unique; same = λ k. refl })

restart_in_cluster_example :
    IsWellFormed (served nothing (start vars sys)).backend.sessions
    × (lookup "010203" (served nothing (start vars sys)).backend.sessions.sessions
        ≡ some (
            if is_live alice.status && not (workload_exists server alice empty).0
            then restatus later_env stopped "workload gone at restart" alice
            else alice))
    × Invariant.IsWellFormed lib (served nothing (start vars sys)).nodes
    × ((k : String) → lookup k (served nothing (start vars sys)).nodes.nodes ≡ lookup k asked.nodes)
restart_in_cluster_example =
    restart_in_cluster vars sys (served nothing (start vars sys)) server with_both
      with_both.sessions asked asked.nodes "010203" alice refl started refl refl both_well
      both_visited refl asked_well (record { once = asked_well.unique; same = λ k. refl })
      (λ t wf. record { once = wf.unique; same = λ k. refl }) alice_found
