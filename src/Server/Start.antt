-- ===== src/Server/Start.antt =====
-- main of control-panel/cmd/server/main.go, up to the server that listens. The two stores are read
-- from files; the clients of Kubernetes, strconv.Atoi and fmt's %q are parameters.
use ldndrc.Base.{
  ℤ, String, Bool, true, false, ◌||◌, not, Option, none, some, List, [], ◌∷◌, Result, ok, err,
  concat, str_eq, if◌then◌else◌,
}
use ldndrc.Sessions.Types.{Session, Provisioner}
use ldndrc.Sessions.Types as SessionTypes
use ldndrc.Sessions.Load.{new_store_with_path}
use ldndrc.Sessions.Methods.{reconcile}
use ldndrc.Sessions.Manifests.{provisioner_settings}
use ldndrc.Sessions.Cluster.{Client, workload_exists, kubernetes_provisioner}
use ldndrc.Nodes.Types.{Library}
use ldndrc.Nodes.Types
use ldndrc.Nodes.Store.{new_store}
use ldndrc.Nodes.Tokens.{Minter, Secret, MintEnv, bootstrap_minter}

-- The environment variables that main reads, "" where one is not set; ADVERTISE_MDNS by LookupEnv
pub record Vars : Type 0 where
  pub port : String
  pub jwt_secret : String
  pub sessions_db : String
  pub nodes_db : String
  pub service_host : String
  pub in_cluster : String
  pub namespace : String
  pub image : String
  pub storage : String
  pub gpu_limit : String
  pub advertise : Option String

-- The system that the process starts on: the files, what rest.InClusterConfig, dynamic.NewForConfig
-- and kubernetes.NewForConfig answer, the cluster, the order in which Reconcile visits the sessions,
-- and the environments of its writes
pub record System (W : Type 0) : Type 0 where
  pub session_file : String → SessionTypes.File
  pub node_file : String → Types.File
  pub lib : Library
  pub config : Option String
  pub dynamic_client : Result String (Client W)
  pub kube_client : Result String (Secret → W → Option String × W)
  pub mint_env : MintEnv
  pub cluster : W
  pub visits : SessionTypes.Store → List (String × Session)
  pub env : Session → SessionTypes.Env
  pub atoi : String → Result String ℤ
  pub quoted : String → String

-- The session store and what serves it, and what else runs in a cluster
pub record Backend (W : Type 0) : Type 0 where
  pub sessions : SessionTypes.Store
  pub provisioner : Option (Provisioner W)
  pub minter : Option (Minter W)
  pub is_watching : Bool

-- What main serves, and whether it advertises the port
pub record Started (W : Type 0) : Type 0 where
  pub backend : Backend W
  pub nodes : Types.Store
  pub port : ℤ
  pub advertises : Bool

abbrev pub default_to : String → String → String
default_to fallback value = if str_eq value "" then fallback else value

abbrev pub is_in_cluster : Vars → Bool
is_in_cluster vars = not (str_eq vars.service_host "") || str_eq vars.in_cluster "true"

abbrev pub sessions_path : Vars → String
sessions_path vars = default_to "/var/lib/ldndrc/sessions.json" vars.sessions_db

abbrev pub nodes_path : Vars → String
nodes_path vars = default_to "/var/lib/ldndrc/nodes.json" vars.nodes_db

-- advertiseMDNS
unfoldable pub advertise_mdns : Option String → Bool
advertise_mdns none = true
advertise_mdns (some v) = str_eq v "true" || str_eq v "1"

-- log.Fatalf, with what stands before the error
abbrev pub fatal : {A : Type 0} → String → Result String A → Result String A
fatal text (ok a) = ok a
fatal text (err e) = err (concat (text ∷ ": " ∷ e ∷ []))

abbrev pub and_then : {A B : Type 0} → Result String A → (A → Result String B) → Result String B
and_then (ok a) k = k a
and_then (err e) k = err e

module _ {W : Type 0} (vars : Vars) (sys : System W) where
  unfoldable pub load_sessions : Result String SessionTypes.Store
  load_sessions =
      fatal "load sessions db"
        (new_store_with_path (sessions_path vars) (sys.session_file (sessions_path vars)))

  unfoldable pub load_nodes : Result String Types.Store
  load_nodes = fatal "load nodes db" (new_store sys.lib (sys.node_file (nodes_path vars)))

  -- NewInClusterProvisioner, by its client
  unfoldable pub provisioner_client : Result String (Client W)
  provisioner_client = elim sys.config [
    | some e ↦ err (concat ("load in-cluster Kubernetes config: " ∷ e ∷ []))
    | none ↦ fatal "create Kubernetes client" sys.dynamic_client
  ]

  -- The client of the minter and the watcher
  unfoldable pub kube_client : Result String (Secret → W → Option String × W)
  kube_client = elim sys.config [
    | some e ↦ err (concat ("load in-cluster Kubernetes config: " ∷ e ∷ []))
    | none ↦ fatal "create Kubernetes client" sys.kube_client
  ]

  -- The sessions after Reconcile with WorkloadExists
  unfoldable pub reconciled : Client W → SessionTypes.Store → SessionTypes.Store
  reconciled client s =
      (reconcile (sys.visits s) (λ x. (workload_exists client x sys.cluster).0) sys.env s).2

  -- The part inside the cluster
  unfoldable pub in_cluster : Result String (Backend W)
  in_cluster =
      and_then (fatal "configure Kubernetes session provisioner" provisioner_client) (λ client.
        and_then load_sessions (λ s. and_then kube_client (λ create_secret. ok (record {
          sessions = reconciled client s;
          provisioner = some (
              kubernetes_provisioner client (
                provisioner_settings (default_to "ldndrc" vars.namespace)
                  (default_to "ldndrc/ros2-gz:jazzy-harmonic-workspace" vars.image) vars.storage
                  vars.gpu_limit));
          minter = some (bootstrap_minter sys.lib create_secret sys.mint_env);
          is_watching = true;
        }))))

  abbrev standalone : SessionTypes.Store → Backend W
  standalone s = record { sessions = s; provisioner = none; minter = none; is_watching = false }

  unfoldable pub backend_of : SessionTypes.Store → Result String (Backend W)
  backend_of s = if is_in_cluster vars then in_cluster else ok (standalone s)

  -- strconv.Atoi of the port
  unfoldable pub parse_port : Result String ℤ
  parse_port =
      let port = default_to "8082" vars.port in
      fatal (concat ("invalid CONTROL_PANEL_PORT " ∷ sys.quoted port ∷ [])) (sys.atoi port)

  -- The part of main behind the test of JWT_SECRET
  unfoldable pub start_parts : Result String (Started W)
  start_parts = and_then load_sessions (λ s. and_then load_nodes (λ nodes.
      and_then (backend_of s) (λ backend. and_then parse_port (λ port. ok (record {
        backend = backend;
        nodes = nodes;
        port = port;
        advertises = advertise_mdns vars.advertise;
      })))))

  -- main: what it serves, or the text with which it ends
  unfoldable pub start : Result String (Started W)
  start = if str_eq vars.jwt_secret "" then err "JWT_SECRET must be set" else start_parts
