-- ===== src/Sessions/Types.antt =====
-- The data of control-panel/internal/sessions/store.go.
use ldndrc.Base.{ℕ, String, Bool, Option, List, Result}
use ldndrc.Base.Map.{Map}

-- `other` is any further string that a hand-written file may hold.
pub data Status : Type 0 where
  provisioning ready stopping stopped error : Status
  other : String → Status

-- A time is in nanoseconds since year 1; 0 is Go's zero time.
pub record Session : Type 0 where
  pub id : String
  pub username : String
  pub workload_name : String
  pub service_name : String
  pub ros_domain_id : ℕ
  pub status : Status
  pub node_name : String
  pub message : String
  pub created_at : ℕ
  pub updated_at : ℕ

-- Go's zero value, which a read of a missing key returns.
abbrev pub zero_session : Session
zero_session = record {
  id = "";
  username = "";
  workload_name = "";
  service_name = "";
  ros_domain_id = 0;
  status = other "";
  node_name = "";
  message = "";
  created_at = 0;
  updated_at = 0;
}

-- The errors by name; a wrapped error carries the text of its cause.
pub data Error : Type 0 where
  session_exists not_found forbidden username_required no_domain_ids : Error
  invalid_status : Status → Status → Error
  generate_id persist provision readiness delete_failed : String → Error

-- The file at the store's path. JSON is modelled by the value that it encodes.
pub data File : Type 0 where
  absent : File
  unreadable : String → File
  corrupt : String → File
  saved : Map Session → File

-- `file` is the file at `path`, which the operations write.
pub record Store : Type 0 where
  pub path : String
  pub sessions : Map Session
  pub by_user : Map String
  pub file : File

-- What the outside answers during one locked section: the clock, crypto/rand, and the write of the
-- file, which may fail with an error and leave the file as it happens to be.
pub record Env : Type 0 where
  pub now : ℕ
  pub random : Result String (List ℕ)
  pub write : Option (String × File)

-- The interfaces Provisioner and, where it is implemented, StatusProvider, over a cluster state.
pub record Provisioner (W : Type 0) : Type 0 where
  pub apply : Session → W → Option String × W
  pub delete : Session → W → Option String × W
  pub ready : Option (Session → W → Result String Bool × W)
