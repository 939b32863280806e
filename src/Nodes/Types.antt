-- ===== src/Nodes/Types.antt =====
-- The data of control-panel/internal/nodes/store.go.
use ldndrc.Base.{ℕ, String, List, Option, Result, ℤ}
use ldndrc.Base.Float.{Float64}
use ldndrc.Base.Map.{Map}

-- `other` is any further string that a hand-written file may hold.
pub data Status : Type 0 where
  pending approved denied joined expired : Status
  other : String → Status

-- A time is in nanoseconds since year 1; 0 is Go's zero time.
pub record Node : Type 0 where
  pub id : String
  pub hostname : String
  pub os : String
  pub arch : String
  pub cpu : ℤ
  pub ram_gb : Float64
  pub gpu : String
  pub status : Status
  pub node_name : String
  pub reason : String
  pub requested : ℕ
  pub approved_at : ℕ
  pub token_id : String
  pub minted_at : ℕ

-- The arguments of Register: what a laptop says of itself.
pub record Profile : Type 0 where
  pub hostname : String
  pub os : String
  pub arch : String
  pub cpu : ℤ
  pub ram_gb : Float64
  pub gpu : String

-- `invalid_status` carries the verb of its message; `nil_dereference` is the panic of `*s.nodes[id]`
-- at a missing key.
pub data Error : Type 0 where
  not_found invalid_input nil_dereference : Error
  invalid_status : String → Status → Error
  generate_id save_failed : String → Error

pub data File : Type 0 where
  absent : File
  unreadable corrupt : String → File
  saved : Map Node → File

-- `file` is the file at the store's path.
pub record Store : Type 0 where
  pub nodes : Map Node
  pub by_fingerprint : Map String
  pub file : File

-- What the outside answers during one locked section. A save that fails leaves the file alone: it
-- writes a temporary file and renames it.
pub record Env : Type 0 where
  pub now : ℕ
  pub random : Result String (List ℕ)
  pub write : Option String

-- crypto/sha256 and fmt's `%f`
pub record Library : Type 0 where
  pub sha256 : String → List ℕ
  pub show_float : Float64 → String
