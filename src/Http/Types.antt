-- ===== src/Http/Types.antt =====
-- The answers of the API, and what its handlers share.
use ldndrc.Base.{ℕ, String, List}
use ldndrc.Nodes.Types.{Node}
use ldndrc.Nodes.Types
use ldndrc.Sessions.Types.{Session}

-- The JSON objects that the handlers write, by the keys that they have
pub data Body : Type 0 where
  -- {"error": …}
  failure : String → Body
  -- {"status": …}, of the health check and of the diagnostics upload
  health received : Body
  -- {"token": …, "csrf_token": …}
  login : String → String → Body
  -- {"session": …} and {"sessions": […]}
  session : Session → Body
  sessions : List Session → Body
  -- {"id": …, "status": …} and {"nodes": […]}
  node_status : String → Types.Status → Body
  nodes : List Node → Body
  -- {"status": …}, {"status": …, "reason": …}
  poll_status : Types.Status → Body
  poll_reason : Types.Status → String → Body
  -- {"status": …, "k3s_url": …, "k3s_token": …, "node_name": …}
  poll_token : Types.Status → String → String → String → Body

-- writeJSON; the status code is the HTTP one
pub record Response : Type 0 where
  pub code : ℕ
  pub body : Body

unfoldable pub write_json : ℕ → Body → Response
write_json code body = record { code = code; body = body }

unfoldable pub unauthorized : Response
unauthorized = write_json 401 (failure "unauthorized")
