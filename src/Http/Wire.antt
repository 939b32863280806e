-- ===== src/Http/Wire.antt =====
-- What crosses the network at the control panel: the JSON that writeJSON of
-- control-panel/internal/httpapi/router.go writes, with the tags of sessions.Session and nodes.Node,
-- and the bodies that the login and the registration read. A text of JSON stands as the value that
-- it encodes. encoding/json writes the keys of a map in their order.
use ldndrc.Base.{ℕ, String, List, [], ◌∷◌, ◌++◌, Result, str_eq, if◌then◌else◌, pos}
use ldndrc.Base.Json.{Json, string, number, integer, real, obj, arr}
use ldndrc.Base.Decode.{
  Numbers, Decoded, same_key, string_field, int_field, float_field, decode_struct,
}
use ldndrc.Base.Float.{Float64}
use ldndrc.Http.Types.{
  Body, failure, health, received, login, session, sessions, node_status, nodes, poll_status,
  poll_reason, poll_token,
}
use ldndrc.Http.Sessions
use ldndrc.Http.Nodes.{status_text, Registration}
use ldndrc.Nodes.Types.{Node}
use ldndrc.Sessions.Types.{Session}

-- time.Time's MarshalJSON
abbrev pub Clock : Type 0
Clock = ℕ → String

-- A field with omitempty
optional : String → String → List (String × Json)
optional key value = if str_eq value "" then [] else (key, string value) ∷ []

module _ (clock : Clock) where
  unfoldable pub session_json : Session → Json
  unfolding optional
  session_json x = obj (
      (("id", string x.id)
        ∷ ("username", string x.username)
        ∷ ("workloadName", string x.workload_name)
        ∷ ("serviceName", string x.service_name)
        ∷ ("rosDomainId", number x.ros_domain_id)
        ∷ ("status", string (Sessions.status_text x.status))
        ∷ [])
      ++ (optional "nodeName" x.node_name
          ++ (optional "error" x.message
              ++ (("createdAt", string (clock x.created_at))
                  ∷ ("updatedAt", string (clock x.updated_at))
                  ∷ []))))

  -- omitempty leaves a time in, whose zero value is a struct.
  unfoldable pub node_json : Node → Json
  unfolding optional
  node_json n = obj (
      (("id", string n.id)
        ∷ ("hostname", string n.hostname)
        ∷ ("os", string n.os)
        ∷ ("arch", string n.arch)
        ∷ ("cpu", integer n.cpu)
        ∷ ("ram_gb", real n.ram_gb)
        ∷ ("gpu", string n.gpu)
        ∷ ("status", string (status_text n.status))
        ∷ ("node_name", string n.node_name)
        ∷ [])
      ++ (optional "reason" n.reason
          ++ ((("requested_at", string (clock n.requested))
                ∷ ("approved_at", string (clock n.approved_at))
                ∷ [])
              ++ (optional "token_id" n.token_id
                  ++ (("minted_at", string (clock n.minted_at)) ∷ [])))))

  unfoldable pub sessions_json : List Session → List Json
  sessions_json [] = []
  sessions_json (x ∷ xs) = session_json x ∷ sessions_json xs

  unfoldable pub nodes_json : List Node → List Json
  nodes_json [] = []
  nodes_json (n ∷ ns) = node_json n ∷ nodes_json ns

  -- What writeJSON encodes
  unfoldable pub encode : Body → Json
  encode (failure e) = obj (("error", string e) ∷ [])
  encode health = obj (("status", string "ok") ∷ [])
  encode received = obj (("status", string "received") ∷ [])
  encode (login token csrf) = obj (("csrf_token", string csrf) ∷ ("token", string token) ∷ [])
  encode (session x) = obj (("session", session_json x) ∷ [])
  encode (sessions xs) = obj (("sessions", arr (sessions_json xs)) ∷ [])
  encode (node_status id s) = obj (("id", string id) ∷ ("status", string (status_text s)) ∷ [])
  encode (nodes ns) = obj (("nodes", arr (nodes_json ns)) ∷ [])
  encode (poll_status s) = obj (("status", string (status_text s)) ∷ [])
  encode (poll_reason s reason) =
      obj (("reason", string reason) ∷ ("status", string (status_text s)) ∷ [])
  encode (poll_token s url token name) = obj (
      ("k3s_token", string token)
      ∷ ("k3s_url", string url)
      ∷ ("node_name", string name)
      ∷ ("status", string (status_text s))
      ∷ [])

-- The body of a login: the user name and the password
unfoldable pub login_field :
    Numbers → String → Json → Decoded (String × String) → Decoded (String × String)
login_field numbers k v d =
    if same_key k "username"
    then string_field numbers "username" (λ a s. (s, a.1)) v d
    else if same_key k "password"
    then string_field numbers "password" (λ a s. (a.0, s)) v d
    else d

unfoldable pub read_login : Numbers → Json → Result String (String × String)
read_login numbers v = decode_struct numbers (login_field numbers) ("", "") v

unfoldable pub zero_registration : Registration
zero_registration = record {
  profile = record {
    hostname = "";
    os = "";
    arch = "";
    cpu = pos 0;
    ram_gb = Float64.pos 0;
    gpu = "";
  };
  join_key = "";
}

-- The body of a registration
unfoldable pub registration_field :
    Numbers → String → Json → Decoded Registration → Decoded Registration
registration_field numbers k v d =
    if same_key k "hostname"
    then string_field numbers "hostname"
        (λ r s. record r { profile = record r.profile { hostname = s } }) v d
    else if same_key k "os"
    then string_field numbers "os" (λ r s. record r { profile = record r.profile { os = s } }) v d
    else if same_key k "arch"
    then string_field numbers "arch" (λ r s. record r { profile = record r.profile { arch = s } }) v
        d
    else if same_key k "cpu"
    then int_field numbers "cpu" (λ r z. record r { profile = record r.profile { cpu = z } }) v d
    else if same_key k "ram_gb"
    then float_field numbers "ram_gb"
        (λ r x. record r { profile = record r.profile { ram_gb = x } }) v d
    else if same_key k "gpu"
    then string_field numbers "gpu" (λ r s. record r { profile = record r.profile { gpu = s } }) v d
    else if same_key k "join_key"
    then string_field numbers "join_key" (λ r s. record r { join_key = s }) v d
    else d

unfoldable pub read_registration : Numbers → Json → Result String Registration
read_registration numbers v = decode_struct numbers (registration_field numbers) zero_registration v
