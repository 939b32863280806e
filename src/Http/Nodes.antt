-- ===== src/Http/Nodes.antt =====
-- The node handlers of control-panel/internal/httpapi/router.go, but the poll.
use text.Mathlib.Text.{find?}
use ldndrc.Base.{
  ℕ, String, Bool, true, false, not, ◌&&◌, Option, none, some, List, [], ◌∷◌, Result, ok, err,
  concat, str_eq, if◌then◌else◌,
}
use ldndrc.Http.Types.{failure, received, node_status, nodes, Response, write_json, unauthorized}
use ldndrc.Http.Limiter.{Limiter, allow}
use ldndrc.Nodes.Types.{
  Status, pending, approved, denied, joined, expired, other, Node, Profile, Error, not_found,
  invalid_input, nil_dereference, invalid_status, generate_id, save_failed, Store, Env, Library,
}
use ldndrc.Nodes.Store.{register, list_nodes, approve, deny}
use ldndrc.Base.Map.{lookup}

abbrev pub status_text : Status → String
status_text pending = "pending"
status_text approved = "approved"
status_text denied = "denied"
status_text joined = "joined"
status_text expired = "expired"
status_text (other s) = s

abbrev pub error_text : Error → String
error_text not_found = "node not found"
error_text invalid_input = "hostname, cpu and ram_gb are required"
error_text nil_dereference = "invalid memory address or nil pointer dereference"
error_text (invalid_status verb s) =
    concat ("invalid node status transition: cannot " ∷ verb ∷ " from " ∷ status_text s ∷ [])
error_text (generate_id e) = e
error_text (save_failed e) = e

-- writeNodeError
unfoldable pub write_node_error : Error → Response
write_node_error not_found = write_json 404 (failure (error_text not_found))
write_node_error e = write_json 409 (failure (error_text e))

-- JOIN_KEY, AUTO_APPROVE == "true" and K3S_JOIN_URL
pub record Settings : Type 0 where
  pub join_key : String
  pub auto_approve : Bool
  pub join_url : String

-- The answer of POST /api/nodes/register; `created` is the second result of Register.
unfoldable pub register_response : Bool → Node → Response
register_response created n = write_json (if created then 201 else 200) (node_status n.id n.status)

-- Go's zero Node, which Approve returns beside ErrNotFound or an invalid transition, and which the
-- handler then writes. A failed save returns the node itself.
abbrev pub zero_status : Status
zero_status = other ""

-- What the handler writes after an automatic approval: the approved node, also where it could not
-- be saved, and the zero Node after any other error.
unfoldable pub approved_response : Env → Node → Store → Response × Store
approved_response env n s =
    let (r, s') = approve env n.id s in
    elim r [
      | ok n' ↦ (register_response true n', s')
      | err e ↦ elim e [
        | save_failed m ↦ (write_json 201 (node_status n.id approved), s')
        | _ ↦ (write_json 201 (node_status "" zero_status), s')
      ]
    ]

-- POST /api/nodes/register after the join key and the limiter
unfoldable pub register_node : Library → Settings → Env → Env → Profile → Store → Response × Store
register_node lib settings env later p s =
    let (r, s') = register lib env p s in
    elim r [
      | err invalid_input ↦ (write_json 400 (failure (error_text invalid_input)), s')
      | err _ ↦ (write_json 500 (failure "registration failed"), s')
      | ok (n, created) ↦
          if created && settings.auto_approve
          then approved_response later n s'
          else (register_response created n, s')
    ]

-- clientIP, on RemoteAddr and the host that net.SplitHostPort finds in it
unfoldable pub client_ip : (String → Option String) → String → String
client_ip split_host_port remote = elim (split_host_port remote) [
  | none ↦ remote
  | some host ↦ host
]

-- The decoded body of a registration
pub record Registration : Type 0 where
  pub profile : Profile
  pub join_key : String

-- POST /api/nodes/register, on the decoded body, or `none` if it does not parse
unfoldable pub post_register :
    Library
    → Settings
    → Env
    → Env
    → ℕ
    → String
    → Option Registration
    → Limiter
    → Store
    → Response × Limiter × Store
post_register lib settings env later now ip none l s =
    (write_json 400 (failure "invalid body"), l, s)
post_register lib settings env later now ip (some req) l s =
    if not (str_eq settings.join_key "") && not (str_eq req.join_key settings.join_key)
    then (write_json 403 (failure "invalid join key"), l, s)
    else let (allowed, l') = allow now ip l in
      if not allowed
      then (write_json 429 (failure "rate limit exceeded"), l', s)
      else let (r, s') = register_node lib settings env later req.profile s in (r, l', s')

-- GET /api/nodes, with the nodes in the order in which List visits them
unfoldable pub get_nodes : List (String × Node) → Option String → Response
get_nodes visited none = unauthorized
get_nodes visited (some u) = write_json 200 (nodes (list_nodes visited))

-- The answer of an approval and of a denial
unfoldable pub node_response : Result Error Node → Response
node_response (ok n) = write_json 200 (node_status n.id n.status)
node_response (err e) = write_node_error e

-- POST /api/nodes/{id}/approve
unfoldable pub post_approve : Env → String → Option String → Store → Response × Store
post_approve env id none s = (unauthorized, s)
post_approve env id (some u) s = let (r, s') = approve env id s in (node_response r, s')

-- POST /api/nodes/{id}/deny, with the reason that the body gives, or ""
unfoldable pub post_deny : Env → String → String → Option String → Store → Response × Store
post_deny env id reason none s = (unauthorized, s)
post_deny env id reason (some u) s = let (r, s') = deny env id reason s in (node_response r, s')

-- The error of SaveDiagnostics, if any: of an unknown node, or of copying the body to its file
pub data DiagnosticsError : Type 0 where
  unknown_node : DiagnosticsError
  write_failed : String → DiagnosticsError

-- SaveDiagnostics: `write` is the error of the file operations and of the body's reader.
unfoldable pub save_diagnostics : String → Option String → Store → Option DiagnosticsError
save_diagnostics id write s = elim (lookup id s.nodes) [
  | none ↦ some unknown_node
  | some n ↦ elim write [ none ↦ none | some e ↦ some (write_failed e) ]
]

-- strings.Contains(e, "request body too large")
unfoldable pub is_too_large : String → Bool
is_too_large e = elim (find? e "request body too large") [ none ↦ false | some i ↦ true ]

-- POST /api/nodes/{id}/diagnostics
unfoldable pub post_diagnostics : String → Option String → Store → Response
post_diagnostics id write s = elim (save_diagnostics id write s) [
  | none ↦ write_json 201 received
  | some unknown_node ↦ write_json 404 (failure (error_text not_found))
  | some (write_failed e) ↦
      if is_too_large e
      then write_json 413 (failure "bundle exceeds 1MB")
      else write_json 500 (failure "save failed")
]
