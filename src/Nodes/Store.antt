-- ===== src/Nodes/Store.antt =====
-- The operations of control-panel/internal/nodes/store.go.
use ldndrc.Base.{
  ℕ, ◌-◌, ◌*◌, ◌==◌, ltb, String, Bool, true, false, not, ◌&&◌, ◌||◌, Option, none, some, List, [],
  ◌∷◌, Result, ok, err, pos, lt_int, itoa, concat, hex_encode, str_eq, if◌then◌else◌,
}
use ldndrc.Base.Float.{fle, of_int}
use ldndrc.Base.Map.{lookup, put, remove}
use ldndrc.Nodes.Types.{
  Status, pending, approved, denied, joined, expired, Node, Profile, Error, not_found,
  invalid_input, nil_dereference, invalid_status, generate_id, save_failed, File, absent,
  unreadable, corrupt, saved, Store, Env, Library,
}

-- TokenTTL: 15 minutes, in nanoseconds
abbrev pub token_ttl : ℕ
token_ttl = 15 * 60 * 1000000000

-- The text that fingerprint hashes
unfoldable pub fingerprint_text : Library → Profile → String
fingerprint_text lib p = concat (
    p.hostname
    ∷ "|"
    ∷ p.os
    ∷ "|"
    ∷ p.arch
    ∷ "|"
    ∷ itoa p.cpu
    ∷ "|"
    ∷ lib.show_float p.ram_gb
    ∷ "|"
    ∷ p.gpu
    ∷ [])

unfoldable pub fingerprint : Library → Profile → String
fingerprint lib p = hex_encode (lib.sha256 (fingerprint_text lib p))

-- The fields of a node that its fingerprint is made from
abbrev pub profile : Node → Profile
profile n = record {
  hostname = n.hostname;
  os = n.os;
  arch = n.arch;
  cpu = n.cpu;
  ram_gb = n.ram_gb;
  gpu = n.gpu;
}

-- saveLocked
unfoldable pub save_locked : Env → Store → Option String × Store
save_locked env s = elim env.write [
  | none ↦ (none, record s { file = saved s.nodes })
  | some e ↦ (some e, s)
]

-- A save behind a change that stands in memory whatever the save answers
unfoldable pub save_node : Env → String → Node → Store → Result Error Node × Store
save_node env id n s =
    let (failed, s') = save_locked env (record s { nodes = put id n s.nodes }) in
    elim failed [ none ↦ (ok n, s') | some e ↦ (err (save_failed e), s') ]

-- newID
unfoldable pub new_id : Result String (List ℕ) → Result Error String
new_id (ok bytes) = ok (hex_encode bytes)
new_id (err e) = err (generate_id e)

-- hostname == "" || cpu <= 0 || ramGB <= 0
unfoldable pub is_invalid : Profile → Bool
is_invalid p = str_eq p.hostname "" || lt_int p.cpu (pos 1) || fle p.ram_gb (of_int 0)

unfoldable pub new_node : Env → Profile → String → Node
new_node env p id = record {
  id = id;
  hostname = p.hostname;
  os = p.os;
  arch = p.arch;
  cpu = p.cpu;
  ram_gb = p.ram_gb;
  gpu = p.gpu;
  status = pending;
  node_name = concat ("ldndrc-" ∷ id ∷ []);
  reason = "";
  requested = env.now;
  approved_at = 0;
  token_id = "";
  minted_at = 0;
}

-- The last part of Register: the two writes, the save, and its roll-back
unfoldable pub insert_node : Env → String → Node → Store → Result Error (Node × Bool) × Store
insert_node env fp n s =
    let added : Store = record s {
      nodes = put n.id n s.nodes;
      by_fingerprint = put fp n.id s.by_fingerprint;
    } in
    let (failed, s') = save_locked env added in
    elim failed [
      | none ↦ (ok (n, true), s')
      | some e ↦ (
        err (save_failed e),
        record s' { nodes = remove n.id s'.nodes; by_fingerprint = remove fp s'.by_fingerprint },
      )
    ]

-- *s.nodes[id], as Register answers it for a laptop that is known
unfoldable pub known_node : Option Node → Result Error (Node × Bool)
known_node none = err nil_dereference
known_node (some n) = ok (n, false)

-- Register
unfoldable pub register : Library → Env → Profile → Store → Result Error (Node × Bool) × Store
register lib env p s =
    if is_invalid p
    then (err invalid_input, s)
    else elim (lookup (fingerprint lib p) s.by_fingerprint) [
      | some id ↦ (known_node (lookup id s.nodes), s)
      | none ↦ elim (new_id env.random) [
        | err e ↦ (err e, s)
        | ok id ↦ insert_node env (fingerprint lib p) (new_node env p id) s
      ]
    ]

-- Get
unfoldable pub get : String → Store → Result Error Node
get id s = elim (lookup id s.nodes) [ none ↦ err not_found | some n ↦ ok n ]

-- List, when its loop visits the nodes in the order `visited`
unfoldable pub list_nodes : List (String × Node) → List Node
list_nodes [] = []
list_nodes ((k, n) ∷ m) = n ∷ list_nodes m

-- n.Status == StatusPending || n.Status == StatusExpired
abbrev pub can_approve : Status → Bool
can_approve pending = true
can_approve expired = true
can_approve _ = false

abbrev pub is_pending : Status → Bool
is_pending pending = true
is_pending _ = false

abbrev pub is_approved : Status → Bool
is_approved approved = true
is_approved _ = false

abbrev pub approve_node : Env → Node → Node
approve_node env n = record n {
  status = approved;
  approved_at = env.now;
  token_id = "";
  minted_at = 0;
  reason = "";
}

-- Approve
unfoldable pub approve : Env → String → Store → Result Error Node × Store
approve env id s = elim (lookup id s.nodes) [
  | none ↦ (err not_found, s)
  | some n ↦
      if not (can_approve n.status)
      then (err (invalid_status "approve" n.status), s)
      else save_node env id (approve_node env n) s
]

-- Deny
unfoldable pub deny : Env → String → String → Store → Result Error Node × Store
deny env id reason s = elim (lookup id s.nodes) [
  | none ↦ (err not_found, s)
  | some n ↦
      if not (is_pending n.status)
      then (err (invalid_status "deny" n.status), s)
      else save_node env id (record n { status = denied; reason = reason }) s
]

-- MarkMinted
unfoldable pub mark_minted : Env → String → String → Store → Result Error Node × Store
mark_minted env id token_id s = elim (lookup id s.nodes) [
  | none ↦ (err not_found, s)
  | some n ↦ save_node env id (record n { token_id = token_id; minted_at = env.now }) s
]

-- MarkJoined
unfoldable pub mark_joined : Env → String → Store → Result Error Node × Store
mark_joined env id s = elim (lookup id s.nodes) [
  | none ↦ (err not_found, s)
  | some n ↦
      if not (is_approved n.status)
      then (err (invalid_status "join" n.status), s)
      else save_node env id (record n { status = joined }) s
]

-- n.Status == StatusApproved && !n.MintedAt.IsZero() && now.Sub(n.MintedAt) > TokenTTL
unfoldable pub is_elapsed : ℕ → Node → Bool
is_elapsed now n =
    is_approved n.status && not (n.minted_at == 0) && ltb token_ttl (now - n.minted_at)

-- ExpireIfElapsed
unfoldable pub expire_if_elapsed : Env → String → ℕ → Store → Result Error Bool × Store
expire_if_elapsed env id now s = elim (lookup id s.nodes) [
  | none ↦ (err not_found, s)
  | some n ↦
      if is_elapsed now n
      then (let (r, s') = save_node env id (record n { status = expired }) s in
          elim r [ ok n' ↦ (ok true, s') | err e ↦ (err e, s') ])
      else (ok false, s)
]

-- The loop of NewStore, over the saved nodes in the order in which they are visited
unfoldable pub load_nodes : Library → List (String × Node) → Store → Store
load_nodes lib [] s = s
load_nodes lib ((id, n) ∷ m) s = load_nodes lib m (record s {
  nodes = put id n s.nodes;
  by_fingerprint = put (fingerprint lib (profile n)) id s.by_fingerprint;
})

-- NewStore
unfoldable pub new_store : Library → File → Result String Store
unfolding load_nodes
new_store lib file =
    let empty : Store = record { nodes = []; by_fingerprint = []; file = file } in
    elim file [
      | absent ↦ ok empty
      | unreadable e ↦ err (concat ("read nodes db: " ∷ e ∷ []))
      | corrupt e ↦ err (concat ("parse nodes db: " ∷ e ∷ []))
      | saved m ↦ ok (load_nodes lib m empty)
    ]
