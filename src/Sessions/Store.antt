-- ===== src/Sessions/Store.antt =====
-- The operations of control-panel/internal/sessions/store.go. Each locked section is a function of
-- the store and of the answers of that section's environment; the provisioner acts on a cluster
-- state `W` between the sections.
use ldndrc.Base.{
  ℕ, String, Bool, true, false, not, Option, none, some, List, [], ◌∷◌, Result, ok, err, concat,
  hex_encode, str_eq, if◌then◌else◌,
}
use ldndrc.Base.Map.{Map, lookup, put, remove}
use ldndrc.Sessions.Types.{
  Status, provisioning, ready, stopping, stopped, error, Session, zero_session, Error,
  session_exists, not_found, forbidden, username_required, invalid_status, generate_id, persist,
  saved, Store, Env,
}
use ldndrc.Sessions.Domain.{is_active, next_domain_id}

-- saveLocked
unfoldable pub save_locked : Env → Store → Option String × Store
save_locked env s = if str_eq s.path "" then (none, s) else elim env.write [
  | none ↦ (none, record s { file = saved s.sessions })
  | some (e, left) ↦ (some e, record s { file = left })
]

-- s.sessions[id], with Go's zero value at a missing key
abbrev pub session_or_zero : Option Session → Session
session_or_zero none = zero_session
session_or_zero (some x) = x

-- The user's entry of byUser names a session that is neither stopped nor failed.
unfoldable pub has_active : Store → String → Bool
has_active s u = elim (lookup u s.by_user) [
  | none ↦ false
  | some id ↦ is_active (session_or_zero (lookup id s.sessions)).status
]

-- newID
unfoldable pub new_id : Result String (List ℕ) → Result Error String
new_id (ok bytes) = ok (hex_encode bytes)
new_id (err e) = err (generate_id e)

unfoldable pub new_session : Env → String → String → ℕ → Session
new_session env u id d = record {
  id = id;
  username = u;
  workload_name = concat ("ros2-session-" ∷ id ∷ []);
  service_name = concat ("ros2-session-" ∷ id ∷ []);
  ros_domain_id = d;
  status = provisioning;
  node_name = "";
  message = "";
  created_at = env.now;
  updated_at = env.now;
}

-- byUser[username] = prevID, or delete(byUser, username)
unfoldable pub restore : Option String → String → Map String → Map String
restore none u m = remove u m
restore (some prev) u m = put u prev m

-- The last part of Create's locked section: the two writes, the save, and its roll-back.
unfoldable pub insert_session : Env → Session → Store → Result Error Session × Store
unfolding restore
insert_session env x s =
    let prev = lookup x.username s.by_user in
    let added : Store = record s {
      sessions = put x.id x s.sessions;
      by_user = put x.username x.id s.by_user;
    } in
    let (failed, s') = save_locked env added in
    elim failed [
      | none ↦ (ok x, s')
      | some e ↦ (
        err (persist e),
        record s' {
          sessions = remove x.id s'.sessions;
          by_user = restore prev x.username s'.by_user;
        },
      )
    ]

-- Create up to s.mu.Unlock()
unfoldable pub create_locked : Env → String → Store → Result Error Session × Store
create_locked env u s =
    if str_eq u ""
    then (err username_required, s)
    else if has_active s u
    then (err session_exists, s)
    else elim (new_id env.random) [
      | err e ↦ (err e, s)
      | ok id ↦ elim (next_domain_id s.sessions) [
        | err e ↦ (err e, s)
        | ok d ↦ insert_session env (new_session env u id d) s
      ]
    ]

-- validTransition
unfoldable pub valid_transition : Status → Status → Bool
valid_transition provisioning ready = true
valid_transition provisioning error = true
valid_transition provisioning stopping = true
valid_transition provisioning stopped = true
valid_transition ready stopping = true
valid_transition ready error = true
valid_transition ready stopped = true
valid_transition stopping stopped = true
valid_transition stopping error = true
valid_transition _ _ = false

-- The end of setStatus: the save. The write in memory stands when the save fails.
unfoldable pub save_status : Env → String → Session → Store → Result Error Session × Store
save_status env id x s =
    let (failed, s') = save_locked env (record s { sessions = put id x s.sessions }) in
    elim failed [ none ↦ (ok x, s') | some e ↦ (err (persist e), s') ]

-- setStatus and SetStatus
unfoldable pub set_status :
    Env → String → String → Status → String → Store → Result Error Session × Store
set_status env u id status message s = elim (lookup id s.sessions) [
  | none ↦ (err not_found, s)
  | some x ↦
      if not (str_eq x.username u)
      then (err forbidden, s)
      else if not (valid_transition x.status status)
      then (err (invalid_status x.status status), s)
      else save_status env id
          (record x { status = status; message = message; updated_at = env.now }) s
]
