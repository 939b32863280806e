-- ===== src/Sessions/Load.antt =====
-- NewStore, NewStoreWithProvisioner, NewStoreWithPath and NewStoreWithProvisionerAndPath of
-- control-panel/internal/sessions/store.go. The provisioner is an argument of the methods.
use ldndrc.Base.{String, none, some, List, [], ◌∷◌, Result, ok, err, concat, str_eq, if◌then◌else◌}
use ldndrc.Base.Map.{Map, lookup, put}
use ldndrc.Sessions.Types.{Session, File, absent, unreadable, corrupt, saved, Store}
use ldndrc.Sessions.Domain.{is_active}

-- NewStore
unfoldable pub new_store : Store
new_store = record { path = ""; sessions = []; by_user = []; file = absent }

-- One round of the loop over saved.Sessions: the first active session of a user owns the entry.
unfoldable pub load_entry : String → Session → Store → Store
load_entry id x s =
    let by_user' : Map String =
      if is_active x.status
      then elim (lookup x.username s.by_user) [
        | some taken ↦ s.by_user
        | none ↦ put x.username id s.by_user
      ]
      else s.by_user in
    record s { sessions = put id x s.sessions; by_user = by_user' }

unfoldable pub load_entries : List (String × Session) → Store → Store
unfolding load_entry
load_entries [] s = s
load_entries ((id, x) ∷ entries) s = load_entries entries (load_entry id x s)

-- NewStoreWithPath. The entries of `saved` stand in the order in which the loop visits them.
unfoldable pub new_store_with_path : String → File → Result String Store
unfolding load_entries
new_store_with_path path file =
    let empty : Store = record { path = path; sessions = []; by_user = []; file = file } in
    if str_eq path "" then ok empty else elim file [
      | absent ↦ ok empty
      | unreadable e ↦ err (concat ("read sessions db: " ∷ e ∷ []))
      | corrupt e ↦ err (concat ("parse sessions db: " ∷ e ∷ []))
      | saved m ↦ ok (load_entries m empty)
    ]
