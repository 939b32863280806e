-- ===== src/Nodes/Steps.antt =====
-- The node store as a shared object: every change is one of six locked sections. Register, Approve,
-- Deny, MarkMinted, MarkJoined and ExpireIfElapsed run in any order, on behalf of laptops, of
-- operators and of the watcher.
use ldndrc.Base.{ℕ, ◌≡◌, refl, ◌⊎◌, inl, String, Bool, true, false, none, ok}
use ldndrc.Base.Map.{lookup}
use ldndrc.Nodes.Types.{
  Status, pending, approved, denied, joined, expired, Node, Profile, Store, Env, Library,
}
use ldndrc.Nodes.Store.{
  profile, new_id, register, approve, deny, mark_minted, mark_joined, expire_if_elapsed,
}

pub data Op : Type 0 where
  registers : Profile → Op
  approves joins : String → Op
  denies mints : String → String → Op
  expires : String → ℕ → Op

unfoldable pub step : Library → Env → Op → Store → Store
step lib env (registers p) s = (register lib env p s).1
step lib env (approves id) s = (approve env id s).1
step lib env (denies id reason) s = (deny env id reason s).1
step lib env (mints id token_id) s = (mark_minted env id token_id s).1
step lib env (joins id) s = (mark_joined env id s).1
step lib env (expires id now) s = (expire_if_elapsed env id now s).1

-- The random bytes of a new request are not the ID of a node that the store holds.
abbrev pub IsFresh : Env → Store → Type 0
IsFresh env s = (id : String) → new_id env.random ≡ ok id → lookup id s.nodes ≡ none

-- The five changes of status
unfoldable pub is_edge : Status → Status → Bool
is_edge pending approved = true
is_edge expired approved = true
is_edge pending denied = true
is_edge approved joined = true
is_edge approved expired = true
is_edge _ _ = false

-- `n'` is a later state of the request `n`, one change of status away at most.
pub record Moves (n n' : Node) : Type 0 where
  pub same_id : n'.id ≡ n.id
  pub same_name : n'.node_name ≡ n.node_name
  pub same_profile : profile n' ≡ profile n
  pub same_request : n'.requested ≡ n.requested
  pub edge : (n'.status ≡ n.status) ⊎ (is_edge n.status n'.status ≡ true)

pub Moves-refl : (n : Node) → Moves n n
Moves-refl n = record {
  same_id = refl;
  same_name = refl;
  same_profile = refl;
  same_request = refl;
  edge = inl refl;
}

-- A store that a row of locked sections leads to
pub data Reach (lib : Library) (s : Store) : Store → Type 0 where
  here : Reach lib s s
  next :
      {t : Store} (env : Env) (op : Op)
      → Reach lib s t
      → IsFresh env t
      → Reach lib s (step lib env op t)
