-- ===== src/Nodes/Effects.antt =====
-- What the locked sections of the node store other than Register do.
use ldndrc.Base.{
  ℕ, ◌≡◌, refl, sym, subst, ◌⊎◌, inl, inr, String, true, some, arith, Bool-cases, Option-cases,
}
use ldndrc.Base.Map.{lookup, put}
use ldndrc.Nodes.Types.{denied, joined, expired, Node, Profile, Store, Env, Library}
use ldndrc.Nodes.Store.{
  profile, save_locked, save_node, register, can_approve, is_pending, is_approved, approve_node,
  approve, deny, mark_minted, mark_joined, is_elapsed, expire_if_elapsed,
}
use ldndrc.Nodes.Steps.{
  Op, registers, approves, joins, denies, mints, expires, step, is_edge, Moves,
}

-- The node that an operation works on, and what it writes there.
abbrev pub target : Op → String
target (registers p) = ""
target (approves id) = id
target (denies id reason) = id
target (mints id token_id) = id
target (joins id) = id
target (expires id now) = id

abbrev pub update : Env → Op → Node → Node
update env (registers p) n = n
update env (approves id) n = approve_node env n
update env (denies id reason) n = record n { status = denied; reason = reason }
update env (mints id token_id) n = record n { token_id = token_id; minted_at = env.now }
update env (joins id) n = record n { status = joined }
update env (expires id now) n = record n { status = expired }

-- What a locked section other than Register does: it leaves the nodes alone, or writes a later state
-- of one node.
pub data Effect (env : Env) (op : Op) (s t : Store) : Type 0 where
  keeps : t ≡ s → Effect env op s t
  writes :
      (n : Node)
      → lookup (target op) s.nodes ≡ some n
      → Moves n (update env op n)
      → t.nodes ≡ put (target op) (update env op n) s.nodes
      → t.by_fingerprint ≡ s.by_fingerprint
      → Effect env op s t

pub save_node-nodes :
    (env : Env) (id : String) (n : Node) (s : Store)
    → ((save_node env id n s).1.nodes ≡ put id n s.nodes)
      × ((save_node env id n s).1.by_fingerprint ≡ s.by_fingerprint)
unfolding save_node save_locked
save_node-nodes env id n s = (ground arith, ground arith)

save-Effect :
    (env : Env) (op : Op) (n : Node) (s : Store)
    → lookup (target op) s.nodes ≡ some n
    → Moves n (update env op n)
    → Effect env op s (save_node env (target op) (update env op n) s).1
save-Effect env op n s found m =
    let (nodes, index) = save_node-nodes env (target op) (update env op n) s in
    writes n found m nodes index

moved :
    (n n' : Node)
    → n'.id ≡ n.id
    → n'.node_name ≡ n.node_name
    → profile n' ≡ profile n
    → n'.requested ≡ n.requested
    → (n'.status ≡ n.status) ⊎ (is_edge n.status n'.status ≡ true)
    → Moves n n'
moved n n' a b c d e = record {
  same_id = a;
  same_name = b;
  same_profile = c;
  same_request = d;
  edge = e;
}

pub approve-Effect :
    (env : Env) (id : String) (s : Store) → Effect env (approves id) s (approve env id s).1
unfolding approve is_edge
approve-Effect env id s = elim (Option-cases (lookup id s.nodes)) [
  | inl e ↦ rw (e, approve) (keeps refl)
  | inr (n, e) ↦
      rw (e, approve)
        (elim (Bool-cases (can_approve n.status)) [
          | inr no' ↦ rw no' (keeps refl)
          | inl yes' ↦ rw yes' (
              save-Effect env (approves id) n s e
                (moved n (approve_node env n) refl refl refl refl (inr (ground arith))))
        ])
]

pub deny-Effect :
    (env : Env) (id reason : String) (s : Store)
    → Effect env (denies id reason) s (deny env id reason s).1
unfolding deny is_edge
deny-Effect env id reason s = elim (Option-cases (lookup id s.nodes)) [
  | inl e ↦ rw (e, deny) (keeps refl)
  | inr (n, e) ↦
      rw (e, deny)
        (elim (Bool-cases (is_pending n.status)) [
          | inr no' ↦ rw no' (keeps refl)
          | inl yes' ↦ rw yes' (
              save-Effect env (denies id reason) n s e
                (moved n _ refl refl refl refl (inr (ground arith))))
        ])
]

pub mark_minted-Effect :
    (env : Env) (id token_id : String) (s : Store)
    → Effect env (mints id token_id) s (mark_minted env id token_id s).1
unfolding mark_minted
mark_minted-Effect env id token_id s = elim (Option-cases (lookup id s.nodes)) [
  | inl e ↦ rw (e, mark_minted) (keeps refl)
  | inr (n, e) ↦
      rw (e, mark_minted)
        (save-Effect env (mints id token_id) n s e (moved n _ refl refl refl refl (inl refl)))
]

pub mark_joined-Effect :
    (env : Env) (id : String) (s : Store) → Effect env (joins id) s (mark_joined env id s).1
unfolding mark_joined is_edge
mark_joined-Effect env id s = elim (Option-cases (lookup id s.nodes)) [
  | inl e ↦ rw (e, mark_joined) (keeps refl)
  | inr (n, e) ↦
      rw (e, mark_joined)
        (elim (Bool-cases (is_approved n.status)) [
          | inr no' ↦ rw no' (keeps refl)
          | inl yes' ↦ rw yes' (
              save-Effect env (joins id) n s e (moved n _ refl refl refl refl (inr (ground arith))))
        ])
]

expire-store :
    (env : Env) (id : String) (now : ℕ) (n : Node) (s : Store)
    → lookup id s.nodes ≡ some n
    → is_elapsed now n ≡ true
    → (expire_if_elapsed env id now s).1 ≡ (save_node env id (record n { status = expired }) s).1
unfolding expire_if_elapsed
expire-store env id now n s found h = ground arith

pub expire-Effect :
    (env : Env) (id : String) (now : ℕ) (s : Store)
    → Effect env (expires id now) s (expire_if_elapsed env id now s).1
unfolding is_edge is_elapsed
expire-Effect env id now s = elim (Option-cases (lookup id s.nodes)) [
  | inl e ↦ keeps (unfold expire_if_elapsed in ground arith)
  | inr (n, e) ↦ elim (Bool-cases (is_elapsed now n)) [
    | inr no' ↦ keeps (unfold expire_if_elapsed in ground arith)
    | inl yes' ↦ subst (Effect env (expires id now) s) (sym (expire-store env id now n s e yes')) (
        save-Effect env (expires id now) n s e (moved n _ refl refl refl refl (inr (ground arith))))
  ]
]

-- Every change of the store other than a registration is an effect on one node.
pub step-Effect :
    (lib : Library) (env : Env) (op : Op) (s : Store)
    → ((p : Profile) × (op ≡ registers p)) ⊎ Effect env op s (step lib env op s)
unfolding step
step-Effect lib env (registers p) s = inl (p, refl)
step-Effect lib env (approves id) s = inr (approve-Effect env id s)
step-Effect lib env (denies id reason) s = inr (deny-Effect env id reason s)
step-Effect lib env (mints id token_id) s = inr (mark_minted-Effect env id token_id s)
step-Effect lib env (joins id) s = inr (mark_joined-Effect env id s)
step-Effect lib env (expires id now) s = inr (expire-Effect env id now s)

pub step-registers :
    (lib : Library) (env : Env) (p : Profile) (s : Store)
    → step lib env (registers p) s ≡ (register lib env p s).1
unfolding step
step-registers lib env p s = refl
