-- ===== src/Nodes/Registering.antt =====
-- What Register of control-panel/internal/nodes/store.go does, by the case that it meets.
use ldndrc.Base.{
  ℕ, List, ◌≡◌, ◌≢◌, subst, ◌⊎◌, inl, inr, String, Bool, true, false, none, some, ok, err, Result,
  arith, Bool-cases, Option-cases, Result-cases,
}
use ldndrc.Base.Map.{lookup, put, remove-put}
use ldndrc.Nodes.Types.{
  Node, Profile, Error, save_failed, nil_dereference, invalid_input, File, saved, Store, Env,
  Library,
}
use ldndrc.Nodes.Store.{
  fingerprint, save_locked, new_id, new_node, insert_node, known_node, register, is_invalid,
}
use ldndrc.Nodes.Steps.{IsFresh}

-- What Register does: it leaves the nodes alone, or adds a pending node under a fresh ID and
-- fingerprint.
pub data Registered (lib : Library) (env : Env) (p : Profile) (s : Store)
    (r : Result Error (Node × Bool) × Store) : Type 0 where
  known :
      (id : String)
      → is_invalid p ≡ false
      → lookup (fingerprint lib p) s.by_fingerprint ≡ some id
      → r ≡ (known_node (lookup id s.nodes), s)
      → Registered lib env p s r
  refused :
      (e : Error)
      → (is_invalid p ≡ true) ⊎ (lookup (fingerprint lib p) s.by_fingerprint ≡ none)
      → e ≢ nil_dereference
      → r ≡ (err e, s)
      → Registered lib env p s r
  added :
      (id : String) (f : File)
      → lookup id s.nodes ≡ none
      → lookup (fingerprint lib p) s.by_fingerprint ≡ none
      → r ≡ (
        ok (new_node env p id, true),
        record {
          nodes = put id (new_node env p id) s.nodes;
          by_fingerprint = put (fingerprint lib p) id s.by_fingerprint;
          file = f;
        },
      )
      → Registered lib env p s r

new_id-ne-panic : (r : Result String (List ℕ)) (e : Error) → new_id r ≡ err e → e ≢ nil_dereference
unfolding new_id
new_id-ne-panic (ok bytes) e h = λ h'. cc
new_id-ne-panic (err m) e h = λ h'. cc

insert_node-Registered :
    (lib : Library) (env : Env) (p : Profile) (id : String) (s : Store)
    → lookup id s.nodes ≡ none
    → lookup (fingerprint lib p) s.by_fingerprint ≡ none
    → Registered lib env p s (insert_node env (fingerprint lib p) (new_node env p id) s)
unfolding insert_node save_locked new_node
insert_node-Registered lib env p id s fresh free = elim (Option-cases env.write) [
  | inl fine ↦ added id (saved (put id (new_node env p id) s.nodes)) fresh free (ground arith)
  | inr (m, bad) ↦
      refused (save_failed m) (inr free) (λ e. cc)
        (ground (
          arith,
          remove-put id (new_node env p id) s.nodes fresh,
          remove-put (fingerprint lib p) id s.by_fingerprint free,
        ))
]

pub register-Registered :
    (lib : Library) (env : Env) (p : Profile) (s : Store)
    → IsFresh env s
    → Registered lib env p s (register lib env p s)
unfolding register
register-Registered lib env p s fresh = elim (Bool-cases (is_invalid p)) [
  | inl bad ↦ refused invalid_input (inl bad) (λ e. cc) (ground arith)
  | inr good ↦ elim (Option-cases (lookup (fingerprint lib p) s.by_fingerprint)) [
    | inr (id, e) ↦ known id good e (ground arith)
    | inl free ↦ elim (Result-cases (new_id env.random)) [
      | inr (m, e) ↦ refused m (inr free) (new_id-ne-panic env.random m e) (ground arith)
      | inl (id, e) ↦
          subst (Registered lib env p s) (ground arith)
            (insert_node-Registered lib env p id s (fresh id e) free)
    ]
  ]
]
