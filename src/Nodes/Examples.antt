-- ===== src/Nodes/Examples.antt =====
-- The node store at work: one laptop asks, is approved and joins.
use ldndrc.Base.{◌≡◌, refl, String, false, none, some, [], ◌∷◌, ok, err, arith, pos, hex_encode}
use ldndrc.Base.Float.{of_int, fle}
use ldndrc.Base.Map.{lookup, put}
use ldndrc.Nodes.Types.{Node, Profile, Store, Env, Library, absent}
use ldndrc.Nodes.Tokens.{
  Secret, MintEnv, mint_token, finish_mint, rand_token, ca_hash, new_secret, secure_token,
}
use ldndrc.Nodes.Minting.{Minted, mint_token-Minted}
use ldndrc.Base.{ℕ, Option, ◌+◌}
use ldndrc.Nodes.Store.{
  fingerprint, new_id, new_node, register, insert_node, save_locked, is_invalid,
}
use ldndrc.Nodes.Steps.{registers, approves, step, Moves, IsFresh, Reach, here, next}
use ldndrc.Nodes.Invariant.{IsWellFormed, IsWellFormed-Reach}
use ldndrc.Nodes.History.{Follows, step-Moves, Reach-Follows}

-- A stand-in for SHA-256: the test data have one laptop.
abbrev pub lib : Library
lib = record { sha256 = λ text. 1 ∷ 2 ∷ []; show_float = λ x. "32.000000" }

abbrev pub env : Env
env = record { now = 5; random = ok (1 ∷ 2 ∷ 3 ∷ []); write = none }

abbrev pub later_env : Env
later_env = record { now = 9; random = err "no entropy"; write = some "disk full" }

abbrev pub laptop : Profile
laptop = record {
  hostname = "legion";
  os = "linux";
  arch = "amd64";
  cpu = pos 16;
  ram_gb = of_int 32;
  gpu = "RTX 4060";
}

abbrev pub empty : Store
empty = record { nodes = []; by_fingerprint = []; file = absent }

abbrev pub node : Node
node = new_node env laptop "010203"

abbrev pub asked : Store
asked = step lib env (registers laptop) empty

abbrev pub approved_store : Store
approved_store = step lib later_env (approves "010203") asked

IsFresh-of_id :
    (e : Env) (s : Store) (id : String)
    → new_id e.random ≡ ok id
    → lookup id s.nodes ≡ none
    → IsFresh e s
IsFresh-of_id e s id a h i b = ground (arith, a, b, h)

laptop-IsFresh : IsFresh env empty
unfolding new_id hex_encode lookup
laptop-IsFresh = IsFresh-of_id env empty "010203" refl refl

pub no_id : IsFresh later_env asked
unfolding new_id
no_id i e = ground arith

laptop_valid : is_invalid laptop ≡ false
unfolding is_invalid fle of_int
laptop_valid = refl

pub empty_well : IsWellFormed lib empty
unfolding lookup
empty_well = record {
  unique = tt;
  keyed = λ i x h. absurd (cc);
  indexed = λ i n h. absurd (cc);
  entry = λ fp i h. absurd (cc);
}

pub asked_reached : Reach lib empty asked
asked_reached = next env (registers laptop) here laptop-IsFresh

pub node_found : lookup "010203" asked.nodes ≡ some node
unfolding step register is_invalid fingerprint new_id hex_encode lookup put insert_node save_locked
    new_node fle of_int
node_found = refl

pub asked_well : IsWellFormed lib asked
asked_well = IsWellFormed-Reach asked_reached empty_well

step-Moves_example : (n' : Node) × (lookup "010203" approved_store.nodes ≡ some n') × Moves node n'
step-Moves_example =
    step-Moves lib later_env (approves "010203") asked "010203" node no_id node_found

Reach-Follows_example :
    (n' : Node) × (lookup "010203" approved_store.nodes ≡ some n') × Follows node n'
Reach-Follows_example =
    Reach-Follows "010203" node (next later_env (approves "010203") here no_id) node_found

pub approved_well : IsWellFormed lib approved_store
approved_well =
    IsWellFormed-Reach (next later_env (approves "010203") asked_reached no_id) empty_well

-- An API server that counts the Secrets that it takes
abbrev pub take_secret : Secret → ℕ → Option String × ℕ
take_secret secret w = (none, w + 1)

abbrev pub mint_env : MintEnv
mint_env = record {
  random_id = ok (0 ∷ 1 ∷ 2 ∷ 3 ∷ 4 ∷ 5 ∷ []);
  random_secret =
      ok (26 ∷ 27 ∷ 28 ∷ 29 ∷ 30 ∷ 31 ∷ 32 ∷ 33 ∷ 34 ∷ 35 ∷ 36 ∷ 37 ∷ 38 ∷ 39 ∷ 40 ∷ 41 ∷ []);
  now = 7;
  ca_file = ok "-----BEGIN CERTIFICATE-----";
}

abbrev minted_token : String
minted_token = "K100102::abcdef.0123456789abcdef"

token_minted :
    (mint_token lib take_secret mint_env "ldndrc-010203" "ldndrc-010203" 0).0
    ≡ ok (minted_token, "abcdef")
unfolding mint_token finish_mint rand_token ca_hash hex_encode new_secret secure_token
token_minted = refl

mint_token-Minted_example :
    Minted lib take_secret mint_env "ldndrc-010203" minted_token "abcdef" 0
      (mint_token lib take_secret mint_env "ldndrc-010203" "ldndrc-010203" 0).1
mint_token-Minted_example =
    mint_token-Minted lib take_secret mint_env "ldndrc-010203" "ldndrc-010203" minted_token "abcdef"
      0 token_minted
