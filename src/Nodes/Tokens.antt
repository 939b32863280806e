-- ===== src/Nodes/Tokens.antt =====
-- control-panel/internal/nodes/tokens.go. The API server is a parameter, with the Secret that is
-- sent to it; the cluster's CA file is an argument.
use ldndrc.Base.{
  ℕ, zero, suc, ◌+◌, ◌%◌, String, Option, none, some, List, [], ◌∷◌, Result, ok, err, concat,
  hex_encode, length,
}
use ldndrc.Nodes.Types.{Library}
use ldndrc.Nodes.Store.{token_ttl}

-- The fields of the bootstrap-token Secret
pub record Secret : Type 0 where
  pub namespace : String
  pub name : String
  pub kind : String
  pub token_id : String
  pub token_secret : String
  pub expiration : ℕ
  pub description : String
  pub auth_extra_groups : String
  pub usage_authentication : String
  pub usage_signing : String

-- What the outside answers during one MintToken: two reads of crypto/rand, the clock, the CA file.
pub record MintEnv : Type 0 where
  pub random_id : Result String (List ℕ)
  pub random_secret : Result String (List ℕ)
  pub now : ℕ
  pub ca_file : Result String String

abbrev pub charset : List String
charset =
    "a" ∷ "b" ∷ "c" ∷ "d" ∷ "e" ∷ "f" ∷ "g" ∷ "h" ∷ "i" ∷ "j" ∷ "k" ∷ "l" ∷ "m" ∷ "n" ∷ "o" ∷ "p"
    ∷ "q" ∷ "r" ∷ "s" ∷ "t" ∷ "u" ∷ "v" ∷ "w" ∷ "x" ∷ "y" ∷ "z" ∷ "0" ∷ "1" ∷ "2" ∷ "3" ∷ "4" ∷ "5"
    ∷ "6" ∷ "7" ∷ "8" ∷ "9" ∷ []

unfoldable pub char_at : List String → ℕ → String
char_at [] n = ""
char_at (c ∷ cs) zero = c
char_at (c ∷ cs) (suc n) = char_at cs n

-- The loop of randToken: b[i] = charset[raw[i] % len(charset)]
unfoldable pub token_text : List ℕ → String
unfolding char_at
token_text [] = ""
token_text (b ∷ raw) = concat (char_at charset (b % length charset) ∷ token_text raw ∷ [])

-- randToken, on the bytes that crypto/rand gives or its error
unfoldable pub rand_token : Result String (List ℕ) → Result String String
unfolding token_text
rand_token (ok raw) = ok (token_text raw)
rand_token (err e) = err e

-- caHash
unfoldable pub ca_hash : Library → Result String String → Result String String
ca_hash lib (ok pem) = ok (hex_encode (lib.sha256 pem))
ca_hash lib (err e) = err (concat ("read cluster CA: " ∷ e ∷ []))

unfoldable pub new_secret : MintEnv → String → String → String → Secret
new_secret env token_id secret description = record {
  namespace = "kube-system";
  name = concat ("bootstrap-token-" ∷ token_id ∷ []);
  kind = "bootstrap.kubernetes.io/token";
  token_id = token_id;
  token_secret = secret;
  expiration = env.now + token_ttl;
  description = description;
  auth_extra_groups = "system:bootstrappers:k3s:default-node-token";
  usage_authentication = "true";
  usage_signing = "true";
}

-- K10<ca-hash>::<id>.<secret>
unfoldable pub secure_token : String → String → String → String
secure_token hash token_id secret = concat ("K10" ∷ hash ∷ "::" ∷ token_id ∷ "." ∷ secret ∷ [])

-- The interface Minter, over the state of the cluster
pub record Minter (W : Type 0) : Type 0 where
  pub mint : String → String → W → Result String (String × String) × W

module _ {W : Type 0} (lib : Library) (create_secret : Secret → W → Option String × W) where
  -- The end of MintToken: the hash of the CA, when the Secret is there
  unfoldable pub finish_mint : MintEnv → String → String → W → Result String (String × String) × W
  finish_mint env token_id secret w = elim (ca_hash lib env.ca_file) [
    | err e ↦ (err e, w)
    | ok hash ↦ (ok (secure_token hash token_id secret, token_id), w)
  ]

  -- MintToken
  unfoldable pub mint_token : MintEnv → String → String → W → Result String (String × String) × W
  unfolding finish_mint
  mint_token env node_name description w = elim (rand_token env.random_id) [
    | err e ↦ (err e, w)
    | ok token_id ↦ elim (rand_token env.random_secret) [
      | err e ↦ (err e, w)
      | ok secret ↦
          let (failed, w') = create_secret (new_secret env token_id secret description) w in
          elim failed [
            | some e ↦ (err (concat ("create bootstrap token: " ∷ e ∷ [])), w')
            | none ↦ finish_mint env token_id secret w'
          ]
    ]
  ]

  -- NewBootstrapMinter: the minter that MintToken implements, in an environment
  unfoldable pub bootstrap_minter : MintEnv → Minter W
  bootstrap_minter env = record { mint = mint_token env }
