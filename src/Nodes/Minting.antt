-- ===== src/Nodes/Minting.antt =====
-- What MintToken answers, and the Secret that it has sent.
use ldndrc.Base.{
  ◌+◌, ◌≡◌, refl, inl, inr, String, Option, none, [], ◌∷◌, Result, ok, err, arith, concat,
  hex_encode, Option-cases, Result-cases,
}
use ldndrc.Nodes.Types.{Library}
use ldndrc.Nodes.Tokens.{
  Secret, MintEnv, rand_token, ca_hash, new_secret, secure_token, finish_mint, mint_token,
}

module _ {W : Type 0} (lib : Library) (create_secret : Secret → W → Option String × W) where
  -- Behind the token that is answered
  pub record Minted (env : MintEnv) (description token token_id : String) (w w' : W) : Type 0 where
    pub secret : String
    pub pem : String
    pub sent : Secret
    pub drawn_id : rand_token env.random_id ≡ ok token_id
    pub drawn_secret : rand_token env.random_secret ≡ ok secret
    pub ca : env.ca_file ≡ ok pem
    pub created : create_secret sent w ≡ (none, w')
    pub place : sent.namespace ≡ "kube-system"
    pub name : sent.name ≡ concat ("bootstrap-token-" ∷ token_id ∷ [])
    pub kind : sent.kind ≡ "bootstrap.kubernetes.io/token"
    pub same_id : sent.token_id ≡ token_id
    pub same_secret : sent.token_secret ≡ secret
    pub life : sent.expiration ≡ env.now + 900000000000
    pub usable : (sent.usage_authentication ≡ "true") × (sent.usage_signing ≡ "true")
    pub token_of :
        token ≡ concat ("K10" ∷ hex_encode (lib.sha256 pem) ∷ "::" ∷ token_id ∷ "." ∷ secret ∷ [])

  ca_hash-ok :
      (file : Result String String) (hash : String)
      → ca_hash lib file ≡ ok hash
      → (pem : String) × (file ≡ ok pem) × (hash ≡ hex_encode (lib.sha256 pem))
  unfolding ca_hash
  ca_hash-ok (ok pem) hash h = (pem, refl, ground arith)
  ca_hash-ok (err e) hash h = absurd (ground arith)

  -- MintToken answers a token only after the API server has taken a bootstrap Secret of kube-system
  -- with its token ID and its secret, for 15 minutes and for authentication and signing; the token is
  -- K10, the SHA-256 of the cluster's CA file in hexadecimal, two colons, that ID, a dot and that
  -- secret, both drawn by randToken; and the cluster changes by that Secret only.
  pub mint_token-Minted :
      (env : MintEnv) (node_name description token token_id : String) (w : W)
      → (mint_token lib create_secret env node_name description w).0 ≡ ok (token, token_id)
      → Minted env description token token_id w
          (mint_token lib create_secret env node_name description w).1
  unfolding mint_token finish_mint new_secret secure_token
  mint_token-Minted env node_name description token token_id w h =
      elim (Result-cases (rand_token env.random_id)) [
        | inr (e, bad) ↦ absurd (ground arith)
        | inl (i, id_ok) ↦ elim (Result-cases (rand_token env.random_secret)) [
          | inr (e, bad) ↦ absurd (ground arith)
          | inl (secret, secret_ok) ↦
              elim (Option-cases (create_secret (new_secret env i secret description) w).0) [
                | inr (e, bad) ↦ absurd (ground arith)
                | inl taken ↦ elim (Result-cases (ca_hash lib env.ca_file)) [
                  | inr (e, bad) ↦ absurd (ground arith)
                  | inl (hash, hash_ok) ↦
                      let (pem, read, hex) = ca_hash-ok env.ca_file hash hash_ok in
                      record {
                        secret = secret;
                        pem = pem;
                        sent = new_secret env i secret description;
                        drawn_id = ground arith;
                        drawn_secret = secret_ok;
                        ca = read;
                        created = ground arith;
                        place = refl;
                        name = ground arith;
                        kind = refl;
                        same_id = ground arith;
                        same_secret = refl;
                        life = refl;
                        usable = (refl, refl);
                        token_of = ground arith;
                      }
                ]
              ]
        ]
      ]
