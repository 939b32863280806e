-- ===== src/Http/TokenNames.antt =====
-- The token IDs of the bootstrap minter are texts that are not empty.
use Prim.Native.String.{◌++◌ as append}
use text.Mathlib.TextLemmas.{cons-append}
use ldndrc.Base.{
  Bool, true, false, ◌&&◌, ℕ, zero, suc, ◌%◌, ◌<◌, ◌≡◌, ◌≢◌, refl, subst, inl, inr, String, Option,
  List, [], ◌∷◌, Result, ok, err, arith, length, concat, Option-cases, Result-cases,
}
use ldndrc.Http.TokenOnce.{NamesTokens}
use ldndrc.Nodes.Tokens.{
  Secret, MintEnv, charset, char_at, token_text, rand_token, new_secret, ca_hash, finish_mint,
  mint_token, bootstrap_minter,
}
use ldndrc.Nodes.Types.{Library}

named : String → Bool
named String.[] = false
named (String.◌∷◌ c s) = true

all_named : List String → Bool
unfolding named
all_named [] = true
all_named (s ∷ ss) = named s && all_named ss

char_at-named :
    (cs : List String) (n : ℕ) → all_named cs ≡ true → n < length cs → named (char_at cs n) ≡ true
unfolding char_at all_named
char_at-named [] n h below = absurd (omega (arith, below))
char_at-named (c ∷ cs) zero h below = ground (arith, h)
char_at-named (c ∷ cs) (suc n) h below =
    char_at-named cs n (ground (arith, h)) (omega (arith, below))

charset-named : all_named charset ≡ true
unfolding all_named named
charset-named = refl

append-named : (s t : String) → named s ≡ true → named (append s t) ≡ true
unfolding named
append-named String.[] t h = absurd (ground (arith, h))
append-named (String.◌∷◌ c s) t h = rw cons-append refl

token_text-named : (b : ℕ) (raw : List ℕ) → named (token_text (b ∷ raw)) ≡ true
unfolding token_text
token_text-named b raw =
    append-named (char_at charset (b % length charset)) (concat (token_text raw ∷ []))
      (char_at-named charset (b % length charset) charset-named (omega arith))

rand_token-ne :
    (bytes : Result String (List ℕ)) (text : String)
    → bytes ≢ ok []
    → rand_token bytes ≡ ok text
    → text ≢ ""
unfolding rand_token named
rand_token-ne (err e) text some_bytes h empty = absurd (ground (arith, h))
rand_token-ne (ok []) text some_bytes h empty = some_bytes refl
rand_token-ne (ok (b ∷ raw)) text some_bytes h empty =
    let e : token_text (b ∷ raw) ≡ "" = ground (arith, h, empty) in
    let bad : named "" ≡ true = subst (λ t. named t ≡ true) e (token_text-named b raw) in
    ground (arith, bad)

-- The bootstrap minter names its tokens, where crypto/rand gives some bytes or fails.
pub bootstrap_minter-NamesTokens :
    {W : Type 0} (lib : Library) (create_secret : Secret → W → Option String × W) (env : MintEnv)
    → env.random_id ≢ ok []
    → NamesTokens (bootstrap_minter lib create_secret env).mint
unfolding bootstrap_minter mint_token finish_mint
bootstrap_minter-NamesTokens lib create_secret env some_bytes name description w token token_id h =
    elim (Result-cases (rand_token env.random_id)) [
      | inr (e, failed) ↦ absurd (ground (arith, failed, h))
      | inl (id, drawn) ↦ elim (Result-cases (rand_token env.random_secret)) [
        | inr (e, failed) ↦ absurd (ground (arith, drawn, failed, h))
        | inl (secret, made) ↦
            elim (Option-cases (create_secret (new_secret env id secret description) w).0) [
              | inr (e, refused) ↦ absurd (ground (arith, drawn, made, refused, h))
              | inl taken ↦ elim (Result-cases (ca_hash lib env.ca_file)) [
                | inr (e, unread) ↦ absurd (ground (arith, drawn, made, taken, unread, h))
                | inl (hash, read) ↦
                    rand_token-ne env.random_id token_id some_bytes
                      (ground (arith, drawn, made, taken, read, h))
              ]
            ]
      ]
    ]
