-- ===== src/Http/Jwt.antt =====
-- Service, Claims, what Issue signs, and Verify of control-panel/internal/auth/auth.go, over
-- golang-jwt as a parameter. Issue itself is in Http/Auth.antt.
use text.Mathlib.Text.{starts_with}
use Prim.Native.String.{slice, len}
use ldndrc.Base.{
  ℕ, ◌<◌, ◌≤◌, ◌≡◌, inl, inr, String, Bool, true, false, not, ◌||◌, Option, none, some, List,
  Result, ok, err, str_eq, arith, Bool-cases, Result-cases, if◌then◌else◌,
}
use ldndrc.Http.Auth.{Keys, bearer_claims, verify_cookie}
use ldndrc.Base.{is_blank}

-- Service: the secret, and the life of a token in nanoseconds
pub record Service : Type 0 where
  pub secret : List ℕ
  pub ttl : ℕ

-- Claims, with the registered ones that Issue sets or golang-jwt checks; each of these is a pointer,
-- nil in a token that does not have it.
pub record Claims : Type 0 where
  pub username : String
  pub issued_at : Option ℕ
  pub expires_at : Option ℕ
  pub not_before : Option ℕ

-- A jwt.SigningMethod: of the type SigningMethodHMAC, or of another
pub data SigningMethod : Type 0 where
  hs256 hs384 hs512 : SigningMethod
  other_method : String → SigningMethod

-- t.Method.(*jwt.SigningMethodHMAC)
unfoldable pub is_hmac : SigningMethod → Bool
is_hmac (other_method name) = false
is_hmac _ = true

-- A parsed token: what type its claims have, and whether it is valid
pub record Token : Type 0 where
  pub method : SigningMethod
  pub claims : Claims
  pub is_claims : Bool
  pub valid : Bool

-- A jwt.Keyfunc, by the method of the token
abbrev pub Keyfunc : Type 0
Keyfunc = SigningMethod → Result String (List ℕ)

-- golang-jwt: NewNumericDate, NewWithClaims(method, claims).SignedString(key), and ParseWithClaims at
-- a time. `method_of` is the method in the header of a text, `payload` are the claims that the text
-- carries, and `signed` says whether the signature of a text is the method's with a key.
pub record Jwt : Type 0 where
  pub numeric_date : ℕ → ℕ
  pub signed_string : SigningMethod → Claims → List ℕ → Result String String
  pub parse_with_claims : ℕ → String → Keyfunc → Result String Token
  pub method_of : String → Option SigningMethod
  pub payload : String → Option Claims
  pub signed : SigningMethod → List ℕ → String → Bool

-- NewService
unfoldable pub new_service : List ℕ → ℕ → Service
new_service secret ttl = record { secret = secret; ttl = ttl }

-- The claims of Issue, by the time of the call and that of the end
unfoldable pub claims_of : Jwt → String → ℕ → ℕ → Claims
claims_of jwt username now until = record {
  username = username;
  issued_at = some (jwt.numeric_date now);
  expires_at = some (jwt.numeric_date until);
  not_before = none;
}

-- The key function of Verify
unfoldable pub keyfunc : Service → Keyfunc
keyfunc service method =
    if not (is_hmac method) then err "unexpected signing method" else ok service.secret

unfoldable pub verify : Jwt → Service → ℕ → String → Result String Claims
verify jwt service now text = elim (jwt.parse_with_claims now text (keyfunc service)) [
  | err e ↦ err e
  | ok token ↦
      if not token.is_claims || not token.valid then err "invalid token" else ok token.claims
]

abbrev pub username_of : Result String Claims → Option String
username_of (err e) = none
username_of (ok c) = some c.username

-- What the handlers ask of the service; `hmac` is crypto/hmac over SHA-256 with its secret.
unfoldable pub keys_of : Jwt → (List ℕ → String → List ℕ) → Service → Keys
keys_of jwt hmac service = record {
  sign = λ username now until.
      jwt.signed_string hs256 (claims_of jwt username now until) service.secret;
  verify = λ now text. username_of (verify jwt service now text);
  hmac = hmac service.secret;
}

-- A token without the claim `exp` does not expire.
abbrev pub Unexpired : ℕ → Option ℕ → Type 0
Unexpired now none = Unit
Unexpired now (some until) = now < until

-- The claim `nbf`
abbrev pub HasBegun : ℕ → Option ℕ → Type 0
HasBegun now none = Unit
HasBegun now (some start) = start ≤ now

-- What golang-jwt documents of ParseWithClaims: it asks the key function for the key of the method
-- in the header, and a token that it returns without an error has the claims of the text, is signed
-- with that key by that method, has begun and has not expired.
pub record ChecksTokens (jwt : Jwt) : Type 0 where
  pub checks :
      (now : ℕ) (text : String) (key_for : Keyfunc) (token : Token)
      → jwt.parse_with_claims now text key_for ≡ ok token
      → (key : List ℕ) × (jwt.method_of text ≡ some token.method)
        × (jwt.payload text ≡ some token.claims)
        × (key_for token.method ≡ ok key)
        × (jwt.signed token.method key text ≡ true)
        × Unexpired now token.claims.expires_at
        × HasBegun now token.claims.not_before

-- The text is a token with an HMAC of the service's secret, and the claims in it name the user and
-- have not expired.
pub record Genuine (jwt : Jwt) (service : Service) (now : ℕ) (text u : String) : Type 0 where
  pub method : SigningMethod
  pub claims : Claims
  pub header : jwt.method_of text ≡ some method
  pub read : jwt.payload text ≡ some claims
  pub family : is_hmac method ≡ true
  pub signature : jwt.signed method service.secret text ≡ true
  pub life : Unexpired now claims.expires_at
  pub begun : HasBegun now claims.not_before
  pub user : claims.username ≡ u

-- What a request can show: its Authorization header, or the value of its session cookie
pub data Credential : Type 0 where
  bearer_header : String → Credential
  session_cookie : Option String → Credential

-- Whom the handlers take it for
abbrev pub user_of : Keys → ℕ → Credential → Option String
user_of keys now (bearer_header text) = bearer_claims keys now text
user_of keys now (session_cookie value) = verify_cookie keys now value

-- The token in it: behind the seven characters of "Bearer ", or the cookie's value
abbrev pub carried : Credential → String
carried (bearer_header text) = slice text 7 (len text)
carried (session_cookie none) = ""
carried (session_cookie (some value)) = value

module _ (jwt : Jwt) (hmac : List ℕ → String → List ℕ) (service : Service)
    (laws : ChecksTokens jwt) where
  keyfunc-ok :
      (method : SigningMethod) (key : List ℕ)
      → keyfunc service method ≡ ok key
      → (is_hmac method ≡ true) × (key ≡ service.secret)
  unfolding keyfunc
  keyfunc-ok method key h = elim (Bool-cases (is_hmac method)) [
    | inl good ↦ (good, ground (arith, good, h))
    | inr bad ↦ absurd (ground (arith, bad, h))
  ]

  pub verify-Genuine :
      (now : ℕ) (text u : String)
      → username_of (verify jwt service now text) ≡ some u
      → Genuine jwt service now text u
  unfolding verify
  verify-Genuine now text u h =
      elim (Result-cases (jwt.parse_with_claims now text (keyfunc service))) [
        | inr (e, bad) ↦ absurd (ground (arith, bad, h))
        | inl (token, good) ↦
            let (key, header, read, asked, signature, life, begun) =
              laws.checks now text (keyfunc service) token good in
            let (family, same) = keyfunc-ok token.method key asked in
            record {
              method = token.method;
              claims = token.claims;
              header = header;
              read = read;
              family = family;
              signature = ground (arith, signature, same);
              life = life;
              begun = begun;
              user = ground (arith, good, h, Bool-cases (not token.is_claims || not token.valid));
            }
      ]

  -- A bearer header, and a session cookie, names a user only if its token carries in its own header
  -- an HMAC method and is signed by it with the service's secret, and the claims in the token name
  -- that user and, where they say so, have begun and have not expired: a token with no signature, or
  -- with that of another kind of key, opens nothing. golang-jwt is taken to keep its documented
  -- behaviour.
  pub credentials-Genuine :
      (now : ℕ) (c : Credential) (u : String)
      → user_of (keys_of jwt hmac service) now c ≡ some u
      → Genuine jwt service now (carried c) u
  unfolding bearer_claims verify_cookie keys_of
  credentials-Genuine now (session_cookie none) u h = absurd (ground (arith, h))
  credentials-Genuine now (session_cookie (some value)) u h = elim (Bool-cases (is_blank value)) [
    | inl blank ↦ absurd (ground (arith, blank, h))
    | inr solid ↦ verify-Genuine now value u (ground (arith, solid, h))
  ]
  credentials-Genuine now (bearer_header text) u h =
      elim (Bool-cases (starts_with text "Bearer ")) [
        | inr bare ↦ absurd (ground (arith, bare, h))
        | inl bearer ↦ elim (Bool-cases (str_eq (slice text 7 (len text)) "")) [
          | inl gone ↦ absurd (ground (arith, bearer, gone, h))
          | inr there ↦
              verify-Genuine now (slice text 7 (len text)) u (ground (arith, bearer, there, h))
        ]
      ]
