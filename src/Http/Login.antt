-- ===== src/Http/Login.antt =====
-- What the login hands out opens the API, the gateway and the CSRF guard, until it expires.
use Prim.Native.String.{◌++◌ as append}
use text.Mathlib.TextPositions.{starts_with-append, slice-append_right, len-append}
use ldndrc.Base.{
  ℕ, ◌+◌, ◌≤◌, ◌<◌, List, Option-cases, ◌≡◌, ◌≢◌, refl, ◌∙◌, sym, subst, inl, inr, String, true,
  false, none, some, ok, arith, is_blank, str_eq, eq_iff, ◌||◌, Bool-cases, Result-cases,
}
use ldndrc.Http.Types.{login, write_json}
use ldndrc.Http.Sessions.{post_login}
use ldndrc.Http.Auth.{
  Keys, issue, issue_csrf, bearer_claims, verify_cookie, CookieSettings, set_session_cookie,
  passes_csrf, Method, is_mutation,
}
use ldndrc.Http.Csrf.{IsBytes, csrf_guard}
use ldndrc.Http.Jwt.{
  Service, Claims, SigningMethod, hs256, is_hmac, Keyfunc, Jwt, claims_of, keyfunc, verify, keys_of,
  Unexpired, HasBegun, ChecksTokens, verify-Genuine,
}

-- What golang-jwt documents of the tokens that it signs: NewNumericDate cuts a time to whole seconds;
-- a token carries the method and the claims with such dates that it was made of, has a signature by
-- that method with the key, and is not blank; and ParseWithClaims takes a text with a signature by
-- the key that it is given, whose claims have begun and have not expired.
pub record SignsTokens (jwt : Jwt) : Type 0 where
  pub dates : (t : ℕ) → (jwt.numeric_date t ≤ t) × (t < jwt.numeric_date t + 1000000000)
  pub signs :
      (method : SigningMethod) (claims : Claims) (key : List ℕ) (text : String) (now until : ℕ)
      → claims.issued_at ≡ some (jwt.numeric_date now)
      → claims.expires_at ≡ some (jwt.numeric_date until)
      → claims.not_before ≡ none
      → jwt.signed_string method claims key ≡ ok text
      → (jwt.method_of text ≡ some method)
        × (jwt.payload text ≡ some claims)
        × (jwt.signed method key text ≡ true)
        × (is_blank text ≡ false)
  pub accepts :
      (now : ℕ) (text : String) (key_for : Keyfunc) (method : SigningMethod) (claims : Claims)
      (key : List ℕ)
      → jwt.method_of text ≡ some method
      → jwt.payload text ≡ some claims
      → key_for method ≡ ok key
      → jwt.signed method key text ≡ true
      → Unexpired now claims.expires_at
      → HasBegun now claims.not_before
      → jwt.parse_with_claims now text key_for
        ≡ ok (record { method = method; claims = claims; is_claims = true; valid = true })

-- The Authorization header with a token
abbrev pub bearer : String → String
bearer token = append "Bearer " token

named_of_solid : (token : String) → is_blank token ≡ false → str_eq token "" ≡ false
unfolding is_blank
named_of_solid token h = elim (Bool-cases (str_eq token "")) [
  | inr named ↦ named
  | inl empty ↦
      let same : token ≡ "" = (eq_iff token "").0 empty in
      let blank : is_blank token ≡ true = subst (λ t. is_blank t ≡ true) (sym same) refl in
      absurd (ground arith)
]

bearer_claims-bearer :
    (keys : Keys) (now : ℕ) (token : String)
    → is_blank token ≡ false
    → bearer_claims keys now (bearer token) ≡ keys.verify now token
unfolding bearer_claims
bearer_claims-bearer keys now token h =
    let a = starts_with-append "Bearer " token in
    let b = slice-append_right "Bearer " token in
    let c = len-append "Bearer " token in rw (a, c, b, named_of_solid token h) refl

verify_cookie-value :
    (keys : Keys) (now : ℕ) (token : String)
    → is_blank token ≡ false
    → verify_cookie keys now (some token) ≡ keys.verify now token
unfolding verify_cookie
verify_cookie-value keys now token h = rw h refl

post_login-ok :
    (keys : Keys) (ttl now : ℕ) (u password token csrf : String)
    → post_login keys ttl now (some (u, password)) ≡ write_json 200 (login token csrf)
    → (keys.sign u now (now + ttl) ≡ ok token) × (csrf ≡ issue_csrf keys token)
unfolding post_login issue write_json
post_login-ok keys ttl now u password token csrf h =
    elim (Bool-cases (str_eq u "" || str_eq password "")) [
      | inl part ↦ absurd (ground (arith, part))
      | inr full ↦ elim (Result-cases (keys.sign u now (now + ttl))) [
        | inr (e, failed) ↦ absurd (ground (arith, full, failed))
        | inl (t, signed) ↦ ground (arith, full, signed)
      ]
    ]

module _ (jwt : Jwt) (hmac : List ℕ → String → List ℕ) (service : Service)
    (checks : ChecksTokens jwt) (signs : SignsTokens jwt) (u token : String) (now until : ℕ)
    (signed : (keys_of jwt hmac service).sign u now until ≡ ok token) where
  abbrev made : Claims
  made = claims_of jwt u now until

  -- What the token of Issue carries
  issued :
      (jwt.method_of token ≡ some hs256)
      × (jwt.payload token ≡ some made)
      × (jwt.signed hs256 service.secret token ≡ true)
      × (is_blank token ≡ false)
  unfolding claims_of keys_of
  issued = signs.signs hs256 made service.secret token now until refl refl refl signed

  verify-early :
      (early : ℕ)
      → early + 1000000000 ≤ until
      → (keys_of jwt hmac service).verify early token ≡ some u
  unfolding claims_of keys_of verify keyfunc is_hmac
  verify-early early before =
      let (header, read, signature, _) = issued in
      let parsed =
        signs.accepts early token (keyfunc service) hs256 made service.secret header read refl
          signature (omega (arith, (signs.dates until).1, before)) tt in
      rw (parsed, verify, keys_of) refl

  verify-late : (late : ℕ) → until ≤ late → (keys_of jwt hmac service).verify late token ≡ none
  unfolding claims_of keys_of
  verify-late late after = elim (Option-cases ((keys_of jwt hmac service).verify late token)) [
    | inl gone ↦ gone
    | inr (v, named) ↦
        let g = verify-Genuine jwt hmac service checks late token v named in
        let same : g.claims ≡ made = cc (g.read, issued.1) in
        let life : late < jwt.numeric_date until =
          subst (λ (c : Claims). Unexpired late c.expires_at) same g.life in
        absurd (omega (arith, life, (signs.dates until).0, after))
  ]

-- After a login that succeeded, at any time up to a second before the end of the token's life, the
-- bearer header with the token and the session cookie name the user who logged in, and a request
-- that changes something passes the CSRF guard with the cookie and the CSRF token of the login; at
-- any time from the end of that life on, neither the header nor the cookie names anyone. golang-jwt
-- is taken to keep its documented behaviour, and HMAC to give bytes.
pub login_opens_api :
    (jwt : Jwt) (hmac : List ℕ → String → List ℕ) (service : Service) (vars : CookieSettings)
    (now early late : ℕ) (u password token csrf : String) (method : Method)
    → ChecksTokens jwt
    → SignsTokens jwt
    → IsBytes (keys_of jwt hmac service)
    → is_mutation method ≡ true
    → post_login (keys_of jwt hmac service) service.ttl now (some (u, password))
      ≡ write_json 200 (login token csrf)
    → early + 1000000000 ≤ now + service.ttl
    → now + service.ttl ≤ late
    → let keys = keys_of jwt hmac service in
      let cookie = (set_session_cookie vars service.ttl token).value in
      (bearer_claims keys early (bearer token) ≡ some u)
      × (verify_cookie keys early (some cookie) ≡ some u)
      × (passes_csrf keys method (some cookie) csrf ≡ true)
      × (bearer_claims keys late (bearer token) ≡ none)
      × (verify_cookie keys late (some cookie) ≡ none)
unfolding set_session_cookie
login_opens_api jwt hmac service vars now early late u password token csrf method checks signs bytes
      mutation h before after =
    let keys = keys_of jwt hmac service in
    let until = now + service.ttl in
    let (signed, bound) = post_login-ok keys service.ttl now u password token csrf h in
    let (_, _, _, solid) = issued jwt hmac service checks signs u token now until signed in
    let valid = verify-early jwt hmac service checks signs u token now until signed early before in
    let over = verify-late jwt hmac service checks signs u token now until signed late after in
    let named : token ≢ "" = λ e. ground (arith, named_of_solid token solid, eq_iff token "") in
    (
      bearer_claims-bearer keys early token solid ∙ valid,
      verify_cookie-value keys early token solid ∙ valid,
      rw bound ((csrf_guard keys method token csrf bytes mutation named).1),
      bearer_claims-bearer keys late token solid ∙ over,
      verify_cookie-value keys late token solid ∙ over,
    )
