-- ===== src/Http/JwtExamples.antt =====
-- A token that opens the API, over a small stand-in for golang-jwt.
use ldndrc.Base.{
  ℕ, ◌<◌, ◌/◌, ◌*◌, ◌==◌, ==_iff, subst, sym, ap, ◌∙◌, ◌≡◌, refl, arith, is_blank, String, Bool,
  true, false, ◌&&◌, Option, none, some, List, [], ◌∷◌, Result, ok, err, str_eq, eq_iff, ltb, inl,
  inr, Bool-cases, Result-cases, if◌then◌else◌,
}
use ldndrc.Http.Auth.{bearer_claims}
use ldndrc.Http.Jwt.{
  Keyfunc, Jwt, Service, Claims, SigningMethod, hs256, hs384, hs512, other_method, Token,
  ChecksTokens, Genuine, is_hmac, keyfunc, verify, keys_of, user_of, carried, bearer_header,
  credentials-Genuine, Unexpired, HasBegun,
}
use ldndrc.Http.Login.{SignsTokens}

abbrev pub hour : ℕ
hour = 3600000000000

abbrev claims : Claims
claims = record {
  username = "alice";
  issued_at = some 0;
  expires_at = some hour;
  not_before = none;
}

abbrev is_known : String → Option ℕ → Option ℕ → Option ℕ → Bool
is_known u (some i) (some e) none = str_eq u "alice" && i == 0 && e == hour
is_known u _ _ _ = false

known_lem :
    (u : String) (i e b : Option ℕ)
    → is_known u i e b ≡ true
    → record { username = u; issued_at = i; expires_at = e; not_before = b } ≡ claims
known_lem u (some i) (some e) none h =
    ground (arith, eq_iff u "alice", ==_iff i 0, ==_iff e hour, h)
known_lem u _ _ _ h = absurd (ground (arith, h))

abbrev is_key : List ℕ → Bool
is_key (a ∷ b ∷ []) = a == 1 && b == 2
is_key _ = false

-- The one token of the stand-in: HS256, with the key 1, 2
abbrev t0ken : String
t0ken = "t0ken"

abbrev signed : SigningMethod → List ℕ → String → Bool
signed hs256 key text = str_eq text t0ken && is_key key
signed _ key text = false

abbrev sign : SigningMethod → Bool → Result String String
sign hs256 true = ok t0ken
sign _ _ = err "no key"

abbrev payload : String → Option Claims
payload text = if str_eq text t0ken then some claims else none

abbrev token_of_alice : Token
token_of_alice = record { method = hs256; claims = claims; is_claims = true; valid = true }

abbrev parsed : ℕ → String → Result String (List ℕ) → Result String Token
parsed now text (err e) = err e
parsed now text (ok key) =
    if str_eq text t0ken && is_key key && ltb now hour
    then ok token_of_alice
    else err "token signature is invalid"

abbrev pub jwt : Jwt
jwt = record {
  numeric_date = λ t. t / 1000000000 * 1000000000;
  signed_string = λ method c key.
      sign method (is_known c.username c.issued_at c.expires_at c.not_before && is_key key);
  parse_with_claims = λ now text key_for. parsed now text (key_for hs256);
  method_of = λ text. some hs256;
  payload = payload;
  signed = signed;
}

abbrev Checked : ℕ → String → Keyfunc → Token → Type 0
Checked now text key_for token =
    (key : List ℕ) × (some hs256 ≡ some token.method)
    × (payload text ≡ some token.claims)
    × (key_for token.method ≡ ok key)
    × (signed token.method key text ≡ true)
    × Unexpired now token.claims.expires_at
    × HasBegun now token.claims.not_before

parsed_lem :
    (now : ℕ) (text : String) (key_for : Keyfunc) (token : Token)
    → parsed now text (key_for hs256) ≡ ok token
    → Checked now text key_for token
parsed_lem now text key_for token h = elim (Result-cases (key_for hs256)) [
  | inr (e, no_key) ↦ absurd (ground (arith, no_key, h))
  | inl (key, given) ↦ elim (Bool-cases (str_eq text t0ken && is_key key && ltb now hour)) [
    | inr bad ↦ absurd (ground (arith, given, bad, h))
    | inl good ↦
        let e : token_of_alice ≡ token = ground (arith, given, good, h) in
        let a : payload text ≡ some claims = ground (arith, good) in
        let b : signed hs256 key text ≡ true = ground (arith, good) in
        let c : now < hour = ground (arith, good) in
        subst (Checked now text key_for) e (key, refl, a, given, b, c, tt)
  ]
]

pub jwt-ChecksTokens : ChecksTokens jwt
jwt-ChecksTokens = record { checks = λ now text key_for token. parsed_lem now text key_for token }

sign_lem :
    (method : SigningMethod) (good : Bool) (text : String)
    → sign method good ≡ ok text
    → (method ≡ hs256) × (good ≡ true) × (text ≡ t0ken)
sign_lem hs256 true text h = (refl, refl, ground (arith, h))
sign_lem hs256 false text h = absurd (ground (arith, h))
sign_lem hs384 good text h = absurd (ground (arith, h))
sign_lem hs512 good text h = absurd (ground (arith, h))
sign_lem (other_method name) good text h = absurd (ground (arith, h))

signs_lem :
    (method : SigningMethod) (c : Claims) (key : List ℕ) (text : String)
    → jwt.signed_string method c key ≡ ok text
    → (some hs256 ≡ some method)
      × (payload text ≡ some c)
      × (signed method key text ≡ true)
      × (is_blank text ≡ false)
unfolding is_blank
signs_lem method c key text h =
    let (same, good, e) = sign_lem method _ text h in
    let known : is_known c.username c.issued_at c.expires_at c.not_before ≡ true =
      ground (arith, good) in
    let k : is_key key ≡ true = ground (arith, good) in
    let d = known_lem c.username c.issued_at c.expires_at c.not_before known in
    (ap some (sym same), rw e (ap some (sym d)), rw (e, same) k, rw e refl)

accepts_lem :
    (now : ℕ) (text : String) (key_for : Keyfunc) (method : SigningMethod) (c : Claims)
    (key : List ℕ)
    → some hs256 ≡ some method
    → payload text ≡ some c
    → key_for method ≡ ok key
    → signed method key text ≡ true
    → Unexpired now c.expires_at
    → parsed now text (key_for hs256)
      ≡ ok (record { method = method; claims = c; is_claims = true; valid = true })
accepts_lem now text key_for method c key m p given good life =
    let same : hs256 ≡ method = cc m in
    elim (Bool-cases (str_eq text t0ken)) [
      | inr other ↦ absurd (ground (arith, other, p))
      | inl hit ↦
          let d : claims ≡ c = ground (arith, hit, p) in
          let asked : key_for hs256 ≡ ok key = ap key_for same ∙ given in
          let k : signed hs256 key text ≡ true = ap (λ n. signed n key text) same ∙ good in
          let early : now < hour =
            subst (λ (x : Claims). Unexpired now x.expires_at) (sym d) life in
          let e : parsed now text (key_for hs256) ≡ ok token_of_alice =
            ground (arith, asked, hit, k, early) in
          e ∙ (λ i. ok (record { method = same i; claims = d i; is_claims = true; valid = true }))
    ]

pub jwt-SignsTokens : SignsTokens jwt
jwt-SignsTokens = record {
  dates = λ t. (omega arith, omega arith);
  signs = λ method c key text now until issued expires begins h. signs_lem method c key text h;
  accepts = λ now text key_for method c key m p given good life begun.
      accepts_lem now text key_for method c key m p given good life;
}

abbrev pub service : Service
service = record { secret = 1 ∷ 2 ∷ []; ttl = hour }

accepted :
    user_of (keys_of jwt (λ key text. []) service) 7 (bearer_header "Bearer t0ken") ≡ some "alice"
unfolding keys_of verify keyfunc is_hmac bearer_claims
accepted = refl

credentials-Genuine_example : Genuine jwt service 7 (carried (bearer_header "Bearer t0ken")) "alice"
credentials-Genuine_example =
    credentials-Genuine jwt (λ key text. []) service jwt-ChecksTokens 7
      (bearer_header "Bearer t0ken") "alice" accepted
