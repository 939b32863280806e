-- ===== src/Http/Auth.antt =====
-- control-panel/internal/auth/auth.go, bearerClaims of httpapi/router.go and httpapi/csrf.go.
-- Signing and checking a JWT and HMAC-SHA256 are parameters.
use Prim.Native.Char.{code}
use Prim.Native.String.{slice, len}
use text.Mathlib.Text.{starts_with}
use ldndrc.Base.{
  ℕ, ◌+◌, ◌-◌, ◌*◌, ◌/◌, ℤ, pos, negsuc, is_blank, leb, ◌==◌, String, Bool, true, false, not, ◌&&◌,
  Option, none, some, List, [], ◌∷◌, Result, concat, hex_encode, str_eq, length, if◌then◌else◌,
}

-- What the handlers ask of auth.Service: SignedString with the claims of Issue, the user name that
-- Verify finds, and crypto/hmac over SHA-256 with the secret. keys_of in Http/Jwt.antt fills it.
pub record Keys : Type 0 where
  pub sign : String → ℕ → ℕ → Result String String
  pub verify : ℕ → String → Option String
  pub hmac : String → List ℕ

-- Issue, for a service whose tokens live for `ttl`
unfoldable pub issue : Keys → ℕ → ℕ → String → Result String String
issue keys ttl now username = keys.sign username now (now + ttl)

-- The value of a hexadecimal digit
unfoldable pub hex_value : ℕ → Option ℕ
hex_value c =
    if leb b'0' c && leb c b'9'
    then some (c - b'0')
    else if leb b'a' c && leb c b'f'
    then some (c - b'a' + 10)
    else if leb b'A' c && leb c b'F'
    then some (c - b'A' + 10)
    else none

-- One byte in front of those that are decoded
abbrev pub byte_before : Option ℕ → Option ℕ → Option (List ℕ) → Option (List ℕ)
byte_before (some hi) (some lo) (some rest) = some ((hi * 16 + lo) ∷ rest)
byte_before _ _ _ = none

-- hex.DecodeString
unfoldable pub hex_decode : String → Option (List ℕ)
unfolding hex_value
hex_decode String.[] = some []
hex_decode (String.◌∷◌ c String.[]) = none
hex_decode (String.◌∷◌ c (String.◌∷◌ d rest)) =
    byte_before (hex_value (code c)) (hex_value (code d)) (hex_decode rest)

-- subtle.ConstantTimeCompare, behind the test of the lengths
unfoldable pub same_bytes : List ℕ → List ℕ → Bool
same_bytes [] [] = true
same_bytes (a ∷ xs) (b ∷ ys) = a == b && same_bytes xs ys
same_bytes _ _ = false

-- IssueCSRF
unfoldable pub issue_csrf : Keys → String → String
issue_csrf keys token = hex_encode (keys.hmac (concat ("csrf:" ∷ token ∷ [])))

-- wantBytes, _ := hex.DecodeString(want)
abbrev pub bytes_or_nil : Option (List ℕ) → List ℕ
bytes_or_nil none = []
bytes_or_nil (some bs) = bs

-- VerifyCSRF
unfoldable pub verify_csrf : Keys → String → String → Bool
verify_csrf keys token csrf = elim (hex_decode csrf) [
  | none ↦ false
  | some got ↦
      let want = bytes_or_nil (hex_decode (issue_csrf keys token)) in
      if not (length got == length want) then false else same_bytes got want
]

-- CookieName
unfoldable pub cookie_name : String → String
cookie_name env = if not (str_eq env "") then env else "ldndrc_session"

-- bearerClaims: the user of the Authorization header, by strings.CutPrefix and Verify
unfoldable pub bearer_claims : Keys → ℕ → String → Option String
bearer_claims keys now header =
    if not (starts_with header "Bearer ")
    then none
    else let token = slice header 7 (len header) in
      if str_eq token "" then none else keys.verify now token

pub data Method : Type 0 where
  get post put patch delete : Method
  other_method : String → Method

abbrev pub is_mutation : Method → Bool
is_mutation post = true
is_mutation put = true
is_mutation patch = true
is_mutation delete = true
is_mutation _ = false

-- guardCSRF: whether the request is passed on. `cookie` is the value of the session cookie.
unfoldable pub passes_csrf : Keys → Method → Option String → String → Bool
passes_csrf keys method cookie csrf = if not (is_mutation method) then true else elim cookie [
  | none ↦ true
  | some value ↦ if str_eq value "" then true else verify_csrf keys value csrf
]

-- VerifyCookie: the user of the session cookie, of which `cookie` is the value, if it is sent
unfoldable pub verify_cookie : Keys → ℕ → Option String → Option String
verify_cookie keys now none = none
verify_cookie keys now (some value) = if is_blank value then none else keys.verify now value

-- http.Cookie, by the fields that are set here; SameSite is Lax and Path is / throughout. `-1` for
-- MaxAge deletes the cookie.
pub record Cookie : Type 0 where
  pub name : String
  pub value : String
  pub max_age : ℤ
  pub http_only : Bool
  pub secure : Bool
  pub domain : String

-- SESSION_COOKIE_NAME, COOKIE_SECURE and COOKIE_DOMAIN
pub record CookieSettings : Type 0 where
  pub name : String
  pub secure : String
  pub domain : String

-- SetSessionCookie; `ttl` is in nanoseconds.
unfoldable pub set_session_cookie : CookieSettings → ℕ → String → Cookie
unfolding cookie_name
set_session_cookie vars ttl token = record {
  name = cookie_name vars.name;
  value = token;
  max_age = pos (ttl / 1000000000);
  http_only = true;
  secure = str_eq vars.secure "true";
  domain = vars.domain;
}

-- ClearSessionCookie
unfoldable pub clear_session_cookie : CookieSettings → Cookie
unfolding cookie_name
clear_session_cookie vars = record {
  name = cookie_name vars.name;
  value = "";
  max_age = negsuc 0;
  http_only = true;
  secure = str_eq vars.secure "true";
  domain = "";
}
