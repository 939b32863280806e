-- ===== src/Http/Csrf.antt =====
-- The CSRF guard: which requests it passes on.
use ldndrc.Base.{
  ℕ, ◌<◌, ◌≡◌, ◌≢◌, ◌↔◌, refl, inl, inr, String, true, false, not, none, some, List, [], ◌∷◌, All,
  concat, arith, eq_iff, Option-cases, length, ◌==◌, if◌then◌else◌,
}
use ldndrc.Http.Hex.{hex_decode-encode}
use ldndrc.Http.Auth.{
  Keys, hex_decode, same_bytes, issue_csrf, verify_csrf, Method, is_mutation, passes_csrf,
}

-- Two bytes lists pass the comparison exactly if they are equal.
same_bytes_iff : (xs ys : List ℕ) → (same_bytes xs ys ≡ true) ↔ (xs ≡ ys)
unfolding same_bytes
same_bytes_iff [] [] = ((λ e. refl), (λ e. refl))
same_bytes_iff [] (y ∷ ys) = ((λ e. cc), (λ e. cc))
same_bytes_iff (x ∷ xs) [] = ((λ e. cc), (λ e. cc))
same_bytes_iff (x ∷ xs) (y ∷ ys) = (
  (λ e. ground (arith, (same_bytes_iff xs ys).0)),
  (λ e. ground (arith, (same_bytes_iff xs ys).1)),
)

-- The bytes that the token of a session must stand for
abbrev pub mac : Keys → String → List ℕ
mac keys token = keys.hmac (concat ("csrf:" ∷ token ∷ []))

-- The parameter `hmac` gives bytes.
abbrev pub IsBytes : Keys → Type 0
IsBytes keys = (text : String) → All (λ b. b < 256) (keys.hmac text)

verify_csrf_cases :
    (keys : Keys) (token csrf : String)
    → IsBytes keys
    → verify_csrf keys token csrf ≡ elim (hex_decode csrf) [
      | none ↦ false
      | some got ↦
          if not (length got == length (mac keys token))
          then false
          else same_bytes got (mac keys token)
    ]
unfolding verify_csrf issue_csrf
verify_csrf_cases keys token csrf h = elim (Option-cases (hex_decode csrf)) [
  | inl e ↦ ground arith
  | inr (got, e) ↦ ground (arith, hex_decode-encode (mac keys token) (h _))
]

verify_csrf_iff :
    (keys : Keys) (token csrf : String)
    → IsBytes keys
    → (verify_csrf keys token csrf ≡ true) ↔ (hex_decode csrf ≡ some (mac keys token))
verify_csrf_iff keys token csrf h =
    let e = verify_csrf_cases keys token csrf h in
    elim (Option-cases (hex_decode csrf)) [
      | inl bad ↦ ((λ t. ground arith), (λ t. ground arith))
      | inr (got, good) ↦
          let same = same_bytes_iff got (mac keys token) in
          ((λ t. ground (arith, same.0)), (λ t. ground (arith, same.1)))
    ]

-- A request that changes something and carries the session cookie passes the guard exactly if its
-- X-CSRF-Token header is hexadecimal for the HMAC of that cookie, and the token that the login
-- issued for the cookie is. The guard reads neither the path nor the Authorization header, so this
-- holds of the login, which docs/roadmap.md calls wrong, and of a request with a bearer token. HMAC is
-- taken to give bytes.
pub csrf_guard :
    (keys : Keys) (method : Method) (cookie csrf : String)
    → IsBytes keys
    → is_mutation method ≡ true
    → cookie ≢ ""
    → ((passes_csrf keys method (some cookie) csrf ≡ true)
        ↔ (hex_decode csrf ≡ some (mac keys cookie)))
      × (passes_csrf keys method (some cookie) (issue_csrf keys cookie) ≡ true)
unfolding passes_csrf
csrf_guard keys method cookie csrf h mutation named =
    let iff = verify_csrf_iff keys cookie csrf h in
    let own = verify_csrf_iff keys cookie (issue_csrf keys cookie) h in
    (
      (
        (λ t. iff.0 (ground (arith, eq_iff cookie ""))),
        (λ t. ground (arith, eq_iff cookie "", iff.1 t)),
      ),
      ground (
        arith,
        eq_iff cookie "",
        own.1 (unfold issue_csrf in hex_decode-encode (mac keys cookie) (h _)),
      ),
    )
