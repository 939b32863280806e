-- ===== src/Http/LoginExamples.antt =====
-- The login at work: alice logs in for an hour.
use ldndrc.Base.{ℕ, List, ◌≡◌, refl, String, true, none, some, [], ◌∷◌, arith, hex_encode}
use ldndrc.Http.Types.{login, write_json}
use ldndrc.Http.Sessions.{post_login}
use ldndrc.Http.Auth.{
  Keys, issue, issue_csrf, bearer_claims, verify_cookie, CookieSettings, set_session_cookie, post,
  passes_csrf,
}
use ldndrc.Http.Csrf.{IsBytes}
use ldndrc.Http.Jwt.{keys_of, claims_of}
use ldndrc.Http.JwtExamples.{jwt, jwt-ChecksTokens, jwt-SignsTokens, service, hour}
use ldndrc.Http.Login.{bearer, login_opens_api}

-- A stand-in for HMAC: the same two bytes for each text
abbrev hmac : List ℕ → String → List ℕ
hmac key text = 10 ∷ 255 ∷ []

abbrev keys : Keys
keys = keys_of jwt hmac service

keys-IsBytes : IsBytes keys
unfolding keys_of
keys-IsBytes text = (omega arith, (omega arith, tt))

abbrev vars : CookieSettings
vars = record { name = ""; secure = "true"; domain = "" }

logged_in :
    post_login keys hour 0 (some ("alice", "secret")) ≡ write_json 200 (login "t0ken" "0aff")
unfolding post_login issue issue_csrf hex_encode keys_of claims_of
logged_in = refl

login_opens_api_example :
    (bearer_claims keys 5 (bearer "t0ken") ≡ some "alice")
    × (verify_cookie keys 5 (some (set_session_cookie vars hour "t0ken").value) ≡ some "alice")
    × (passes_csrf keys post (some (set_session_cookie vars hour "t0ken").value) "0aff" ≡ true)
    × (bearer_claims keys hour (bearer "t0ken") ≡ none)
    × (verify_cookie keys hour (some (set_session_cookie vars hour "t0ken").value) ≡ none)
login_opens_api_example =
    login_opens_api jwt hmac service vars 0 5 hour "alice" "secret" "t0ken" "0aff" post
      jwt-ChecksTokens jwt-SignsTokens keys-IsBytes refl logged_in (omega arith) (omega arith)
