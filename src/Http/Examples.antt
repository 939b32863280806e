-- ===== src/Http/Examples.antt =====
-- The HTTP layer at work: a limiter, a CSRF token and the poll of an approved laptop.
use ldndrc.Base.{
  ◌≡◌, ◌≢◌, ◌↔◌, ◌≤◌, refl, String, ℕ, true, false, some, List, [], ◌∷◌, ok, ltb, arith, hex_encode,
  ne_of_str_eq,
}
use ldndrc.Base.Float.{of_int, fle}
use ldndrc.Base.Map.{lookup, put}
use ldndrc.Http.Limiter.{Limiter, new_limiter, allow}
use ldndrc.Http.SlidingWindow.{replay, in_window, sliding_window}
use ldndrc.Http.Auth.{Keys, post, hex_decode, passes_csrf, issue_csrf}
use ldndrc.Http.Csrf.{IsBytes, mac, csrf_guard}
use ldndrc.Http.Types.{Response, write_json}
use ldndrc.Http.Poll.{poll, poll_node, poll_approved, hand_out}
use ldndrc.Http.TokenOnce.{NamesTokens, here, delivers, token_once}
use ldndrc.Nodes.Types.{Store}
use ldndrc.Nodes.Store.{
  new_id, mark_minted, save_node, save_locked, expire_if_elapsed, is_elapsed, get, fingerprint,
}
use ldndrc.Http.Sessions.{post_session, get_sessions, get_session, delete_session}
use ldndrc.Http.Isolation.{Own, no_foreign_sessions}
use ldndrc.Sessions.Examples.{cluster, bob_env, later_env, with_alice, bob-IsFresh, alice_well}
use ldndrc.Nodes.Examples.{lib, env, approved_store, approved_well, take_secret, mint_env}
use ldndrc.Nodes.Store.{register, is_invalid, insert_node, new_node, approve}
use ldndrc.Nodes.Steps.{step}
use ldndrc.Nodes.Tokens.{
  Minter, bootstrap_minter, mint_token, finish_mint, rand_token, token_text, char_at, ca_hash,
  new_secret, secure_token,
}
use ldndrc.Http.TokenNames.{bootstrap_minter-NamesTokens}

abbrev calls : List (ℕ × String)
calls = (1, "10.0.0.1") ∷ (2, "10.0.0.1") ∷ (3, "10.0.0.2") ∷ (4, "10.0.0.1") ∷ []

abbrev replayed : Limiter × List ℕ
replayed = replay "10.0.0.1" calls (new_limiter 2 60) []

sliding_window_example :
    (in_window 60 62 replayed.1 ≤ 2)
    × ((allow 62 "10.0.0.1" replayed.0).0 ≡ ltb (in_window 60 62 replayed.1) 2)
sliding_window_example =
    sliding_window "10.0.0.1" 2 60 calls 62
      (omega arith, (omega arith, (omega arith, (omega arith, tt)))) (omega arith)

-- A stand-in for the keys: HMAC gives the same two bytes for each text.
abbrev keys : Keys
keys = record {
  sign = λ user now until. ok user;
  verify = λ now token. some token;
  hmac = λ text. 10 ∷ 255 ∷ [];
}

keys-IsBytes : IsBytes keys
keys-IsBytes text = (omega arith, (omega arith, tt))

csrf_guard_example :
    ((passes_csrf keys post (some "jwt") "0aff" ≡ true)
      ↔ (hex_decode "0aff" ≡ some (mac keys "jwt")))
    × (passes_csrf keys post (some "jwt") (issue_csrf keys "jwt") ≡ true)
csrf_guard_example =
    csrf_guard keys post "jwt" "0aff" keys-IsBytes refl (ne_of_str_eq "jwt" "" refl)

-- The bootstrap minter over an API server that takes each Secret
abbrev minter : Minter ℕ
minter = bootstrap_minter lib take_secret mint_env

some_id : mint_env.random_id ≢ ok []
some_id e = ground (arith, e)

minter-NamesTokens : NamesTokens minter.mint
minter-NamesTokens = bootstrap_minter-NamesTokens lib take_secret mint_env some_id

abbrev first_poll : Response × Store × ℕ
first_poll = poll (some minter) "https://10.0.0.9:6443" env env 8 "010203" approved_store 0

first_delivers : delivers first_poll.0 ≡ true
unfolding poll poll_node poll_approved hand_out get lookup expire_if_elapsed is_elapsed mark_minted
    save_node save_locked write_json step register is_invalid fingerprint new_id hex_encode put
    insert_node new_node fle of_int approve bootstrap_minter mint_token finish_mint rand_token
    token_text char_at ca_hash new_secret secure_token
first_delivers = refl

token_once_example :
    delivers (poll (some minter) "https://10.0.0.9:6443" env env 9 "010203" first_poll.1 1).0
    ≡ false
token_once_example =
    token_once minter lib "https://10.0.0.9:6443" env env 8 "010203" approved_store first_poll.1 0
      (some minter) "https://10.0.0.9:6443" env env 9 1 minter-NamesTokens approved_well
      first_delivers here

no_foreign_sessions_example :
    Own "alice" (post_session (some cluster) bob_env later_env with_alice 1 (some "alice")).0
    × Own "alice" (get_sessions (some cluster) bob_env later_env with_alice 1 (some "alice")).0
    × Own "alice"
        (get_session (some cluster) bob_env later_env with_alice 1 "010203" (some "alice")).0
    × Own "alice"
        (delete_session (some cluster) bob_env later_env with_alice 1 "010203" (some "alice")).0
no_foreign_sessions_example =
    no_foreign_sessions (some cluster) bob_env later_env with_alice 1 "alice" "010203" bob-IsFresh
      alice_well
