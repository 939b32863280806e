-- ===== src/Http/RouterExamples.antt =====
-- The router at work: a stranger asks for a session, polls, and opens a page.
use ldndrc.Base.{ℕ, ◌≡◌, refl, arith, true, false, none, some, [], ◌∷◌, ok}
use ldndrc.Base.Map.{lookup, put}
use ldndrc.Http.Auth.{Keys, bearer_claims, passes_csrf}
use ldndrc.Http.Limiter.{new_limiter}
use ldndrc.Http.Router.{
  Setup, App, Turn, Request, create_session, end_session, poll_node, handle, serve,
}
use ldndrc.Base.{◌≤◌, length, ne_of_str_eq}
use ldndrc.Http.UsersApart.{users-Apart}
use ldndrc.Sessions.Apart.{Apart}
use ldndrc.Sessions.Methods.{list_sessions}
use ldndrc.Http.SlidingWindow.{hits_of}
use ldndrc.Http.Bounds.{after, hits_bounded}
use ldndrc.Http.Approval.{operator_approves}
use ldndrc.Nodes.Types.{Node}
use ldndrc.Nodes.Steps.{IsFresh}
use ldndrc.Nodes.Store.{
  is_approved, get, expire_if_elapsed, is_elapsed, register, is_invalid, fingerprint, new_id,
  insert_node, save_locked, new_node, approve, save_node,
}
use ldndrc.Base.{hex_encode}
use ldndrc.Base.Float.{fle, of_int}
use ldndrc.Nodes.Steps.{step}
use ldndrc.Http.Poll.{poll, poll_node as poll_one, poll_approved}
use ldndrc.Nodes.WatchExamples.{store, approved_node}
use ldndrc.Nodes.Types
use ldndrc.Sessions.Types as SessionTypes
use ldndrc.Sessions.Sections as SessionSections
use ldndrc.Sessions.Store.{new_id as new_session_id}
use ldndrc.Nodes.Examples
use ldndrc.Sessions.Examples as SessionExamples

abbrev pub keys : Keys
keys = record { sign = λ user now until. ok user; verify = λ now token. none; hmac = λ text. [] }

abbrev pub setup : Setup ℕ
setup = record {
  keys = keys;
  ttl = 3600000000000;
  lib = Examples.lib;
  settings = record { join_key = ""; auto_approve = false; join_url = "https://10.0.0.9:6443" };
  provisioner = none;
  minter = none;
  dist = none;
  clean = λ path. path;
}

abbrev pub turn : Turn
turn = record {
  now = 10;
  session_env = SessionExamples.later_env;
  session_later = SessionExamples.later_env;
  node_env = Examples.later_env;
  node_later = Examples.later_env;
  visited = [];
  write = none;
}

abbrev pub app : App ℕ
app = record {
  sessions = SessionExamples.with_both;
  nodes = store;
  limiter = new_limiter 10 60;
  cluster = 0;
}

abbrev pub asks : Request
asks = record { route = create_session; authorization = "Bearer forged"; cookie = none; csrf = "" }

pub asks-stranger : bearer_claims keys 10 "Bearer forged" ≡ none
unfolding bearer_claims
asks-stranger = refl

abbrev polls : Request
polls = record {
  route = poll_node "010203";
  authorization = "Bearer forged";
  cookie = none;
  csrf = "";
}

still_approved : lookup "010203" (handle setup turn polls app).1.nodes.nodes ≡ some approved_node
unfolding handle serve passes_csrf poll poll_one poll_approved get expire_if_elapsed is_elapsed step
    register is_invalid fingerprint new_id hex_encode lookup put insert_node save_locked new_node
    fle of_int approve save_node
still_approved = refl

pub no_node_id : (s : Types.Store) → IsFresh Examples.later_env s
unfolding new_id
no_node_id s i e = ground arith

operator_approves_example :
    (n : Node) × (lookup "010203" store.nodes ≡ some n) × (is_approved n.status ≡ true)
operator_approves_example =
    operator_approves setup turn polls app "010203" approved_node refl asks-stranger still_approved
      refl

hits_bounded_example :
    length (hits_of "10.0.0.1" (after ((9, "10.0.0.1") ∷ (3, "10.0.0.1") ∷ []) (new_limiter 1 60)))
    ≤ 1
hits_bounded_example = hits_bounded 1 60 ((9, "10.0.0.1") ∷ (3, "10.0.0.1") ∷ []) "10.0.0.1"

pub no_session_id : (s : SessionTypes.Store) → SessionSections.IsFresh SessionExamples.later_env s
unfolding new_session_id
no_session_id s i e = ground arith

abbrev pub alice_keys : Keys
alice_keys = record keys { verify = λ now token. some "alice" }

abbrev ends : Request
ends = record {
  route = end_session "010203";
  authorization = "Bearer t0ken";
  cookie = none;
  csrf = "";
}

pub ends-alice : bearer_claims alice_keys 10 "Bearer t0ken" ≡ some "alice"
unfolding bearer_claims
ends-alice = refl

users-Apart_example :
    let after = (handle (record setup { keys = alice_keys }) turn ends app).1.sessions in
    (list_sessions "bob" after ≡ list_sessions "bob" app.sessions)
    × Apart "alice" app.sessions after
users-Apart_example =
    users-Apart (record setup { keys = alice_keys }) turn "alice" ends app "bob"
      SessionExamples.both_well (no_session_id SessionExamples.with_both) ends-alice
      (ne_of_str_eq "bob" "alice" refl)
