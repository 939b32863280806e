-- ===== src/Http/HandOut.antt =====
-- The first poll after an approval, at the router.
use ldndrc.Base.{ℕ, ◌≡◌, ◌≢◌, refl, String, false, some, ok, arith, eq_iff, concat, [], ◌∷◌}
use ldndrc.Base.Map.{lookup}
use ldndrc.Http.Auth.{passes_csrf}
use ldndrc.Http.Poll.{poll, poll_node, poll_approved, hand_out}
use ldndrc.Http.Router.{Setup, App, Turn, Request, json, serve, handle}
use ldndrc.Http.Router
use ldndrc.Http.Types.{poll_token, write_json}
use ldndrc.Nodes.Types.{Node, Env, Store, approved}
use ldndrc.Nodes.Store.{get, is_elapsed, mark_minted, expire_if_elapsed}
use ldndrc.Nodes.Tokens.{Minter}

-- A node that the operator has approved, whose token is not issued, and what the minter answers
pub record IsDue {W : Type 0} (m : Minter W) (now : ℕ) (id : String) (s : Store) (w : W) (n : Node)
    (token token_id : String) : Type 0 where
  pub found : lookup id s.nodes ≡ some n
  pub keyed : n.id ≡ id
  pub approval : n.status ≡ approved
  pub unissued : n.token_id ≡ ""
  pub live : is_elapsed now n ≡ false
  pub minted : (m.mint n.node_name (concat ("ldndrc-" ∷ id ∷ [])) w).0 ≡ ok (token, token_id)

module _ {W : Type 0} (m : Minter W) (url : String) (env later : Env) (now : ℕ) (id : String)
    (s : Store) (w : W) (n : Node) (token token_id : String) (set : url ≢ "")
    (due : IsDue m now id s w n token token_id) where
  expire_if_elapsed-live : expire_if_elapsed env id now s ≡ (ok false, s)
  unfolding expire_if_elapsed
  expire_if_elapsed-live = ground (arith, due.found, due.live)

  hand_out-due :
      (v : W)
      → hand_out url later n (ok (token, token_id)) s v ≡ (
        write_json 200 (poll_token approved url token n.node_name),
        (mark_minted later id token_id s).1,
        v,
      )
  unfolding hand_out
  hand_out-due v = ground (arith, due.keyed, due.approval, set, eq_iff url "")

  poll_node-due : poll_node (some m) url later n s w ≡ (
    write_json 200 (poll_token approved url token n.node_name),
    (mark_minted later id token_id s).1,
    (m.mint n.node_name (concat ("ldndrc-" ∷ id ∷ [])) w).1,
  )
  unfolding poll_node poll_approved
  poll_node-due =
      let v = (m.mint n.node_name (concat ("ldndrc-" ∷ id ∷ [])) w).1 in
      ground (
        arith,
        due.keyed,
        due.approval,
        due.unissued,
        eq_iff n.token_id "",
        due.minted,
        hand_out-due v,
      )

  pub poll-due : poll (some m) url env later now id s w ≡ (
    write_json 200 (poll_token approved url token n.node_name),
    (mark_minted later id token_id s).1,
    (m.mint n.node_name (concat ("ldndrc-" ∷ id ∷ [])) w).1,
  )
  unfolding poll get
  poll-due = ground (arith, due.found, due.keyed, expire_if_elapsed-live, poll_node-due)

-- What the first poll after an approval leaves of the application
abbrev pub after_hand_out : {W : Type 0} → Minter W → Turn → String → Node → String → App W → App W
after_hand_out m turn id n token_id app = record app {
  nodes = (mark_minted turn.node_later id token_id app.nodes).1;
  cluster = (m.mint n.node_name (concat ("ldndrc-" ∷ id ∷ [])) app.cluster).1;
}

module _ {W : Type 0} (setup : Setup W) (turn : Turn) (m : Minter W) (req : Request) (app : App W)
    (id : String) (n : Node) (token token_id : String) (minter : setup.minter ≡ some m)
    (set : setup.settings.join_url ≢ "")
    (due : IsDue m turn.now id app.nodes app.cluster n token token_id)
    (polls : req.route ≡ Router.poll_node id) where
  pub handle-due : handle setup turn req app ≡ (
    json (write_json 200 (poll_token approved setup.settings.join_url token n.node_name)),
    after_hand_out m turn id n token_id app,
  )
  unfolding handle serve passes_csrf
  handle-due =
      let p =
        poll-due m setup.settings.join_url turn.node_env turn.node_later turn.now id app.nodes
          app.cluster n token token_id set due in
      rw (polls, minter, p) refl
