-- ===== src/Http/Poll.antt =====
-- GET /api/nodes/{id} of control-panel/internal/httpapi/router.go: the poll of a joining laptop.
use ldndrc.Base.{
  ℕ, String, Bool, false, Option, none, some, [], ◌∷◌, Result, ok, err, concat, str_eq,
  if◌then◌else◌,
}
use ldndrc.Http.Types.{failure, poll_status, poll_reason, poll_token, Response, write_json}
use ldndrc.Nodes.Types.{expired, Node, Store, Env}
use ldndrc.Nodes.Store.{get, is_approved, mark_minted, expire_if_elapsed}
use ldndrc.Nodes.Tokens.{Minter}

abbrev pub is_changed {ℓ} : {E : Type ℓ} → Result E Bool → Bool
is_changed (ok b) = b
is_changed (err e) = false

module _ {W : Type 0} where
  -- The part behind MintToken. A failed MarkMinted is logged only.
  unfoldable pub hand_out :
      String → Env → Node → Result String (String × String) → Store → W → Response × Store × W
  hand_out join_url env n (err e) s w = (write_json 500 (failure "token mint failed"), s, w)
  hand_out join_url env n (ok (token, token_id)) s w =
      let (_, s') = mark_minted env n.id token_id s in
      (
        if str_eq join_url ""
            then write_json 503 (failure "join URL not configured")
            else write_json 200 (poll_token n.status join_url token n.node_name),
        s',
        w,
      )

  -- The case of an approved node
  unfoldable pub poll_approved :
      Option (Minter W) → String → Env → Node → Store → W → Response × Store × W
  poll_approved none join_url env n s w =
      (write_json 503 (failure "join service unavailable"), s, w)
  poll_approved (some m) join_url env n s w =
      if str_eq n.token_id ""
      then (let (r, w') = m.mint n.node_name (concat ("ldndrc-" ∷ n.id ∷ [])) w in
          hand_out join_url env n r s w')
      else (write_json 200 (poll_status n.status), s, w)

  -- The switch over the status that the handler sees
  unfoldable pub poll_node :
      Option (Minter W) → String → Env → Node → Store → W → Response × Store × W
  poll_node m join_url env n s w =
      if is_approved n.status
      then poll_approved m join_url env n s w
      else (write_json 200 (poll_reason n.status n.reason), s, w)

  -- The handler: Get, ExpireIfElapsed at `now`, and the answer. The locked sections of
  -- ExpireIfElapsed and MarkMinted have environments of their own.
  unfoldable pub poll :
      Option (Minter W) → String → Env → Env → ℕ → String → Store → W → Response × Store × W
  poll m join_url env later now id s w = elim (get id s) [
    | err e ↦ (write_json 404 (failure "unknown node id"), s, w)
    | ok n ↦
        let (r, s') = expire_if_elapsed env n.id now s in
        if is_changed r
        then poll_node m join_url later (record n { status = expired }) s' w
        else poll_node m join_url later n s' w
  ]
