-- ===== src/Http/PollSteps.antt =====
-- What a poll does to the nodes: an expiry and a minting, at most.
use ldndrc.Base.{
  ℕ, ◌≡◌, sym, subst, inl, inr, String, Option, none, some, Result, ok, err, arith, str_eq,
  Bool-cases, Result-cases,
}
use ldndrc.Http.Poll.{poll, poll_node, poll_approved, hand_out, is_changed}
use ldndrc.Nodes.Types.{Node, Env, Store, expired}
use ldndrc.Nodes.Store.{is_approved, mark_minted, expire_if_elapsed, get}
use ldndrc.Nodes.Tokens.{Minter}

module _ {ℓ} {W : Type 0} (minter : Option (Minter W)) (url : String) (env later : Env) (now : ℕ)
    (concerns : String → Type 0) (follows : Store → Store → Type ℓ)
    (stay : (s : Store) → follows s s)
    (chain : (s t u : Store) → follows s t → follows t u → follows s u)
    (expiry : (id : String) (s : Store)
      → concerns id
      → follows s (expire_if_elapsed env id now s).1)
    (minting : (id token_id : String) (s : Store)
      → concerns id
      → follows s (mark_minted later id token_id s).1) where
  hand_out-follows :
      (n : Node) (r : Result String (String × String)) (s : Store) (w : W)
      → concerns n.id
      → follows s (hand_out url later n r s w).1
  unfolding hand_out
  hand_out-follows n (err e) s w c = stay s
  hand_out-follows n (ok (token, token_id)) s w c = minting n.id token_id s c

  poll_approved-follows :
      (m : Option (Minter W)) (n : Node) (s : Store) (w : W)
      → concerns n.id
      → follows s (poll_approved m url later n s w).1
  unfolding poll_approved
  poll_approved-follows none n s w c = stay s
  poll_approved-follows (some m) n s w c = elim (Bool-cases (str_eq n.token_id "")) [
    | inl new ↦ rw new (hand_out-follows n _ s _ c)
    | inr old ↦ rw old (stay s)
  ]

  poll_node-follows :
      (n : Node) (s : Store) (w : W)
      → concerns n.id
      → follows s (poll_node minter url later n s w).1
  unfolding poll_node
  poll_node-follows n s w c = elim (Bool-cases (is_approved n.status)) [
    | inl good ↦ rw good (poll_approved-follows minter n s w c)
    | inr bad ↦ rw bad (stay s)
  ]

  polled :
      (id : String) (s t : Store) (w : W)
      → (poll minter url env later now id s w).1 ≡ t
      → follows s t
      → follows s (poll minter url env later now id s w).1
  polled id s t w e r = subst (follows s) (sym e) r

  -- A relation that holds of an expiry and of a minting of the node that a poll concerns, and of what
  -- follows one another, holds of the poll.
  pub poll-follows :
      (id : String) (s : Store) (w : W)
      → ((n : Node) → get id s ≡ ok n → concerns n.id)
      → follows s (poll minter url env later now id s w).1
  unfolding poll
  poll-follows id s w c = elim (Result-cases (get id s)) [
    | inr (e, gone) ↦ polled id s s w (ground (arith, gone)) (stay s)
    | inl (n, there) ↦
        let t = (expire_if_elapsed env n.id now s).1 in
        elim (Bool-cases (is_changed (expire_if_elapsed env n.id now s).0)) [
          | inl over ↦
              let n' = record n { status = expired } in
              let u = (poll_node minter url later n' t w).1 in
              polled id s u w (ground (arith, there, over))
                (chain s t u (expiry n.id s (c n there)) (poll_node-follows n' t w (c n there)))
          | inr live ↦
              let u = (poll_node minter url later n t w).1 in
              polled id s u w (ground (arith, there, live))
                (chain s t u (expiry n.id s (c n there)) (poll_node-follows n t w (c n there)))
        ]
  ]
