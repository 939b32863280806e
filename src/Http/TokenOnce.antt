-- ===== src/Http/TokenOnce.antt =====
-- The poll hands out the bootstrap token of an approval once.
use ldndrc.Base.{
  ◌≡◌, ◌≢◌, sym, subst, inl, inr, String, Bool, true, false, not, Option, some, Result, ok, arith,
  str_eq, ℕ, eq_iff, Bool-cases, Option-cases, Result-cases, concat, [], ◌∷◌,
}
use ldndrc.Base.Map.{lookup, lookup-put, lookup-put_self}
use ldndrc.Http.Types.{Body, poll_token, Response, write_json}
use ldndrc.Http.Poll.{hand_out, poll_approved, poll_node, poll, is_changed}
use ldndrc.Nodes.Types.{Node, Store, Env, Library}
use ldndrc.Nodes.Store.{get, is_approved, mark_minted, save_node, save_locked, expire_if_elapsed}
use ldndrc.Nodes.Steps.{Op, registers, approves, joins, denies, mints, expires, step, IsFresh}
use ldndrc.Nodes.Effects.{target, update, keeps, writes, expire-Effect, step-Effect, step-registers}
use ldndrc.Nodes.History.{register-keeps, Effect-Moves}
use ldndrc.Nodes.Invariant.{IsWellFormed}
use ldndrc.Nodes.Tokens.{Minter}

abbrev pub is_token : Body → Bool
is_token (poll_token status url token name) = true
is_token _ = false

-- The response carries a bootstrap token.
abbrev pub delivers : Response → Bool
delivers r = is_token r.body

-- A token has been issued to the node since its last approval.
pub record Issued (id : String) (s : Store) : Type 0 where
  pub node : Node
  pub found : lookup id s.nodes ≡ some node
  pub issued : node.token_id ≢ ""

-- Operations other than an approval of the node, and a minting with an empty token ID
abbrev pub is_quiet : String → Op → Bool
is_quiet id (approves i) = not (str_eq i id)
is_quiet id (mints i token_id) = not (str_eq token_id "")
is_quiet id _ = true

-- A row of locked sections without such an approval
pub data Quiet (lib : Library) (id : String) (s : Store) : Store → Type 0 where
  here : Quiet lib id s s
  next :
      {t : Store} (env : Env) (op : Op)
      → Quiet lib id s t
      → IsFresh env t
      → is_quiet id op ≡ true
      → Quiet lib id s (step lib env op t)

-- Such an operation on the node keeps its token ID, or sets one that is not empty.
update-issued :
    (env : Env) (id : String) (op : Op) (n : Node)
    → is_quiet id op ≡ true
    → target op ≡ id
    → n.token_id ≢ ""
    → (update env op n).token_id ≢ ""
update-issued env id (approves i) n q e h = ground (arith, eq_iff i id)
update-issued env id (mints i t) n q e h = ground (arith, eq_iff t "")
update-issued env id (registers p) n q e h = h
update-issued env id (denies i r) n q e h = h
update-issued env id (joins i) n q e h = h
update-issued env id (expires i now) n q e h = h

step-Issued :
    (lib : Library) (env : Env) (op : Op) (s : Store) (id : String)
    → IsFresh env s
    → is_quiet id op ≡ true
    → Issued id s
    → Issued id (step lib env op s)
step-Issued lib env op s id fresh q i = elim (step-Effect lib env op s) [
  | inl (p, e) ↦
      subst (λ o. Issued id (step lib env o s)) (sym e)
        (record {
          node = i.node;
          found = rw step-registers (register-keeps lib env p s id i.node fresh i.found);
          issued = i.issued;
        })
  | inr effect ↦ elim effect [
    | keeps e ↦ rw e i
    | writes n found m nodes index ↦ elim (Bool-cases (str_eq (target op) id)) [
      | inr miss ↦ record {
        node = i.node;
        found = ground (arith, lookup-put (target op) id (update env op n) s.nodes, i.found);
        issued = i.issued;
      }
      | inl hit ↦ record {
        node = update env op n;
        found = ground (arith, lookup-put (target op) id (update env op n) s.nodes);
        issued =
            let e : i.node ≡ n = ground (arith, eq_iff (target op) id, i.found) in
            update-issued env id op n q ((eq_iff (target op) id).0 hit)
              (subst (λ (z : Node). z.token_id ≢ "") e i.issued);
      }
    ]
  ]
]

Quiet-Issued :
    {lib : Library} {id : String} {s t : Store} → Quiet lib id s t → Issued id s → Issued id t
Quiet-Issued here i = i
Quiet-Issued {lib} {id} (next {t = t} env op r fresh q) i =
    step-Issued lib env op t id fresh q (Quiet-Issued r i)

-- The clock may go on, or back: no poll of a node with an issued token delivers one.
poll-Issued :
    {W : Type 0} (m : Option (Minter W)) (url : String) (env later : Env) (now : ℕ) (id : String)
    (s : Store) (w : W)
    → Issued id s
    → delivers (poll m url env later now id s w).0 ≡ false
unfolding poll poll_node poll_approved get write_json
poll-Issued m url env later now id s w i =
    ground (arith, i.found, i.issued, eq_iff i.node.token_id "")

mark_minted-Issued :
    (env : Env) (id token_id : String) (n : Node) (s : Store)
    → lookup id s.nodes ≡ some n
    → token_id ≢ ""
    → Issued id (mark_minted env id token_id s).1
unfolding mark_minted save_node save_locked
mark_minted-Issued env id token_id n s found named = record {
  node = record n { token_id = token_id; minted_at = env.now };
  found =
      ground
        (arith, lookup-put_self id (record n { token_id = token_id; minted_at = env.now }) s.nodes);
  issued = named;
}

-- The token ID of each token of the minter is a text that is not empty.
abbrev pub NamesTokens {ℓ} :
    {W : Type ℓ} → (String → String → W → Result String (String × String) × W) → Type ℓ
NamesTokens {W} mint =
    (name description : String) (w : W) (token token_id : String)
    → (mint name description w).0 ≡ ok (token, token_id)
    → token_id ≢ ""

module _ {W : Type 0} (m : Minter W) (names : NamesTokens m.mint) where
  poll_approved-delivers :
      (url : String) (env : Env) (n n' : Node) (s : Store) (w : W)
      → lookup n.id s.nodes ≡ some n'
      → delivers (poll_approved (some m) url env n s w).0 ≡ true
      → Issued n.id (poll_approved (some m) url env n s w).1
  unfolding poll_approved hand_out write_json
  poll_approved-delivers url env n n' s w found h =
      let description = concat ("ldndrc-" ∷ n.id ∷ []) in
      elim (Bool-cases (str_eq n.token_id "")) [
        | inr issued ↦ absurd (ground arith)
        | inl fresh ↦ elim (Result-cases (m.mint n.node_name description w).0) [
          | inr (e, bad) ↦ absurd (ground arith)
          | inl ((token, token_id), good) ↦
              rw (fresh, good)
                (mark_minted-Issued env n.id token_id n' s found
                  (names n.node_name description w token token_id good))
        ]
      ]

  poll-delivers :
      (url : String) (env later : Env) (now : ℕ) (id : String) (s : Store) (w : W)
      → ((i : String) (n : Node) → lookup i s.nodes ≡ some n → n.id ≡ i)
      → delivers (poll (some m) url env later now id s w).0 ≡ true
      → Issued id (poll (some m) url env later now id s w).1
  unfolding poll get poll_node write_json
  poll-delivers url env later now id s w keyed h = elim (Option-cases (lookup id s.nodes)) [
    | inl e ↦ absurd (ground arith)
    | inr (n, e) ↦
        let r = expire_if_elapsed env n.id now s in
        let same : n.id ≡ id = keyed id n e in
        let here : lookup n.id s.nodes ≡ some n =
          subst (λ i. lookup i s.nodes ≡ some n) (sym same) e in
        let (n', there, _) = Effect-Moves n.id n (expire-Effect env n.id now s) here in
        elim (Bool-cases (is_changed r.0)) [
          | inl changed ↦ absurd (ground arith)
          | inr unchanged ↦ elim (Bool-cases (is_approved n.status)) [
            | inr past ↦ absurd (ground arith)
            | inl ready ↦
                let q = poll_approved (some m) url later n r.1 w in
                let i : Issued n.id q.1 =
                  poll_approved-delivers url later n n' r.1 w there (ground arith) in
                subst (λ t. Issued id t) {x = q.1} (ground arith) (subst (λ j. Issued j q.1) same i)
          ]
        ]
  ]

-- One approval delivers one token: after a poll that was answered with a token, no later poll of
-- that node is answered with one, at any time, with any minter and through any calls in between,
-- until the node is approved again. The token IDs of the minter are taken to be texts that are not
-- empty.
pub token_once :
    {W : Type 0} (m : Minter W) (lib : Library) (url : String) (env later : Env) (now : ℕ)
    (id : String) (s t : Store) (w : W) (m' : Option (Minter W)) (url' : String) (env' later' : Env)
    (now' : ℕ) (w' : W)
    → NamesTokens m.mint
    → IsWellFormed lib s
    → delivers (poll (some m) url env later now id s w).0 ≡ true
    → Quiet lib id (poll (some m) url env later now id s w).1 t
    → delivers (poll m' url' env' later' now' id t w').0 ≡ false
token_once m lib url env later now id s t w m' url' env' later' now' w' names wf h q =
    poll-Issued m' url' env' later' now' id t w'
      (Quiet-Issued q (poll-delivers m names url env later now id s w wf.keyed h))
