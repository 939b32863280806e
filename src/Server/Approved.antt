-- ===== src/Server/Approved.antt =====
-- What an approval gives to the laptop that waits for it: its first poll is answered with the K3s
-- address, a token and its node name, and the engine goes on to the installers with just these.
use ldndrc.Base.{
  ℕ, suc, ◌≡◌, ◌≢◌, ◌⊎◌, List, All, refl, String, true, none, some, [], ◌∷◌, ◌++◌, ok, arith,
  concat,
}
use ldndrc.Http.Nodes.{client_ip}
use ldndrc.Http.Router.{Setup, App, Turn, json, method_of, handle}
use ldndrc.Http.Router
use ldndrc.Http.Serving.{serve_all, AllFresh, handle-stores}
use ldndrc.Http.Auth.{bearer_claims, passes_csrf}
use ldndrc.Http.Bystanders.{is_quiet, serve_all-Leaves, handle-approves}
use ldndrc.Base.Map.{lookup}
use ldndrc.Nodes.Invariant.{IsWellFormed}
use ldndrc.Nodes.Store.{can_approve, approve_node, is_elapsed}
use ldndrc.Join.Client.{poll_request}
use ldndrc.Join.Engine.{World, RunConfig}
use ldndrc.Join.Runner.{approved_steps, install_toolkit, registered}
use ldndrc.Nodes.Types.{Status, Node, pending, expired}
use ldndrc.Nodes.Tokens.{Minter}
use ldndrc.Server.FirstPoll.{Reaches, payload, after_poll, begun, engine-Reaches}
use ldndrc.Server.Network.{answered, Network, networked}

-- The network carries the laptop's first poll to the panel, which has a minter. Before it, among
-- other requests, the panel serves that of an operator who approves the laptop, which is pending or
-- expired then; the requests after that one do not poll, approve or deny this laptop, and the IDs
-- that they draw are unused. When the poll comes, the minter answers a token.
pub record Approval {W L : Type 0} (setup : Setup W) (net : Network L) (m : Minter W) (id : String)
    (app : App W) (l : L) (before : List (Turn × Router.Request)) (t : Turn) (req : Router.Request)
    (after : List (Turn × Router.Request)) (n : Node) (token token_id : String) : Type 0 where
  pub minter : setup.minter ≡ some m
  pub url_good : net.url_error (poll_request net.base_url id).url ≡ none
  pub fate : (net.next l).0.fate ≡ answered
  pub route :
      net.route (client_ip net.split_host_port (net.next l).0.remote) (poll_request net.base_url id)
      ≡ Router.poll_node id
  pub others : (net.next l).0.others ≡ before ++ (t, req) ∷ after
  pub well : IsWellFormed setup.lib (serve_all setup before app).nodes
  pub found : lookup id (serve_all setup before app).nodes.nodes ≡ some n
  pub waiting : (n.status ≡ pending) ⊎ (n.status ≡ expired)
  pub asked : req.route ≡ Router.approve_node id
  pub operator : (u : String) × (bearer_claims setup.keys t.now req.authorization ≡ some u)
  pub passes : passes_csrf setup.keys (method_of req.route) req.cookie req.csrf ≡ true
  pub unused : AllFresh setup ((t, req) ∷ after) (serve_all setup before app)
  pub quiet : All (λ r. is_quiet id r.1.route ≡ true) after
  pub minted :
      (m.mint n.node_name
        (concat ("ldndrc-" ∷ id ∷ []))
        (serve_all setup (net.next l).0.others app).cluster).0
      ≡ ok (token, token_id)

serve_all-append :
    {W : Type 0} (setup : Setup W) (xs ys : List (Turn × Router.Request)) (app : App W)
    → serve_all setup (xs ++ ys) app ≡ serve_all setup ys (serve_all setup xs app)
unfolding serve_all
serve_all-append setup [] ys app = refl
serve_all-append setup ((t, req) ∷ xs) ys app =
    serve_all-append setup xs ys (handle setup t req app).1

waiting-approvable : (s : Status) → (s ≡ pending) ⊎ (s ≡ expired) → can_approve s ≡ true
waiting-approvable s h = ground (arith, h)

module _ {W L : Type 0} (setup : Setup W) (net : Network L) (m : Minter W) (id : String)
    (app : App W) (l : L) (before : List (Turn × Router.Request)) (t : Turn) (req : Router.Request)
    (after : List (Turn × Router.Request)) (n : Node) (token token_id : String)
    (a : Approval setup net m id app l before t req after n token token_id) where
  -- What the requests after the approval leave of the laptop
  approved_later :
      lookup id (serve_all setup (net.next l).0.others app).nodes.nodes
      ≡ some (approve_node t.node_env n)
  unfolding serve_all
  approved_later =
      let app0 = serve_all setup before app in
      let (u, operator) = a.operator in
      let granted =
        handle-approves setup t req app0 id u n a.asked a.passes operator a.found
          (waiting-approvable n.status a.waiting) in
      let wf = (handle-stores setup t req app0 a.unused.0 a.unused.1).1 a.well in
      let kept =
        serve_all-Leaves id setup after (handle setup t req app0).1 a.unused.2 wf a.quiet
          (approve_node t.node_env n) granted in
      rw (a.others, serve_all-append) kept

  Approval-Reaches : Reaches setup net m id app l (approve_node t.node_env n) token token_id
  unfolding is_elapsed
  Approval-Reaches = record {
    minter = a.minter;
    url_good = a.url_good;
    fate = a.fate;
    route = a.route;
    due = record {
      found = approved_later;
      keyed = a.well.keyed id n a.found;
      approval = refl;
      unissued = refl;
      live = refl;
      minted = a.minted;
    };
  }

-- An operator's approval of a pending or expired laptop is taken up: if the panel serves it before
-- the laptop's first poll, with any other requests before it and, after it, any that do not poll,
-- approve or deny that laptop, the engine goes on to the installers with the address in
-- K3S_JOIN_URL, the token that the minter answers to that poll and the laptop's node name, and with
-- nothing else, whether or not the approval could be saved. The network is taken to carry the poll,
-- the panel to have a minter, which answers a token, and K3S_JOIN_URL, the token and the node name
-- not to be empty, the node store to be well formed before the approval, and the IDs that are drawn
-- after it to be unused.
pub approval_taken_up :
    {W L : Type 0} (setup : Setup W) (net : Network L) (io : World L) (m : Minter W) (id : String)
    (n : Node) (token token_id : String) (before : List (Turn × Router.Request)) (t : Turn)
    (req : Router.Request) (after : List (Turn × Router.Request)) (cfg : RunConfig) (fuel : ℕ)
    (app : App W) (l : L)
    → setup.settings.join_url ≢ ""
    → token ≢ ""
    → n.node_name ≢ ""
    → let polls = begun setup net io m id n token token_id cfg l in
      let world = networked setup net io in
      Approval setup net m id app polls before t req after n token token_id
      → registered world cfg (suc fuel) id (app, l)
        ≡ install_toolkit world cfg
            (suc fuel)
            id
            (payload setup.settings.join_url token n.node_name)
            (approved_steps world cfg id
              ++ "short-lived token received (memory only, never shown)" ∷ [])
            (after_poll setup net io m id n token token_id app polls)
approval_taken_up setup net io m id n token token_id before t req after cfg fuel app l set solid
      named a =
    engine-Reaches setup net io m id (approve_node t.node_env n) token token_id cfg fuel app l set
      solid named
      (Approval-Reaches setup net m id app (begun setup net io m id n token token_id cfg l) before t
        req after n token token_id a)
