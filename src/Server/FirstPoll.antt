-- ===== src/Server/FirstPoll.antt =====
-- The laptop's first poll where the panel has approved it and its token is due: what the poll answers
-- and where the engine goes on.
use ldndrc.Base.{
  ℕ, suc, ◌≡◌, ◌≢◌, refl, ◌∙◌, ap, String, Bool, true, false, not, none, some, [], ◌∷◌, ◌++◌, ok,
  arith, str_eq, eq_iff, concat,
}
use ldndrc.Http.Nodes.{client_ip}
use ldndrc.Http.HandOut.{IsDue, after_hand_out, handle-due}
use ldndrc.Http.Router.{Setup, App, Turn, json, method_of, handle}
use ldndrc.Http.Router
use ldndrc.Http.Serving.{serve_all}
use ldndrc.Http.Types.{poll_token, write_json}
use ldndrc.Http.Wire.{encode}
use ldndrc.Join.Client.{decoded, poll_request, poll, send-made}
use ldndrc.Join.RoundTrip.{poll_token-read}
use ldndrc.Join.Engine.{PollResult, World, RunConfig, poll_result, wait_loop, wait_approval}
use ldndrc.Join.Runner.{
  is_payload, timeout_of, approved_steps, and_then, install_toolkit, answered as go_on, awaited,
  registered,
}
use ldndrc.Nodes.Types.{Node, approved}
use ldndrc.Nodes.Tokens.{Minter}
use ldndrc.Server.Network.{
  answered, Network, arrived, answer, by_fate, deliver, exchange, networked,
}

module _ {W : Type 0} (io : World W) where
  wait_loop-found :
      (test : PollResult → Bool) (id : String) (fuel : ℕ) (w w' : W) (res : PollResult)
      → io.poll id w ≡ (ok (200, ok res), w')
      → test res ≡ true
      → wait_loop io test id (suc fuel) w ≡ some (some res, w')
  unfolding wait_loop poll_result
  wait_loop-found test id fuel w w' res e h = ground (arith, e, h)

  answered-payload :
      (cfg : RunConfig) (fuel : ℕ) (id : String) (res : PollResult) (w : W)
      → str_eq res.status "denied" ≡ false
      → str_eq res.status "joined" ≡ false
      → is_payload res ≡ true
      → go_on io cfg fuel id res w
        ≡ install_toolkit io cfg fuel id res
            (approved_steps io cfg id
              ++ "short-lived token received (memory only, never shown)" ∷ [])
            w
  unfolding go_on
  answered-payload cfg fuel id res w d j h = ground (arith, d, j, h)

-- The poll reaches the panel, and meets an approved laptop whose token is due.
pub record Reaches {W L : Type 0} (setup : Setup W) (net : Network L) (m : Minter W) (id : String)
    (app : App W) (l : L) (n : Node) (token token_id : String) : Type 0 where
  pub minter : setup.minter ≡ some m
  pub url_good : net.url_error (poll_request net.base_url id).url ≡ none
  pub fate : (net.next l).0.fate ≡ answered
  pub route :
      net.route (client_ip net.split_host_port (net.next l).0.remote) (poll_request net.base_url id)
      ≡ Router.poll_node id
  pub due :
      let served = serve_all setup (net.next l).0.others app in
      IsDue m (net.next l).0.turn.now id served.nodes served.cluster n token token_id

abbrev pub payload : String → String → String → PollResult
payload url token name = record {
  status = "approved";
  reason = "";
  k3s_url = url;
  k3s_token = token;
  node_name = name;
}

module _ {W L : Type 0} (setup : Setup W) (net : Network L) (io : World L) (m : Minter W)
    (id : String) (n : Node) (token token_id : String) where
  -- The panel and the network after that poll
  abbrev pub after_poll : App W → L → App W × L
  after_poll app l =
      let d = (net.next l).0 in
      (after_hand_out m d.turn id n token_id (serve_all setup d.others app), (net.next l).1)

  abbrev offer : PollResult
  offer = payload setup.settings.join_url token n.node_name

  deliver-Reaches :
      (app : App W) (l : L)
      → setup.settings.join_url ≢ ""
      → Reaches setup net m id app l n token token_id
      → exchange setup net (poll_request net.base_url id) (app, l) ≡ (
        ok (
          200,
          ok (encode net.clock (poll_token approved setup.settings.join_url token n.node_name)),
        ),
        after_poll app l,
      )
  unfolding exchange deliver arrived by_fate answer write_json
  deliver-Reaches app l set r =
      let d = (net.next l).0 in
      let served = serve_all setup d.others app in
      let req =
        arrived
          (net.route (client_ip net.split_host_port d.remote) (poll_request net.base_url id)) in
      let h = handle-due setup d.turn m req served id n token token_id r.minter set r.due r.route in
      rw (r.fate, h) refl

  poll-Reaches :
      (app : App W) (l : L)
      → setup.settings.join_url ≢ ""
      → Reaches setup net m id app l n token token_id
      → (networked setup net io).poll id (app, l) ≡ (ok (200, ok offer), after_poll app l)
  unfolding networked poll decoded
  poll-Reaches app l set r =
      let e = deliver-Reaches app l set r in
      let v =
        poll_token-read net.numbers net.clock approved setup.settings.join_url token n.node_name in
      let made =
        send-made net.numbers net.base_url net.url_error (exchange setup net)
          (poll_request net.base_url id) (app, l) r.url_good in
      rw (made, e, v) refl

  wait_loop-Reaches :
      (fuel : ℕ) (app : App W) (l : L)
      → setup.settings.join_url ≢ ""
      → Reaches setup net m id app l n token token_id
      → wait_loop
          (networked setup net io)
          (λ res. not (str_eq res.status "pending"))
          id
          (suc fuel)
          (app, l)
        ≡ some (some offer, after_poll app l)
  wait_loop-Reaches fuel app l set r =
      wait_loop-found (networked setup net io) (λ res. not (str_eq res.status "pending")) id fuel
        (app, l) (after_poll app l) offer (poll-Reaches app l set r) refl

  -- The state in which the engine waits, after its lines and the start of the wait
  abbrev pub begun : RunConfig → L → L
  begun cfg l = io.start (timeout_of cfg) (
      io.emit
        (concat
          ("waiting for operator approval at " ∷ cfg.control_url ∷ " (polling every 5s)" ∷ []))
        (io.emit (concat ("registered as " ∷ id ∷ [])) l))

  pub engine-Reaches :
      (cfg : RunConfig) (fuel : ℕ) (app : App W) (l : L)
      → setup.settings.join_url ≢ ""
      → token ≢ ""
      → n.node_name ≢ ""
      → Reaches setup net m id app (begun cfg l) n token token_id
      → registered (networked setup net io) cfg (suc fuel) id (app, l)
        ≡ install_toolkit
            (networked setup net io)
            cfg
            (suc fuel)
            id
            offer
            (approved_steps (networked setup net io) cfg id
              ++ "short-lived token received (memory only, never shown)" ∷ [])
            (after_poll app (begun cfg l))
  unfolding registered wait_approval awaited networked
  engine-Reaches cfg fuel app l set solid named r =
      ap (λ f. and_then f (λ x. awaited (networked setup net io) cfg (suc fuel) id x.0 x.1))
        (wait_loop-Reaches fuel app (begun cfg l) set r)
      ∙ answered-payload (networked setup net io) cfg (suc fuel) id offer
          (after_poll app (begun cfg l)) refl refl
          (ground (
            arith,
            set,
            solid,
            named,
            eq_iff setup.settings.join_url "",
            eq_iff token "",
            eq_iff n.node_name "",
          ))
