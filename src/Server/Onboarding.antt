-- ===== src/Server/Onboarding.antt =====
-- The laptop's engine against the control panel, over the network: what an operator's approval is
-- needed for, and what it gives.
use ldndrc.Base.{
  ℕ, ◌==◌, ◌≡◌, refl, subst, inl, inr, String, Bool, false, Option, none, List, [], ◌∷◌, Result, ok,
  err, arith, All, Bool-cases,
}
use ldndrc.Base.Json.{Json}
use ldndrc.Base.Decode.{Numbers, decode_fields, decode_struct, same_key}
use ldndrc.Http.Approval.{operator_approves}
use ldndrc.Http.Auth.{bearer_claims}
use ldndrc.Http.Nodes.{client_ip}
use ldndrc.Http.Pages.{Page}
use ldndrc.Http.Router.{Setup, App, Turn, Reply, json, html, handle}
use ldndrc.Http.Router
use ldndrc.Http.Serving.{serve_all}
use ldndrc.Http.TokenOnce.{is_token}
use ldndrc.Http.Types.{
  Body, failure, health, received, login, session, sessions, node_status, nodes, poll_status,
  poll_reason, poll_token,
}
use ldndrc.Http.Wire.{Clock, encode}
use ldndrc.Http.Withheld.{Waiting, Waiting-ApprovedBefore, is_delivery, handle-bare}
use ldndrc.Join.Client.{
  Answer, read_poll, poll_field, no_result, decoded, register_request, poll_request, register, poll,
  send, send-rule,
}
use ldndrc.Join.Client
use ldndrc.Join.Engine.{PollResult, World, RunConfig, poll_result}
use ldndrc.Join.Runner.{is_payload, run_join}
use ldndrc.Join.Unapproved.{with_installers, Withholds, run_join-Withholds}
use ldndrc.Server.Network.{
  Fate, answered, request_lost, answer_lost, Delivery, Network, arrived, answer, by_fate, deliver,
  exchange, networked,
}

-- A poll's answer that completes a payload
abbrev pub is_offer : Result String PollResult → Bool
is_offer (ok res) = is_payload res
is_offer (err e) = false

read_poll-bare :
    (numbers : Numbers) (clock : Clock) (b : Body)
    → is_token b ≡ false
    → is_offer (read_poll numbers (encode clock b)) ≡ false
unfolding encode read_poll poll_field decode_struct decode_fields same_key no_result
read_poll-bare numbers clock (failure e) h = refl
read_poll-bare numbers clock health h = refl
read_poll-bare numbers clock received h = refl
read_poll-bare numbers clock (login token csrf) h = refl
read_poll-bare numbers clock (session x) h = refl
read_poll-bare numbers clock (sessions xs) h = refl
read_poll-bare numbers clock (node_status id s) h = refl
read_poll-bare numbers clock (nodes ns) h = refl
read_poll-bare numbers clock (poll_status s) h = refl
read_poll-bare numbers clock (poll_reason s reason) h = refl
read_poll-bare numbers clock (poll_token s url token name) h = absurd (ground (arith, h))

poll_result-bare :
    (numbers : Numbers) (code : ℕ) (v : Json)
    → is_offer (read_poll numbers v) ≡ false
    → is_offer (poll_result (decoded (read_poll numbers) (ok (code, ok v)))) ≡ false
unfolding poll_result decoded
poll_result-bare numbers code v h = elim (Bool-cases (code == 200)) [
  | inl good ↦ rw good h
  | inr bad ↦ rw bad refl
]

-- No valid bearer token comes with a request.
abbrev pub IsStranger : {W : Type 0} → Setup W → Turn × Router.Request → Type 0
IsStranger setup x = bearer_claims setup.keys x.0.now x.1.authorization ≡ none

-- No request of the other clients comes with one, whatever the network does, and no page of the web
-- client reads as a poll's answer with a whole payload.
pub record IsUnattended {W L : Type 0} (setup : Setup W) (net : Network L) : Type 0 where
  pub manual : setup.settings.auto_approve ≡ false
  pub strangers : (l : L) → All (IsStranger setup) (net.next l).0.others
  pub pages :
      (page : Page)
      → is_offer (poll_result (decoded (read_poll net.numbers) (ok (net.show page)))) ≡ false

module _ {W L : Type 0} (setup : Setup W) (net : Network L) (io : World L)
    (alone : IsUnattended setup net) where
  handle-Waiting :
      (turn : Turn) (req : Router.Request) (app : App W)
      → IsStranger setup (turn, req)
      → Waiting app.nodes
      → Waiting (handle setup turn req app).1.nodes
  handle-Waiting turn req app stranger =
      Waiting-ApprovedBefore app.nodes (handle setup turn req app).1.nodes (λ id n found good.
        operator_approves setup turn req app id n alone.manual stranger found good)

  serve_all-Waiting :
      (requests : List (Turn × Router.Request)) (app : App W)
      → All (IsStranger setup) requests
      → Waiting app.nodes
      → Waiting (serve_all setup requests app).nodes
  unfolding serve_all
  serve_all-Waiting [] app h waiting = waiting
  serve_all-Waiting ((turn, req) ∷ rest) app (stranger, h) waiting =
      serve_all-Waiting rest (handle setup turn req app).1 h
        (handle-Waiting turn req app stranger waiting)

  laptop-IsStranger :
      (turn : Turn) (route : Router.Route)
      → bearer_claims setup.keys turn.now (arrived route).authorization ≡ none
  unfolding bearer_claims arrived
  laptop-IsStranger turn route = refl

  by_fate-Waiting :
      (fate : Fate) (reply : Reply) (app app' : App W)
      → Waiting app.nodes
      → Waiting app'.nodes
      → Waiting (by_fate setup net fate reply app app').1.nodes
  unfolding by_fate
  by_fate-Waiting answered reply app app' before after = after
  by_fate-Waiting (request_lost e) reply app app' before after = before
  by_fate-Waiting (answer_lost e) reply app app' before after = after

  by_fate-bare :
      (fate : Fate) (reply : Reply) (app app' : App W)
      → is_delivery reply ≡ false
      → is_offer
          (poll_result (decoded (read_poll net.numbers) (by_fate setup net fate reply app app').0))
        ≡ false
  unfolding by_fate answer
  by_fate-bare answered (html page) app app' h = alone.pages page
  by_fate-bare answered (json r) app app' h =
      poll_result-bare net.numbers r.code (encode net.clock r.body)
        (read_poll-bare net.numbers net.clock r.body h)
  by_fate-bare (request_lost e) reply app app' h = unfold decoded poll_result in refl
  by_fate-bare (answer_lost e) reply app app' h = unfold decoded poll_result in refl

  deliver-Waiting :
      (d : Delivery) (req : Client.Request) (app : App W)
      → Waiting app.nodes
      → Waiting (deliver setup net d req app).1.nodes
  unfolding deliver
  deliver-Waiting d req app waiting =
      let req' = arrived (net.route (client_ip net.split_host_port d.remote) req) in
      let r = handle setup d.turn req' app in
      by_fate-Waiting d.fate r.0 app r.1 waiting (
        handle-Waiting d.turn req' app
          (laptop-IsStranger d.turn (net.route (client_ip net.split_host_port d.remote) req))
          waiting)

  exchange-Waiting :
      (req : Client.Request) (w : App W × L)
      → Waiting w.0.nodes
      → Waiting (exchange setup net req w).1.0.nodes
  unfolding exchange
  exchange-Waiting req (app, l) waiting =
      let d = (net.next l).0 in
      deliver-Waiting d req (serve_all setup d.others app)
        (serve_all-Waiting d.others app (alone.strangers l) waiting)

  deliver-bare :
      (d : Delivery) (req : Client.Request) (app : App W)
      → Waiting app.nodes
      → is_offer (poll_result (decoded (read_poll net.numbers) (deliver setup net d req app).0))
        ≡ false
  unfolding deliver
  deliver-bare d req app waiting =
      let req' = arrived (net.route (client_ip net.split_host_port d.remote) req) in
      let r = handle setup d.turn req' app in
      by_fate-bare d.fate r.0 app r.1 (
        handle-bare setup d.turn req' app alone.manual
          (laptop-IsStranger d.turn (net.route (client_ip net.split_host_port d.remote) req))
          waiting)

  call-Waiting :
      (req : Client.Request) (w : App W × L)
      → Waiting w.0.nodes
      → Waiting (send net.numbers net.base_url net.url_error (exchange setup net) req w).1.0.nodes
  call-Waiting req w waiting =
      send-rule net.numbers net.base_url net.url_error (exchange setup net)
        (λ r. Waiting r.1.0.nodes) req w (λ e. waiting) (exchange-Waiting req w waiting)

  exchange-bare :
      (req : Client.Request) (w : App W × L)
      → Waiting w.0.nodes
      → is_offer (poll_result (decoded (read_poll net.numbers) (exchange setup net req w).0))
        ≡ false
  unfolding exchange
  exchange-bare req (app, l) waiting =
      let d = (net.next l).0 in
      deliver-bare d req (serve_all setup d.others app)
        (serve_all-Waiting d.others app (alone.strangers l) waiting)

  call-bare :
      (req : Client.Request) (w : App W × L)
      → Waiting w.0.nodes
      → is_offer (
          poll_result (
            decoded
              (read_poll net.numbers)
              (send net.numbers net.base_url net.url_error (exchange setup net) req w).0))
        ≡ false
  unfolding decoded poll_result
  call-bare req w waiting =
      send-rule net.numbers net.base_url net.url_error (exchange setup net)
        (λ r. is_offer (poll_result (decoded (read_poll net.numbers) r.0)) ≡ false) req w
        (λ e. refl) (exchange-bare req w waiting)

  networked-Withholds : Withholds (networked setup net io) (λ w. Waiting w.0.nodes)
  unfolding networked register poll
  networked-Withholds = record {
    registers = λ fp w. call-Waiting (register_request net.base_url fp) w;
    polls = λ id w. call-Waiting (poll_request net.base_url id) w;
    starts = λ t w waiting. waiting;
    selects = λ w waiting. waiting;
    emits = λ line w waiting. waiting;
    withholds = λ id w res waiting e.
        subst (λ r. is_offer r ≡ false) e (call-bare (poll_request net.base_url id) w waiting);
  }

  -- While no operator acts and AUTO_APPROVE is not set, a laptop that joins is changed by nothing:
  -- if none is approved yet, the whole run of the engine against the panel is the same whatever its
  -- two installers do, so it calls neither, in whatever order the requests of all clients arrive and
  -- whatever the transport, the clocks and the disks do. No page of the web client is taken to read
  -- as a poll's answer with a whole payload.
  pub no_operator_no_install :
      (agent : String → String → String → App W × L → Option String × (App W × L))
      (toolkit : App W × L → Option String × (App W × L)) (cfg : RunConfig) (fuel : ℕ) (app : App W)
      (l : L)
      → Waiting app.nodes
      → run_join (with_installers (networked setup net io) agent toolkit) cfg fuel (app, l)
        ≡ run_join (networked setup net io) cfg fuel (app, l)
  no_operator_no_install agent toolkit cfg fuel app l =
      run_join-Withholds (networked setup net io) cfg (λ w. Waiting w.0.nodes) agent toolkit
        networked-Withholds fuel (app, l)
