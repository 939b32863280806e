-- ===== src/Server/NetworkExamples.antt =====
-- A laptop registers and polls over the network: before its approval, and after it.
use ldndrc.Base.{
  ℕ, ◌≡◌, refl, arith, String, true, false, none, some, [], ◌∷◌, ◌++◌, ok, err, str_eq, inl, inr,
  if◌then◌else◌, suc,
}
use ldndrc.Base.Map.{lookup, put, lookup-put_cases}
use ldndrc.Base.{hex_encode, ne_of_str_eq, pos}
use ldndrc.Nodes.Steps.{step}
use ldndrc.Base.Decode.{Numbers}
use ldndrc.Base.Float.{of_int, fle}
use ldndrc.Http.RouterExamples
use ldndrc.Http.Auth.{passes_csrf}
use ldndrc.Http.Router
use ldndrc.Http.Router.{Setup, App, poll_node, register_node, approve_node, list_nodes, handle}
use ldndrc.Http.Serving.{serve_all}
use ldndrc.Http.Withheld.{Waiting}
use ldndrc.Join.Client.{poll_request, is_finite, fingerprint_payload, decoded, read_poll}
use ldndrc.Join.RoundTrip.{registration_of, as_registration, registration_arrives}
use ldndrc.Join.Engine.{Fingerprint, poll_result}
use ldndrc.Join.RunExamples as RunExamples
use ldndrc.Join.Runner.{run_join, registered, install_toolkit, approved_steps}
use ldndrc.Join.Unapproved.{with_installers}
use ldndrc.Nodes.Examples
use ldndrc.Nodes.Store.{
  register, is_invalid, fingerprint as hardware_id, new_id, insert_node, save_locked, new_node,
}
use ldndrc.Nodes.Tokens.{Minter}
use ldndrc.Server.Network.{answered, Network, networked}
use ldndrc.Server.Onboarding.{is_offer, no_operator_no_install}
use ldndrc.Server.Approved.{Approval, approval_taken_up}
use ldndrc.Server.FirstPoll.{payload, after_poll, begun}

abbrev numbers : Numbers
numbers = record {
  is_int = λ z. true;
  to_int = λ x. none;
  to_float = λ z. of_int 0;
  mismatch = λ name v. "json: cannot unmarshal";
}

abbrev net : Network RunExamples.Clock
net = record {
  numbers = numbers;
  clock = λ t. "2025-01-02T03:04:05Z";
  base_url = "http://10.0.0.9:8082";
  url_error = λ url. none;
  route = λ ip req.
      if str_eq req.method "GET"
      then poll_node "010203"
      else register_node ip (registration_of numbers req.payload);
  split_host_port = λ remote. some "10.0.0.7";
  show = λ page. (200, err "invalid character '<' looking for beginning of value");
  next = λ w. (
    record { others = []; turn = RouterExamples.turn; remote = "10.0.0.7:50000"; fate = answered },
    w,
  );
}

abbrev waiting_app : App ℕ
waiting_app = record RouterExamples.app { nodes = Examples.asked }

asked-Waiting : Waiting Examples.asked
unfolding step register is_invalid hardware_id new_id hex_encode put insert_node save_locked
    new_node fle of_int lookup
asked-Waiting id n found = elim (lookup-put_cases "010203" id Examples.node n [] found) [
  | inl (here, e) ↦ ground (arith, e)
  | inr (there, old) ↦ absurd (ground (arith, old))
]

-- A page is no answer of a poll.
page_bare :
    (text : String)
    → is_offer (poll_result (decoded (read_poll numbers) (ok (200, err text)))) ≡ false
unfolding poll_result decoded
page_bare text = refl

no_operator_no_install_example :
    run_join
      (with_installers
        (networked RouterExamples.setup net RunExamples.world)
        (λ url token name w. (some "never", w))
        (λ w. (some "never", w)))
      RunExamples.cfg
      4
      (waiting_app, RunExamples.idle)
    ≡ run_join
        (networked RouterExamples.setup net RunExamples.world)
        RunExamples.cfg
        4
        (waiting_app, RunExamples.idle)
no_operator_no_install_example =
    no_operator_no_install RouterExamples.setup net RunExamples.world
      (record {
        manual = refl;
        strangers = λ w. tt;
        pages = λ page. page_bare "invalid character '<' looking for beginning of value";
      })
      (λ url token name w. (some "never", w)) (λ w. (some "never", w)) RunExamples.cfg 4 waiting_app
      RunExamples.idle asked-Waiting

abbrev minter : Minter ℕ
minter = record { mint = λ name description w. (ok ("K10secret", "abcdef"), suc w) }

abbrev setup : Setup ℕ
setup = record RouterExamples.setup { keys = RouterExamples.alice_keys; minter = some minter }

-- alice approves the laptop, and somebody lists the laptops.
abbrev approval : Router.Request
approval = record {
  route = approve_node "010203";
  authorization = "Bearer t0ken";
  cookie = none;
  csrf = "";
}

abbrev listing : Router.Request
listing = record { route = list_nodes; authorization = ""; cookie = none; csrf = "" }

abbrev busy : Network RunExamples.Clock
busy = record net {
  next = λ w. (
    record {
      others = (RouterExamples.turn, approval) ∷ (RouterExamples.turn, listing) ∷ [];
      turn = RouterExamples.turn;
      remote = "10.0.0.7:50000";
      fate = answered;
    },
    w,
  );
}

approves :
    Approval setup busy minter "010203" waiting_app
      (begun setup busy RunExamples.world minter "010203" Examples.node "K10secret" "abcdef"
        RunExamples.cfg RunExamples.idle)
      []
      RouterExamples.turn
      approval
      ((RouterExamples.turn, listing) ∷ [])
      Examples.node
      "K10secret"
      "abcdef"
unfolding serve_all poll_request passes_csrf new_node
approves = record {
  minter = refl;
  url_good = refl;
  fate = refl;
  route = refl;
  others = refl;
  well = Examples.asked_well;
  found = Examples.node_found;
  waiting = inl refl;
  asked = refl;
  operator = ("alice", RouterExamples.ends-alice);
  passes = refl;
  unused = (
    RouterExamples.no_session_id waiting_app.sessions,
    RouterExamples.no_node_id waiting_app.nodes,
    (
      RouterExamples.no_session_id
          (handle setup RouterExamples.turn approval waiting_app).1.sessions,
      RouterExamples.no_node_id (handle setup RouterExamples.turn approval waiting_app).1.nodes,
      tt,
    ),
  );
  quiet = (refl, tt);
  minted = refl;
}

approval_taken_up_example :
    let io = networked setup busy RunExamples.world in
    let l =
      begun setup busy RunExamples.world minter "010203" Examples.node "K10secret" "abcdef"
        RunExamples.cfg RunExamples.idle in
    registered io RunExamples.cfg 4 "010203" (waiting_app, RunExamples.idle)
    ≡ install_toolkit io RunExamples.cfg 4 "010203"
        (payload "https://10.0.0.9:6443" "K10secret" Examples.node.node_name)
        (approved_steps io RunExamples.cfg "010203"
          ++ "short-lived token received (memory only, never shown)" ∷ [])
        (after_poll setup busy RunExamples.world minter "010203" Examples.node "K10secret" "abcdef"
          waiting_app l)
unfolding new_node
approval_taken_up_example =
    approval_taken_up setup busy RunExamples.world minter "010203" Examples.node "K10secret"
      "abcdef" [] RouterExamples.turn approval ((RouterExamples.turn, listing) ∷ []) RunExamples.cfg
      3 waiting_app RunExamples.idle (ne_of_str_eq "https://10.0.0.9:6443" "" refl)
      (ne_of_str_eq "K10secret" "" refl) (ne_of_str_eq Examples.node.node_name "" refl) approves

abbrev fingerprint : Fingerprint
fingerprint = record {
  hostname = "legion";
  os = "linux";
  arch = "amd64";
  cpu = pos 16;
  ram_gb = of_int 32;
  gpu = "";
  join_key = "k";
}

registration_arrives_example :
    registration_of numbers (fingerprint_payload fingerprint)
    ≡ (if is_finite fingerprint.ram_gb then some (as_registration fingerprint) else none)
registration_arrives_example = registration_arrives numbers fingerprint refl
