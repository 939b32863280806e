-- ===== src/Server/Network.antt =====
-- The laptop's program and the control panel over the network: the http.Client of
-- control-panel/internal/join/register.go meets the router of
-- control-panel/internal/httpapi/router.go, while other clients are served too. The clock of each
-- request, the transport, the matching of patterns by net/http and the files of the web client are
-- parameters.
use ldndrc.Base.{ℕ, String, Option, none, List, Result, ok, err}
use ldndrc.Base.Json.{Json}
use ldndrc.Base.Decode.{Numbers}
use ldndrc.Http.Nodes.{client_ip}
use ldndrc.Http.Pages.{Page}
use ldndrc.Http.Router.{Setup, App, Turn, Route, Reply, json, html, handle}
use ldndrc.Http.Router
use ldndrc.Http.Serving.{serve_all}
use ldndrc.Http.Wire.{Clock, encode}
use ldndrc.Join.Client.{Answer, register, poll, upload_diagnostics}
use ldndrc.Join.Client
use ldndrc.Join.Engine.{World}

-- What becomes of a request of the laptop: the panel answers it, the request is lost, or its answer
-- is. A loss carries the error of c.HTTP.Do.
pub data Fate : Type 0 where
  answered : Fate
  request_lost answer_lost : String → Fate

-- The requests of other clients that the panel serves before the laptop's, and what it meets then
pub record Delivery : Type 0 where
  pub others : List (Turn × Router.Request)
  pub turn : Turn
  pub remote : String
  pub fate : Fate

-- `route` is the pattern that net/http finds, with the decoded body, for the address of the laptop
-- and its request; `show` is the code of a page and its content as json.Decoder reads it.
pub record Network (L : Type 0) : Type 0 where
  pub numbers : Numbers
  pub clock : Clock
  pub base_url : String
  pub url_error : String → Option String
  pub route : String → Client.Request → Route
  pub split_host_port : String → Option String
  pub show : Page → ℕ × Result String Json
  pub next : L → Delivery × L

-- The laptop sends no Authorization header and no cookie.
unfoldable pub arrived : Route → Router.Request
arrived route = record { route = route; authorization = ""; cookie = none; csrf = "" }

module _ {W L : Type 0} (setup : Setup W) (net : Network L) where
  -- The answer as it is read at the laptop
  unfoldable pub answer : Reply → ℕ × Result String Json
  answer (json r) = (r.code, ok (encode net.clock r.body))
  answer (html page) = net.show page

  -- What the laptop sees, and the state of the panel before and after its request
  unfoldable pub by_fate : Fate → Reply → App W → App W → Answer × App W
  by_fate answered reply app app' = (ok (answer reply), app')
  by_fate (request_lost e) reply app app' = (err e, app)
  by_fate (answer_lost e) reply app app' = (err e, app')

  -- The laptop's request at the panel, on the state that the other clients left
  unfoldable pub deliver : Delivery → Client.Request → App W → Answer × App W
  deliver d req app =
      let (reply, app') =
        handle setup d.turn (arrived (net.route (client_ip net.split_host_port d.remote) req))
          app in
      by_fate d.fate reply app app'

  -- c.HTTP.Do
  unfoldable pub exchange : Client.Request → App W × L → Answer × (App W × L)
  exchange req (app, l) =
      let (d, l') = net.next l in
      let (reply, app') = deliver d req (serve_all setup d.others app) in (reply, (app', l'))

  -- The world of the engine: the panel behind the network, and what is the laptop's own
  unfoldable pub networked : World L → World (App W × L)
  networked io = record {
    register = register net.numbers net.base_url net.url_error exchange;
    poll = poll net.numbers net.base_url net.url_error exchange;
    upload = upload_diagnostics net.numbers net.base_url net.url_error exchange;
    start = λ t w. (w.0, io.start t w.1);
    select = λ w. (let (over, l) = io.select w.1 in (over, (w.0, l)));
    toolkit = λ w. (let (failed, l) = io.toolkit w.1 in (failed, (w.0, l)));
    agent =
        λ url token name w. (let (failed, l) = io.agent url token name w.1 in (failed, (w.0, l)));
    emit = λ line w. (w.0, io.emit line w.1);
    rfc3339 = λ w. (let (time, l) = io.rfc3339 w.1 in (time, (w.0, l)));
    file_stamp = λ w. (let (stamp, l) = io.file_stamp w.1 in (stamp, (w.0, l)));
    join_path = io.join_path;
    sprintf = io.sprintf;
    write_file =
        λ path content w. (let (failed, l) = io.write_file path content w.1 in (failed, (w.0, l)));
  }
