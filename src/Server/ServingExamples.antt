-- ===== src/Server/ServingExamples.antt =====
-- The control panel at work: a stranger is shut out, and a probe is served.
use ldndrc.Base.{ℕ, ◌≡◌, ◌≢◌, ◌⊎◌, refl, String, false, none, some, List, [], ◌∷◌}
use ldndrc.Gateway.Examples as Gate
use ldndrc.Gateway.Handler.{route_of, session_handler}
use ldndrc.Http.Auth.{verify_cookie}
use ldndrc.Http.Router.{Setup, App, Turn, json, health_check}
use ldndrc.Http.RouterExamples
use ldndrc.Http.RouterExamples.{asks, asks-stranger, app, no_session_id, no_node_id}
use ldndrc.Http.Strangers.{is_protected, stopped_by_guard}
use ldndrc.Http.Types.{unauthorized}
use ldndrc.Nodes.Examples
use ldndrc.Nodes.Invariant.{IsWellFormed}
use ldndrc.Nodes.WatchExamples.{store_well}
use ldndrc.Server.Handler.{
  from_workspace, from_gateway, from_router, Incoming, serve_incoming, serve_row,
}
use ldndrc.Server.Outsiders.{outsiders_kept_out}
use ldndrc.Server.Serving.{AllFresh, server_keeps_stores}
use ldndrc.Sessions.Examples as SessionExamples
use ldndrc.Sessions.Invariant as SessionInvariant
use ldndrc.Sessions.Sections as Sections

abbrev stranger : Incoming
stranger = record { host = "panel.local"; request = asks }

no_cookie : verify_cookie RouterExamples.keys 10 none ≡ none
unfolding verify_cookie
no_cookie = refl

outsiders_kept_out_example :
    let r =
      serve_incoming Gate.lib Gate.vars RouterExamples.setup RouterExamples.turn stranger app in
    ((target : String) → r.0 ≢ from_workspace target)
    × (r.1.sessions ≡ app.sessions)
    × (((is_protected asks.route ≡ false) × (route_of Gate.lib Gate.vars "panel.local" ≡ none))
        ⊎ ((r ≡ (from_gateway 401 "authentication required", app))
            ⊎ ((r ≡ (from_router (json unauthorized), app))
                ⊎ (r ≡ (from_router (json stopped_by_guard), app)))))
outsiders_kept_out_example =
    outsiders_kept_out Gate.lib Gate.vars RouterExamples.setup RouterExamples.turn stranger app
      no_cookie asks-stranger

abbrev setup : Setup ℕ
setup = record RouterExamples.setup { keys = Gate.keys; provisioner = some SessionExamples.cluster }

abbrev turn : Turn
turn = record RouterExamples.turn { now = 9 }

abbrev pub opens : Incoming
opens = record {
  host = Gate.host;
  request = record { route = health_check; authorization = ""; cookie = some "alice"; csrf = "" };
}

abbrev pub probes : Incoming
probes = record {
  host = "panel.local";
  request = record { route = health_check; authorization = ""; cookie = none; csrf = "" };
}

abbrev row : List (Turn × Incoming)
row = (turn, probes) ∷ []

abbrev panel : App ℕ
panel = record RouterExamples.app { cluster = 2 }

row-AllFresh : AllFresh Gate.lib Gate.vars setup row panel
row-AllFresh = (
  no_session_id
      (session_handler Gate.lib Gate.vars setup.keys setup.provisioner turn.session_env
        "panel.local" 9 none panel.sessions panel.cluster).1,
  no_node_id panel.nodes,
  tt,
)

server_keeps_stores_example :
    let after = serve_row Gate.lib Gate.vars setup row panel in
    Sections.Reach panel.sessions after.sessions
    × SessionInvariant.IsWellFormed after.sessions
    × IsWellFormed Examples.lib after.nodes
server_keeps_stores_example =
    server_keeps_stores Gate.lib Gate.vars setup row panel row-AllFresh SessionExamples.both_well
      store_well
