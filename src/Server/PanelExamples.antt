-- ===== src/Server/PanelExamples.antt =====
-- A panel outside the cluster, from its start to alice's editor.
use ldndrc.Base.{none, some, List, [], ◌∷◌}
use ldndrc.Gateway.Examples as Gate
use ldndrc.Http.JwtExamples.{jwt}
use ldndrc.Http.Router.{Setup, App, Turn}
use ldndrc.Http.RouterExamples.{turn}
use ldndrc.Nodes.Store.{new_store}
use ldndrc.Server.Boot.{RouterVars, Outside, setup_of, app_of}
use ldndrc.Server.Examples.{vars, sys, served, nothing}
use ldndrc.Server.Handler.{Incoming}
use ldndrc.Server.ServingExamples.{probes, opens}
use ldndrc.Server.Start.{Vars, System, Started, start}
use ldndrc.Sessions.ClusterExamples.{Objects}
use ldndrc.Sessions.Examples.{with_both, later_env}
use ldndrc.Sessions.Load.{new_store as no_sessions}
use ldndrc.Sessions.Sections as Sections
use ldndrc.Sessions.Store.{set_status}
use ldndrc.Sessions.Types.{ready, saved, Store}

-- The store whose file the panel finds: alice's session is ready.
abbrev ready_store : Store
ready_store = (set_status later_env "alice" "010203" ready "" with_both).1

abbrev lone_vars : Vars
lone_vars = record vars { service_host = "" }

abbrev lone_sys : System Objects
lone_sys = record sys { session_file = λ path. saved ready_store.sessions }

abbrev st : Started Objects
st = served nothing (start lone_vars lone_sys)

abbrev out : Outside
out = record {
  jwt = jwt;
  hmac = λ key text. [];
  bytes = λ text. 1 ∷ 2 ∷ [];
  dist = none;
  clean = λ path. path;
}

abbrev router_vars : RouterVars
router_vars = record { join_key = ""; auto_approve = ""; join_url = "https://10.0.0.9:6443" }

abbrev row : List (Turn × Incoming)
row = (turn, probes) ∷ []

abbrev setup : Setup Objects
setup = setup_of out router_vars lone_vars lone_sys st

abbrev first : App Objects
first = app_of out router_vars lone_vars lone_sys st

abbrev enters : Incoming
enters = record opens { request = record opens.request { cookie = some "t0ken" } }
