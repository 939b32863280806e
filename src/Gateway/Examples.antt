-- ===== src/Gateway/Examples.antt =====
-- The gateway at work: alice opens her editor.
use ldndrc.Base.{◌≡◌, refl, String, true, some, [], ok}
use ldndrc.Http.Auth.{Keys, verify_cookie}
use ldndrc.Sessions.Examples.{with_both, cluster, later_env, current_ready}
use ldndrc.Base.Map.{lookup}
use ldndrc.Sessions.Store.{new_session}
use ldndrc.Base.{split, has_suffix, is_blank, itoa}
use ldndrc.Gateway.Handler.{
  route_of, host_of, env_or, routes, serve_user, forward, target_of, Settings, Library, proxied,
  session_handler,
}

-- Stand-ins: the hosts are in small letters, each address parses and a token is its user's name.
abbrev pub lib : Library
lib = record { to_lower = λ s. s; parses = λ s. true }

abbrev pub vars : Settings
vars = record { host_suffix = ""; namespace = "" }

abbrev pub keys : Keys
keys = record {
  sign = λ user now until. ok user;
  verify = λ now token. some token;
  hmac = λ text. [];
}

abbrev pub host : String
host = "editor.ros-platform.local"

abbrev pub target : String
target = "http://ros2-session-010203.ldndrc.svc.cluster.local.:7682"

entered :
    (session_handler lib vars keys (some cluster) later_env host 9 (some "alice") with_both 2).0
    ≡ proxied target
unfolding session_handler route_of host_of env_or split has_suffix routes lookup serve_user
    verify_cookie is_blank forward target_of itoa new_session
entered = rw current_ready refl
