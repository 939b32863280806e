-- ===== src/Gateway/Proxy.antt =====
-- control-panel/internal/gateway/gateway.go: a proxy whose target is resolved for each request.
use ldndrc.Base.{String, Option, none, some}

-- The parts of a *url.URL that the director reads or keeps
pub record Url : Type 0 where
  pub scheme : String
  pub host : String
  pub path : String

-- Target
pub record Target : Type 0 where
  pub name : String
  pub url : Url

-- The Director of Handler, on what `resolve` answers: the URL that the request is sent to
unfoldable pub director : Option Url → Url → Url
director none url = url
director (some target) url = record url { scheme = target.scheme; host = target.host }
