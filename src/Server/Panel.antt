-- ===== src/Server/Panel.antt =====
-- The control panel from its start: what main has loaded, and the requests that it serves then.
use ldndrc.Gateway.Handler as Gateway
use ldndrc.Nodes.Reload
use ldndrc.Sessions.Invariant as SessionInvariant
use ldndrc.Sessions.Types as SessionTypes
