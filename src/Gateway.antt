-- ===== src/Gateway.antt =====
-- control-panel/internal/gateway: the browser's way into a running workspace.
pub mod Handler
pub mod Proxy
pub mod Ownership
pub mod Examples
