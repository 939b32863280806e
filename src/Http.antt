-- ===== src/Http.antt =====
-- control-panel/internal/httpapi and control-panel/internal/auth: the requests of the control panel.
pub mod Limiter
pub mod SlidingWindow
pub mod Bounds
pub mod Auth
pub mod Hex
pub mod Jwt
pub mod Csrf
pub mod Types
pub mod Sessions
pub mod Nodes
pub mod Poll
pub mod TokenOnce
pub mod TokenNames
pub mod Isolation
pub mod Login
pub mod Pages
pub mod Router
pub mod Wire
pub mod Withheld
pub mod HandOut
pub mod Bystanders
pub mod Strangers
pub mod PollSteps
pub mod Approval
pub mod Serving
pub mod UsersApart
pub mod Examples
pub mod LoginExamples
pub mod JwtExamples
pub mod RouterExamples
