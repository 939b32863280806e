-- ===== src/Nodes.antt =====
-- control-panel/internal/nodes: the store of join requests, token minting and the watcher.
pub mod Types
pub mod Store
pub mod Steps
pub mod Effects
pub mod Registering
pub mod Invariant
pub mod History
pub mod Tokens
pub mod Minting
pub mod Watcher
pub mod Watching
pub mod Reload
pub mod Running
pub mod Examples
pub mod WatchExamples
