-- ===== src/Sessions.antt =====
-- control-panel/internal/sessions: the session store, its persistence and its Kubernetes resources.
pub mod Types
pub mod Domain
pub mod Store
pub mod Methods
pub mod Load
pub mod Manifests
pub mod Cluster
pub mod ClusterLaws
pub mod Rollback
pub mod Removal
pub mod Isolation
pub mod Invariant
pub mod Create
pub mod Status
pub mod Sections
pub mod Lifecycle
pub mod Walk
pub mod Apart
pub mod Calls
pub mod Answers
pub mod Creation
pub mod Loading
pub mod Restart
pub mod Reconciliation
pub mod Examples
pub mod ClusterExamples
