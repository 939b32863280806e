-- ===== src/Server.antt =====
-- control-panel/cmd/server: the start of the control panel.
pub mod Start
pub mod Restart
pub mod Boot
pub mod Advertise
pub mod Handler
pub mod Serving
pub mod Panel
pub mod Outsiders
pub mod Network
pub mod Onboarding
pub mod FirstPoll
pub mod Approved
pub mod NetworkExamples
pub mod ServingExamples
pub mod Examples
pub mod PanelExamples
