-- ===== src/Join.antt =====
-- control-panel/internal/join and control-panel/cmd/join: the onboarding of a laptop.
pub mod Hardware
pub mod Checks
pub mod Gate
pub mod Model
pub mod Consent
pub mod View
pub mod Drawing
pub mod Discover
pub mod Detect
pub mod Scenario
pub mod Engine
pub mod Client
pub mod RoundTrip
pub mod Unapproved
pub mod Runner
pub mod Waiting
pub mod Secrecy
pub mod Install
pub mod TempFiles
pub mod Redaction
pub mod Program
pub mod RunExamples
pub mod ProgramExamples
pub mod InstallExamples
pub mod Examples
