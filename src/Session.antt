-- ===== src/Session.antt =====
-- crates/truefix-session/src: the session state machine.
pub mod Config
pub mod Admin
pub mod State
pub mod Fields
mod Examples
pub mod Resend
pub mod Inbound
pub mod SequenceReset
pub mod Checks
pub mod Logon
pub mod Received
pub mod Tick
pub mod Engine
pub mod Invariant
pub mod Lifecycle
mod Traces
