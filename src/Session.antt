-- ===== src/Session.antt =====
-- internal/session: the controller of a session's participants.
pub mod Event
pub mod Approvals
pub mod State
pub mod Turns
pub mod Runtime
pub mod Background
pub mod Sends
pub mod Handoff
pub mod Commands
pub mod Identity
pub mod History
pub mod Completion
mod Tests
