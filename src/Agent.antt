-- ===== src/Agent.antt =====
-- src-tauri/src/agent: the SSH agent.
pub mod Wire
pub mod Session
pub mod Identities
pub mod Server
pub mod Integration
pub mod Files
pub mod Start
