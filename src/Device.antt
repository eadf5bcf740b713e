-- ===== src/Device.antt =====
-- src-tauri/src/device: the watcher of the connected security keys and their detection.
pub mod Watcher
pub mod Details
pub mod Detect
pub mod Round
pub mod Rounds
