-- ===== src/Tests.antt =====
-- The theorems at concrete inputs.
mod Data
mod Connections
mod Bytes
mod Sessions
mod Protections
mod Devices
mod Builds
mod Files
mod Registry
mod Tokens
