-- ===== src/Fido.antt =====
-- src-tauri/src/fido: the operations on a security key. libfido2 is a parameter.
pub mod Credentials
pub mod Ffi
pub mod Sign
pub mod Device
pub mod Manage
pub mod Resident
