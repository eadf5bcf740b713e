-- ===== src/Lib.antt =====
-- Verification of Keynoxis, an SSH agent for macOS that keeps its keys in FIDO2 security keys and in
-- the Secure Enclave. The library models the Rust program in src-tauri/src, and the bundling of src-tauri/build.rs.
--
-- The program is one shared state, `RuntimeState`, on which several threads work: connections of
-- SSH clients to the agent, commands of the window, watchers that lock or that detect devices, and
-- events of the system. Each critical section of the code is a function on the state; where the
-- code gives up its locks and waits for hardware, the model splits, and what other threads do
-- meanwhile is a function (`Meanwhile`, `meanwhile`, `Environment`) or an event in between (`Event`,
-- `Moment`); so does the lock of the session between its two critical sections. A function that can
-- fail returns `Result`, with the message of the code. Calls of the window and of the devices are logs
-- in the state.
--
-- The files and the code that they model:
--   Base: tests, lists, results, equality and text that the other files share.
--   State: src-tauri/src/state/mod.rs.
--   Agent/Wire, Agent/Session, Agent/Identities, Agent/Server: src-tauri/src/agent/server.rs; the
--     messages, the session bindings (`extension`), the list of identities (`identities`), and
--     signature requests with the dispatch (`sign_request`, `handle`, `serve`).
--   Agent/Start: src-tauri/src/agent/start.rs; the limit on connections and the socket.
--   Agent/Integration: src-tauri/src/agent/integration.rs; the text of the SSH configuration, and in
--     Agent/Integration/Install the files. Agent/Files: `std::fs` as far as both use it.
--   Provider: src-tauri/src/provider/mod.rs and `sign` of src-tauri/src/secure_enclave.rs.
--   Ssh: src-tauri/src/ssh.rs. Fido: src-tauri/src/fido; Credentials, Sign and Ffi are named as there
--     (with `validate` of pin.rs), Manage is create.rs, delete.rs and rename.rs, Resident resident.rs.
--   Settings: src-tauri/src/settings.rs; Settings/Lock holds the locks, Settings/Labels the names of
--     devices, with `set_security_key_label`.
--   Activity: src-tauri/src/activity.rs.
--   Ipc: src-tauri/src/ipc/commands.rs; Ipc/Keys `set_key_enabled` with
--     src-tauri/src/key_preferences.rs, Ipc/Requests the requests to create, delete and rename,
--     Ipc/Operation `perform_fido_operation`, Ipc/Identities `rename_key`, `delete_key` and
--     `create_secure_enclave_key`, Ipc/Sessions what happens to the sessions in any order.
--     Ipc/Operation/Sequence is a user who enters the PINs of all the devices.
--   Device/Watcher: src-tauri/src/device/watcher.rs, a round as its two critical sections;
--     Device/Detect and Device/Details: src-tauri/src/device/detect.rs and info.rs; Device/Round and
--     Device/Rounds: both together.
--   Shell: src-tauri/src/lib.rs, the tray and the end of the process; Shell/Startup: its start.
--   Lifecycle: src-tauri/src/lifecycle.rs. Enclave: the registry of src-tauri/src/secure_enclave.rs.
--   Stores: how src-tauri/src/activity.rs, key_preferences.rs, settings.rs and secure_enclave.rs read and
--     write their files; the models of these take a file as a value (`Stored`).
--   Build: the bundling of libfido2 in src-tauri/build.rs; Dylib: the names, the lists of libraries and
--     the pins that it reads.
--   Bridge: the modules `platform` of src-tauri/src/secure_enclave.rs and settings.rs; Swift: the
--     functions of src-tauri/native/SecureEnclaveBridge.swift that they call.
--   Tests: the theorems at concrete inputs.
-- The children of a file hold the proofs about it.
--
-- Numbers are natural numbers; the counters that the code lets wrap around or saturate at 64 bits do
-- so in the model. Each loop is a recursion over a list but for `bundle_loop`, which takes fuel: two
-- rounds more than all the libraries together name libraries are enough. The PINs that a
-- user enters (`enter_pins`) are at most as many as there are locked devices, which is enough.
--
-- Parameters stand for what is not in this repository: the ssh-key crate (`Crypto`), libfido2
-- (`AssertionDevice`, `Authenticator`, `Manifest`), the Secure Enclave (`Hardware`), digests and
-- base64 (`Encoding`), the answers of the system to the settings (`Host`), to the lifecycle
-- (`Recovery`), to the start (`Launch`), to the commands on Secure Enclave keys (`EnclaveAnswers`)
-- and to the files (`System`), the tools of macOS and the files of a build (`Mac`), malloc, Apple's
-- frameworks (`Attempt`, `Keychain`), and `str::trim`, `str::to_lowercase` and the printing of a number.
-- The commands take the operations on a security key as a record (`FidoDevice`), which
-- `security_key` of Ipc/Operation/Hardware fills with those of src-tauri/src/fido.
--
-- Not modelled: poisoned locks, timeouts of sockets, the wiping of memory, the formats of the files
-- and of the Keychain item, links and the modes of directories, the place of windows
-- (src-tauri/src/windowing.rs), the Swift compiler and the copies for development in build.rs, the
-- lifecycle monitor and the location of a device in the Swift library, and the interface. A call of
-- the file system that is refused changes nothing.
mod Base
pub mod State
pub mod Agent
pub mod Activity
pub mod Ssh
pub mod Fido
pub mod Provider
pub mod Settings
pub mod Ipc
pub mod Device
pub mod Lifecycle
pub mod Enclave
pub mod Shell
pub mod Stores
pub mod Dylib
pub mod Build
pub mod Swift
pub mod Bridge
mod Tests
