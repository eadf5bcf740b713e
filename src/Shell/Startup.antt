-- ===== src/Shell/Startup.antt =====
-- src-tauri/src/lib.rs: the start of the process, from the default state to the running agent. The
-- windows, the tray's icon and the threads that watch are not state.
pub mod Protected
use Prim.Native.String.{◌++◌ as concat}
use keynoxis.Base.{
  ℕ, Bool, true, false, List, ◌++◌, Option, none, some, String, if◌then◌else◌, Result, ok, err,
  is_empty,
}
use keynoxis.State.{
  RuntimeState, AppState, SshKey, ActivityEntry, default_runtime, ready, agent, success, failure,
  update_tray,
}
use keynoxis.Activity.{initialize, record_activity, tell}
use keynoxis.Settings.{Settings, default_settings, Host, Disk, World, load, apply, Stored}
use keynoxis.Enclave.{Registry, list}
use keynoxis.Fido.Credentials.{Encoding}
use keynoxis.Ipc.Keys.{read_preferences}
use keynoxis.Ipc.Operation.Finish.{apply_preferences}

-- What a start meets: the file of the log, the answers of the system, the registry of the Secure
-- Enclave, the file of the preferences, and the agent's socket or an error.
pub record Launch : Type 0 where
  pub activity_file : Result (List ActivityEntry)
  pub host : Host
  pub disk : Disk
  pub registry : Registry
  pub preferences : Stored (List String)
  pub start_agent : Result String

abbrev fresh_runtime : Launch → RuntimeState
fresh_runtime v = initialize v.activity_file default_runtime

-- The settings, or the fail-safe defaults and the error.
abbrev pub settings_or_default : Result Settings → Settings × Option String
settings_or_default (ok s) = (s, none)
settings_or_default (err e) = (default_settings, some e)

abbrev pub with_notice : Option String → RuntimeState → RuntimeState
with_notice none r = r
with_notice (some e) r = record r {
  app = record r.app {
    security_notice =
        some
          (concat "Secure settings could not be loaded. Keynoxis applied fail-safe defaults: " e);
  };
}

-- `key_preferences::apply`, whose error is ignored.
abbrev pub preferred : Result (List String) → List SshKey → List SshKey
preferred (ok disabled) keys = apply_preferences disabled keys
preferred (err e) keys = keys

abbrev with_keys : List SshKey → AppState → AppState
with_keys keys s = record s { keys = keys; phase = if is_empty keys then s.phase else ready }

abbrev pub with_enclave_keys :
    Result (List String) → Result (List SshKey) → RuntimeState → RuntimeState
with_enclave_keys p (ok keys) r = record r {
  app = with_keys (r.app.keys ++ preferred p keys) r.app;
}
with_enclave_keys p (err e) r = r

abbrev pub note_recovery : ℕ → Option String → RuntimeState → RuntimeState
note_recovery now none r = r
note_recovery now (some e) r =
    record_activity now agent failure "Secure settings recovery activated" (some e) r

-- Without the agent the process does not start.
abbrev pub with_agent :
    ℕ → Option String → Result String → RuntimeState → RuntimeState × Result (Unit {0})
with_agent now recovered (err e) r = (r, err e)
with_agent now recovered (ok socket) r =
    let running = record r {
      app = record r.app { agent_running = true; ssh_socket = some socket };
      agent_socket = some socket;
    } in
    let noted = note_recovery now recovered (
      record_activity now agent success "SSH agent started"
        (some "Ready for OpenSSH-compatible clients") running) in
    (tell (update_tray noted.app) noted, ok tt)

abbrev pub start_with :
    Encoding → Launch → RuntimeState → Settings × Option String → RuntimeState × Result (Unit {0})
start_with x v r (s, recovered) = with_agent v.host.now_ms recovered v.start_agent (
    with_enclave_keys (read_preferences v.preferences) (list x v.registry)
      (with_notice recovered (apply v.host.now_ms s r)))

abbrev pub loaded : Launch → World × Result Settings
loaded v = load v.host (record { disk = v.disk; runtime = fresh_runtime v })

-- The files and the state that the start leaves.
unfoldable pub setup : Encoding → Launch → World × Result (Unit {0})
setup x v =
    let (w, s) = loaded v in
    let (r, o) = start_with x v w.runtime (settings_or_default s) in (record w { runtime = r }, o)
