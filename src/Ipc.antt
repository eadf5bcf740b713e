-- ===== src/Ipc.antt =====
-- src-tauri/src/ipc/commands.rs: the commands of the window on the security keys. A command that
-- holds the state lock throughout is one step; an operation on a device is split where it waits.
pub mod Keys
pub mod Requests
pub mod Operation
pub mod Sessions
pub mod Identities
use keynoxis.Base.{
  ℕ, suc, Bool, true, false, not, ◌&&◌, ◌||◌, List, [], ◌∷◌, Option, none, some, String,
  if◌then◌else◌, ◌==◌, Nat_eq, String_eq, Option_eq, Result, ok, err, is_some, contains, retain,
  find, all, is_empty,
}
use keynoxis.State.{
  RuntimeState, AppState, SshKey, DeviceInfo, fido2, Backend_eq, Phase, Phase_eq,
  waiting_for_device, needs_pin, waiting_for_touch, ready, error, show_auth, hide_auth,
}
use keynoxis.Activity.{publish, tell, wrapping_suc}
use keynoxis.Settings.Lock.{is_not_fido2}

-- The keys that a device holds are forgotten by their backend and path.
abbrev pub is_of_other_device : String → SshKey → Bool
is_of_other_device path k = not (k.backend == fido2) || not (k.device_path == some path)

abbrev pub is_not_path : String → String → Bool
is_not_path path other = not (other == path)

-- `HashMap::remove` on the PINs.
abbrev pub remove_pin : String → List (String × String) → List (String × String)
remove_pin path [] = []
remove_pin path ((p, pin) ∷ pins) =
    if p == path then remove_pin path pins else (p, pin) ∷ remove_pin path pins

abbrev pub is_unlocked : AppState → DeviceInfo → Bool
is_unlocked s d = contains s.unlocked_device_paths d.path

abbrev pub is_locked_fido2 : AppState → DeviceInfo → Bool
is_locked_fido2 s d = d.is_fido2 && not (is_unlocked s d)

-- Each FIDO2 device is unlocked.
abbrev pub all_unlocked : AppState → Bool
all_unlocked s = all (λ d. not d.is_fido2 || is_unlocked s d) s.devices

abbrev pub clear_pending : AppState → AppState
clear_pending s = record s {
  pending_key_creation = none;
  pending_key_algorithm = none;
  pending_key_deletion = none;
  pending_key_rename = none;
}

-- The end of a command that asks for a PIN or a touch.
abbrev pub prompt : RuntimeState → RuntimeState × Result AppState
prompt r = (tell show_auth (publish r), ok r.app)

-- A session of all the devices starts again from none.
unfoldable pub relock : RuntimeState → RuntimeState
relock r =
    if all_unlocked r.app
    then record r {
      app = record r.app { unlocked_device_paths = []; keys = retain is_not_fido2 r.app.keys };
      pins = [];
    }
    else r

abbrev pub unlock_target : RuntimeState → Option DeviceInfo → RuntimeState × Result AppState
unlock_target r none = (r, err "No locked FIDO2 security key is connected")
unlock_target r (some d) = prompt (record r {
  app = record (clear_pending r.app) {
    active = some d;
    unlock_sequence = true;
    phase = needs_pin;
    last_error = none;
    fido_session_unlocked = false;
  };
})

unfoldable pub request_unlock : RuntimeState → RuntimeState × Result AppState
request_unlock r =
    if not r.app.yubikey_connected
    then (r, err "No FIDO2 security key is connected")
    else let r' = relock r in unlock_target r' (find (is_locked_fido2 r'.app) r'.app.devices)

-- The session of one device is forgotten: its keys, its PIN and that it was unlocked.
unfoldable pub forget_device : String → RuntimeState → RuntimeState
forget_device path r = record r {
  app = record r.app {
    keys = retain (is_of_other_device path) r.app.keys;
    unlocked_device_paths = retain (is_not_path path) r.app.unlocked_device_paths;
  };
  pins = remove_pin path r.pins;
}

abbrev pub device_target :
    String → RuntimeState → Option DeviceInfo → RuntimeState × Result AppState
device_target path r none = (r, err "The selected FIDO2 security key is no longer connected")
device_target path r (some d) =
    let forgotten = forget_device path r in
    prompt (record forgotten {
      app = record (clear_pending forgotten.app) {
        active = some d;
        unlock_sequence = false;
        fido_session_unlocked = false;
        phase = needs_pin;
        last_error = none;
      };
    })

abbrev pub is_fido2_at : String → DeviceInfo → Bool
is_fido2_at path d = d.path == path && d.is_fido2

unfoldable pub request_device_unlock : String → RuntimeState → RuntimeState × Result AppState
request_device_unlock path r = device_target path r (find (is_fido2_at path) r.app.devices)

abbrev pub forget_active : Option DeviceInfo → RuntimeState → RuntimeState
forget_active none r = r
forget_active (some d) r = forget_device d.path r

-- A deletion or a rename that is given up locks the session of its device.
unfoldable pub abandon : Bool → RuntimeState → RuntimeState
abandon false r = r
abandon true r =
    let forgotten = forget_active r.app.active r in
    record forgotten { app = record forgotten.app { fido_session_unlocked = false } }

abbrev pub idle_phase : AppState → Phase
idle_phase s = if not (is_empty s.keys) || s.yubikey_connected then ready else waiting_for_device

abbrev pub settle : Bool → AppState → AppState
settle false s = s
settle true s = record s { phase = idle_phase s; last_error = none }

-- What was pending is given up; a touch that is waited for is told so by the generation.
abbrev pub stopped : RuntimeState → RuntimeState
stopped r = record r {
  auth_dismiss_generation =
      if r.app.phase == waiting_for_touch
      then wrapping_suc r.auth_dismiss_generation
      else r.auth_dismiss_generation;
  app = record (clear_pending r.app) { unlock_sequence = false };
}

unfoldable pub dismiss_auth : RuntimeState → RuntimeState × Result AppState
dismiss_auth r =
    let s = r.app in
    let abandoned = is_some s.pending_key_deletion || is_some s.pending_key_rename in
    let r2 = abandon abandoned (stopped r) in
    let shown =
      s.phase == error || s.phase == needs_pin || is_some s.pending_key_creation || abandoned in
    let r3 = record r2 { app = settle shown r2.app } in (tell hide_auth (publish r3), ok r3.app)
