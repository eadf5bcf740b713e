-- ===== src/Device/Watcher.antt =====
-- src-tauri/src/device/watcher.rs: one round of the watcher, which is two critical sections with the
-- detection between them. The names of the devices are restored by a function that is a parameter.
pub mod Connected
pub mod Stable
use keynoxis.Base.{
  ℕ, Bool, true, false, not, ◌&&◌, ◌||◌, List, [], ◌∷◌, Option, none, some, String, if◌then◌else◌,
  ◌==◌, Nat_eq, String_eq, Option_eq, List_eq, Result, ok, err, is_some, or_else, option_map,
  contains, retain, find, any, all, is_empty, first, map,
}
use keynoxis.State.{
  RuntimeState, AppState, SshKey, DeviceInfo, fido2, Backend_eq, Phase, Phase_eq,
  waiting_for_device, needs_pin, loading, waiting_for_touch, ready, error, device, success, failure,
  info, show_auth,
}
use keynoxis.Activity.{publish, tell, record_activity}
use keynoxis.Ipc.{is_locked_fido2, all_unlocked}

-- `retain` on the map of the PINs.
abbrev pub retain_pins : (String → Bool) → List (String × String) → List (String × String)
retain_pins keep [] = []
retain_pins keep ((p, pin) ∷ pins) =
    if keep p then (p, pin) ∷ retain_pins keep pins else retain_pins keep pins

abbrev pub path_of : DeviceInfo → String
path_of d = d.path

abbrev pub has_path : List DeviceInfo → String → Bool
has_path devices path = contains (map path_of devices) path

abbrev pub device_connected : List DeviceInfo → Option String → Bool
device_connected devices none = false
device_connected devices (some path) = has_path devices path

abbrev pub keeps_key : List DeviceInfo → SshKey → Bool
keeps_key devices k = not (k.backend == fido2) || device_connected devices k.device_path

-- What the session of the connected devices is, when the others are left.
unfoldable pub disconnect_others : List DeviceInfo → RuntimeState → RuntimeState
disconnect_others devices r = record r {
  app = record r.app {
    unlocked_device_paths = retain (has_path devices) r.app.unlocked_device_paths;
    keys = retain (keeps_key devices) r.app.keys;
  };
  pins = retain_pins (has_path devices) r.pins;
}

abbrev pub operation_in_progress : AppState → Bool
operation_in_progress s =
    s.phase == needs_pin
    || s.phase == loading
    || s.phase == waiting_for_touch
    || is_some s.pending_key_creation
    || is_some s.pending_key_deletion
    || is_some s.pending_key_rename

abbrev pub is_at : String → DeviceInfo → Bool
is_at path d = d.path == path

abbrev pub device_at : List DeviceInfo → Option String → Option DeviceInfo
device_at devices none = none
device_at devices (some path) = find (is_at path) devices

-- A FIDO2 device that was not there before.
abbrev is_new : List DeviceInfo → DeviceInfo → Bool
is_new previous d = not (any (is_at d.path) previous)

abbrev is_new_fido2 : List DeviceInfo → DeviceInfo → Bool
is_new_fido2 previous d = d.is_fido2 && is_new previous d

abbrev is_fido2_device : DeviceInfo → Bool
is_fido2_device d = d.is_fido2

-- The device that the window works with.
unfoldable pub choose_active :
    List DeviceInfo → List DeviceInfo → Option String → AppState → Option DeviceInfo
choose_active previous devices path s =
    if operation_in_progress s && device_connected devices path
    then device_at devices path
    else or_else (find (is_new_fido2 previous) devices) (
        or_else (device_at devices path)
          (or_else (find (is_locked_fido2 s) devices) (find is_fido2_device devices)))

abbrev same_bool : Bool → Bool → Bool
same_bool true b = b
same_bool false b = not b

-- `PartialEq` of the devices.
unfoldable pub device_eq : DeviceInfo → DeviceInfo → Bool
device_eq a b =
    a.label == b.label
    && a.serial_number == b.serial_number
    && a.local_id == b.local_id
    && a.product == b.product
    && a.manufacturer == b.manufacturer
    && a.path == b.path
    && a.vendor_id == b.vendor_id
    && a.product_id == b.product_id
    && same_bool a.is_fido2 b.is_fido2
    && same_bool a.credential_management b.credential_management
    && same_bool a.pin_configured b.pin_configured
    && a.algorithms == b.algorithms
    && a.aaguid == b.aaguid
    && a.firmware == b.firmware
    && a.resident_credentials_remaining == b.resident_credentials_remaining
    && a.pin_retries == b.pin_retries

unfoldable pub devices_eq : List DeviceInfo → List DeviceInfo → Bool
devices_eq [] [] = true
devices_eq (a ∷ as1) (b ∷ bs) = device_eq a b && devices_eq as1 bs
devices_eq _ _ = false

abbrev pub idle_phase : Bool → AppState → Phase
idle_phase appeared s =
    if appeared
    then needs_pin
    else if s.yubikey_connected || not (is_empty s.keys)
    then ready
    else waiting_for_device

abbrev pub settled : Bool → Bool → AppState → AppState
settled true appeared s = s
settled false appeared s = record s { phase = idle_phase appeared s; last_error = none }

-- The state after a detection that succeeded, and whether anything changed.
unfoldable pub apply_devices :
    List DeviceInfo → List DeviceInfo → RuntimeState → RuntimeState × Bool
apply_devices previous devices r0 =
    let path = option_map path_of r0.app.active in
    let r = disconnect_others devices r0 in
    let active = choose_active previous devices path r.app in
    let changed =
      not (devices_eq r.app.devices devices) || not (path == option_map path_of active) in
    let s = record r.app {
      devices = devices;
      active = active;
      yubikey_connected = not (is_empty devices);
      fido_session_unlocked =
          not (is_empty devices) && all_unlocked (record r.app { devices = devices });
    } in
    (
      record r {
        app = settled (operation_in_progress r.app) (any (is_new_fido2 previous) devices) s;
      },
      changed,
    )

-- What the first critical section reads.
pub record Scan : Type 0 where
  pub is_initial : Bool
  pub previous : List DeviceInfo

abbrev pub begin_scan : RuntimeState → RuntimeState × Scan
begin_scan r = (
  record r { device_scan_completed = true },
  record { is_initial = not r.device_scan_completed; previous = r.app.devices },
)

unfoldable pub prompts : Scan → Bool → RuntimeState → Bool
prompts c was_waiting r =
    r.app.phase == needs_pin
    && not was_waiting
    && r.lifecycle_flags == 0
    && (if c.is_initial
        then r.prompt_pin_on_startup
        else any (is_new_fido2 c.previous) r.app.devices && r.prompt_pin_on_device_connection)

abbrev pub prompt_state : Bool → Bool → AppState → AppState
prompt_state auto_prompt was_waiting s =
    if auto_prompt
    then record s { unlock_sequence = true }
    else if s.phase == needs_pin && not was_waiting
    then record s { phase = ready }
    else s

abbrev name_of : DeviceInfo → Option String
name_of d = or_else d.label d.product

abbrev connection_note : ℕ → DeviceInfo → RuntimeState → RuntimeState
connection_note now d r =
    if d.is_fido2
    then record_activity now device success "Security key connected" (name_of d) r
    else record_activity now device failure "Unsupported security key" (name_of d) r

abbrev failure_note : ℕ → Option String → RuntimeState → RuntimeState
failure_note now none r = r
failure_note now (some e) r =
    record_activity now device failure "Security key detection failed" (some e) r

abbrev disconnection_note : ℕ → Option DeviceInfo → RuntimeState → RuntimeState
disconnection_note now (some d) r =
    record_activity now device info "Security key disconnected" (name_of d) r
disconnection_note now none r = failure_note now r.app.last_error r

-- The entry of the log: the first device that came, or else went, or else the error.
abbrev pub note_change : ℕ → Option DeviceInfo → Option DeviceInfo → RuntimeState → RuntimeState
note_change now (some d) left r = connection_note now d r
note_change now none left r = disconnection_note now left r

abbrev show_if : Bool → RuntimeState → RuntimeState
show_if true r = tell show_auth r
show_if false r = r

-- With the decision to ask for the PIN.
abbrev pub announce_with : ℕ → Scan → Bool → Bool → RuntimeState → RuntimeState
announce_with now c was_waiting auto_prompt r =
    let shown = publish (record r { app = prompt_state auto_prompt was_waiting r.app }) in
    show_if auto_prompt (
      note_change now (find (is_new c.previous) r.app.devices)
        (find (is_new r.app.devices) c.previous) shown)

unfoldable pub announce : ℕ → Scan → Bool → RuntimeState → RuntimeState
announce now c was_waiting r = announce_with now c was_waiting (prompts c was_waiting r) r

abbrev pub announce_if : ℕ → Scan → Bool → RuntimeState × Bool → RuntimeState
announce_if now c was_waiting (r, changed) = if changed then announce now c was_waiting r else r

abbrev same_error : Option String → String → Bool
same_error e text = e == some text

-- The second critical section, on what was detected.
unfoldable pub end_scan : ℕ → Scan → Result (List DeviceInfo) → RuntimeState → RuntimeState
end_scan now c (ok devices) r =
    announce_if now c (r.app.phase == needs_pin) (apply_devices c.previous devices r)
end_scan now c (err e) r =
    if r.app.yubikey_connected
    then r
    else announce_if now c (r.app.phase == needs_pin) (
      record r { app = record r.app { last_error = some e; phase = error } },
      not (same_error r.app.last_error e),
    )

abbrev pub labelled_result :
    (List DeviceInfo → List DeviceInfo) → Result (List DeviceInfo) → Result (List DeviceInfo)
labelled_result labels (ok devices) = ok (labels devices)
labelled_result labels (err e) = err e

-- A round: the detection knows the devices of before; other threads work meanwhile.
unfoldable pub scan_round :
    ℕ
    → (List DeviceInfo → Result (List DeviceInfo))
    → (List DeviceInfo → List DeviceInfo)
    → (RuntimeState → RuntimeState)
    → RuntimeState
    → RuntimeState
scan_round now detect labels meanwhile r =
    let (r1, c) = begin_scan r in
    end_scan now c (labelled_result labels (detect c.previous)) (meanwhile r1)
