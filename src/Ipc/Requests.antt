-- ===== src/Ipc/Requests.antt =====
-- src-tauri/src/ipc/commands.rs: the requests to create, delete and rename a key of a security key,
-- up to the prompt. `str::trim` is a parameter.
use Prim.Native.String.{◌++◌ as concat}
use keynoxis.Base.{
  Bool, true, false, not, ◌&&◌, ◌||◌, Option, none, some, String, if◌then◌else◌, ltb, ◌==◌, Nat_eq,
  String_eq, Option_eq, Result, ok, err, is_some, unwrap_or, contains, retain, find, any, is_empty,
  length, as_bytes, chars, is_control, eq_ignore_ascii_case,
}
use keynoxis.State.{
  RuntimeState, AppState, SshKey, DeviceInfo, fido2, Backend_eq, needs_pin, waiting_for_touch,
}
use keynoxis.Provider.{get_pin}
use keynoxis.Fido.Credentials.{ed25519_sk, ecdsa_sk}
use keynoxis.Ipc.{clear_pending, is_fido2_at, is_not_path, prompt, forget_device, remove_pin}

infixl 5 ◌>>=◌
abbrev ◌>>=◌ : {A B : Type 0} → Result A → (A → Result B) → Result B
ok a >>= f = f a
err e >>= f = err e

-- The name of a key, already trimmed.
unfoldable pub validate_key_name : String → Result (Unit {0})
validate_key_name name =
    if is_empty (chars name)
    then err "Key name cannot be empty"
    else if ltb 64 (length (as_bytes name))
    then err "Key name must be 64 UTF-8 bytes or fewer"
    else if any is_control (chars name)
    then err "Key name cannot contain control characters"
    else ok tt

abbrev advertised : String → String
advertised algorithm = if algorithm == ecdsa_sk then "ECDSA-SK" else "ED25519-SK"

abbrev is_fido2_device : DeviceInfo → Bool
is_fido2_device d = d.is_fido2

abbrev keep_fido2 : Option DeviceInfo → Option DeviceInfo
keep_fido2 none = none
keep_fido2 (some d) = if d.is_fido2 then some d else none

abbrev pub creation_target : AppState → Option String → Option DeviceInfo
creation_target s (some path) = find (is_fido2_at path) s.devices
creation_target s none = keep_fido2 s.active

abbrev is_named : String → Option String → Bool
is_named name none = false
is_named name (some comment) = eq_ignore_ascii_case comment name

abbrev is_fido2_named : String → SshKey → Bool
is_fido2_named name k = k.backend == fido2 && is_named name k.comment

abbrev pub has_pin : RuntimeState → String → Bool
has_pin r path = is_some (get_pin path r.pins)

-- Fresh PIN: the prompt, with the session of the device forgotten but for the keys.
unfoldable pub forget_session : String → RuntimeState → RuntimeState
forget_session path r = record r {
  app = record r.app {
    fido_session_unlocked = false;
    unlocked_device_paths = retain (is_not_path path) r.app.unlocked_device_paths;
  };
  pins = remove_pin path r.pins;
}

abbrev pub ask : Bool → AppState → AppState
ask reuse s = record s { phase = if reuse then waiting_for_touch else needs_pin; last_error = none }

abbrev pub lock_for_creation : Bool → String → RuntimeState → RuntimeState
lock_for_creation true path r = r
lock_for_creation false path r =
    let forgotten = forget_device path r in
    record forgotten { app = record forgotten.app { fido_session_unlocked = false } }

abbrev pub lock_for_deletion : Bool → String → RuntimeState → RuntimeState
lock_for_deletion true path r = r
lock_for_deletion false path r = forget_session path r

-- `!require && pins.contains_key`.
abbrev pub reuses : Bool → RuntimeState → String → Bool
reuses required r path = not required && has_pin r path

abbrev pub go_on :
    RuntimeState
    → Result (Unit {0})
    → RuntimeState × Result AppState
    → RuntimeState × Result AppState
go_on r (ok _) next = next
go_on r (err e) next = (r, err e)

abbrev pub check_target : String → String → DeviceInfo → RuntimeState → Result (Unit {0})
check_target name algorithm d r =
    if not (is_empty d.algorithms) && not (contains d.algorithms (advertised algorithm))
    then err (concat "The selected security key does not support " (advertised algorithm))
    else if any (is_fido2_named name) r.app.keys
    then err "A YubiKey SSH key with this name already exists"
    else ok tt

abbrev pub creating : String → String → DeviceInfo → RuntimeState → RuntimeState
creating name algorithm d r = record r {
  app = ask (reuses r.require_pin_for_create r d.path) (record (clear_pending r.app) {
    active = some d;
    pending_key_creation = some name;
    pending_key_algorithm = some algorithm;
  });
}

-- On the device that was found: it is the active one also where the command fails.
unfoldable pub create_on :
    String → String → DeviceInfo → RuntimeState → RuntimeState × Result AppState
create_on name algorithm d r =
    go_on (record r { app = record r.app { active = some d } }) (check_target name algorithm d r)
      (prompt (
        lock_for_creation (reuses r.require_pin_for_create r d.path) d.path
          (creating name algorithm d r)))

abbrev pub create_at :
    String → String → Option DeviceInfo → RuntimeState → RuntimeState × Result AppState
create_at name algorithm none r = (r, err "The selected FIDO2 security key is no longer connected")
create_at name algorithm (some d) r = create_on name algorithm d r

abbrev pub check_creation : String → String → RuntimeState → Result (Unit {0})
check_creation name algorithm r = do
  _ ← validate_key_name name
  _ ←
      if not (algorithm == ed25519_sk || algorithm == ecdsa_sk)
      then err "Choose ED25519-SK or ECDSA-SK"
      else ok tt
  if not r.app.yubikey_connected
      then err "Connect a FIDO2 security key before creating the key"
      else ok tt

abbrev pub is_fido2_key : String → SshKey → Bool
is_fido2_key fingerprint k = k.fingerprint == fingerprint && k.backend == fido2

abbrev pub is_at : String → DeviceInfo → Bool
is_at path d = d.path == path

abbrev pub deleting : String → String → DeviceInfo → RuntimeState → RuntimeState
deleting fingerprint path d r = record r {
  app =
      ask (reuses r.require_pin_for_delete r path)
        (record (clear_pending r.app) { active = some d; pending_key_deletion = some fingerprint });
}

-- The device is the active one, or there is none, also where the command fails.
unfoldable pub delete_on :
    String → String → Option DeviceInfo → RuntimeState → RuntimeState × Result AppState
delete_on fingerprint path none r = (
  record r { app = record r.app { active = none } },
  err "Connect the security key that contains this SSH identity",
)
delete_on fingerprint path (some d) r = prompt (
    lock_for_deletion (reuses r.require_pin_for_delete r path) path (deleting fingerprint path d r))

abbrev pub delete_at : String → Option String → RuntimeState → RuntimeState × Result AppState
delete_at fingerprint none r = (r, err "The source security key is unknown")
delete_at fingerprint (some path) r = delete_on fingerprint path (find (is_at path) r.app.devices) r

abbrev pub delete_found : String → Option SshKey → RuntimeState → RuntimeState × Result AppState
delete_found fingerprint none r = (r, err "The FIDO2 SSH key was not found")
delete_found fingerprint (some k) r = delete_at fingerprint k.device_path r

unfoldable pub request_fido_key_deletion : String → RuntimeState → RuntimeState × Result AppState
request_fido_key_deletion fingerprint r =
    go_on r
      (if r.app.yubikey_connected
        then ok tt
        else err "Connect the FIDO2 security key before deleting the key")
      (delete_found fingerprint (find (is_fido2_key fingerprint) r.app.keys) r)

-- The part of `rename_key` that asks for a PIN: it is called where one is required or none is there.
unfoldable pub request_rename :
    String → String → String → Option DeviceInfo → RuntimeState → RuntimeState × Result AppState
request_rename fingerprint name path none r = (
  record r { app = record r.app { active = none } },
  err "Connect the security key that contains this SSH identity",
)
request_rename fingerprint name path (some d) r =
    let pending = record (clear_pending r.app) {
      active = some d;
      pending_key_rename = some (record { fingerprint = fingerprint; name = name });
    } in
    prompt (forget_session path (record r { app = ask false pending }))

module _ (trim : String → String) where
  unfoldable pub request_fido_key_creation :
      String → Option String → Option String → RuntimeState → RuntimeState × Result AppState
  request_fido_key_creation name algorithm device_path r =
      let chosen = unwrap_or algorithm ed25519_sk in
      go_on r (check_creation (trim name) chosen r)
        (create_at (trim name) chosen (creation_target r.app device_path) r)
