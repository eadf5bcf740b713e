-- ===== src/State.antt =====
-- src-tauri/src/state/mod.rs: the shared state of the application.
use keynoxis.Base.{
  ℕ, Bool, true, false, List, [], Option, none, some, String, ◌≡◌, ◌↔◌, arith, Eq, Result, ok, err,
  Bytes,
}

pub data Phase : Type 0 where
  waiting_for_device needs_pin loading waiting_for_touch ready error : Phase

pub data KeyBackend : Type 0 where
  fido2 secure_enclave tpm : KeyBackend

pub record Fido2KeyHandle : Type 0 where
  pub application : String
  pub credential_id : Bytes
  pub user_id : Bytes
  pub public_key_bytes : Bytes
  pub flags : ℕ

pub record SecureEnclaveKeyHandle : Type 0 where
  pub encrypted_key : Bytes

pub data KeyHandle : Type 0 where
  fido2_handle : Fido2KeyHandle → KeyHandle
  secure_enclave_handle : SecureEnclaveKeyHandle → KeyHandle

pub record SshKey : Type 0 where
  pub algorithm : String
  pub public_key : String
  pub fingerprint : String
  pub comment : Option String
  pub backend : KeyBackend
  pub enabled : Bool
  pub device_path : Option String
  pub public_blob : Bytes
  pub handle : Option KeyHandle

pub record DeviceInfo : Type 0 where
  pub label : Option String
  pub serial_number : Option ℕ
  pub local_id : Option ℕ
  pub product : Option String
  pub manufacturer : Option String
  pub path : String
  pub vendor_id : ℕ
  pub product_id : ℕ
  pub is_fido2 : Bool
  pub credential_management : Bool
  pub pin_configured : Bool
  pub algorithms : List String
  pub aaguid : Option String
  pub firmware : Option String
  pub resident_credentials_remaining : Option ℕ
  pub pin_retries : Option ℕ

pub data ActivityCategory : Type 0 where
  agent device key signing : ActivityCategory

pub data ActivityStatus : Type 0 where
  info success warning failure : ActivityStatus

pub record ActivityEntry : Type 0 where
  pub id : ℕ
  pub timestamp_ms : ℕ
  pub category : ActivityCategory
  pub status : ActivityStatus
  pub title : String
  pub detail : Option String

pub record PendingKeyRename : Type 0 where
  pub fingerprint : String
  pub name : String

pub record AppState : Type 0 where
  pub phase : Phase
  pub yubikey_connected : Bool
  pub agent_running : Bool
  pub agent_locked : Bool
  pub ssh_socket : Option String
  pub keys : List SshKey
  pub active : Option DeviceInfo
  pub devices : List DeviceInfo
  pub last_error : Option String
  pub pending_key_creation : Option String
  pub pending_key_algorithm : Option String
  pub pending_key_deletion : Option String
  pub pending_key_rename : Option PendingKeyRename
  pub fido_session_unlocked : Bool
  pub unlocked_device_paths : List String
  pub unlock_sequence : Bool
  pub security_notice : Option String

-- What the windows and the tray are told, newest first.
pub data UiCall : Type 0 where
  update_tray state_changed : AppState → UiCall
  activity_added : ActivityEntry → UiCall
  show_auth hide_auth show_main : UiCall
  navigate : String → UiCall

-- What libfido2 is asked to do: an operation and the path of the device.
pub data DeviceCall : Type 0 where
  create_resident load_resident : String → DeviceCall
  delete_credential rename_credential sign_assertion : String → SshKey → DeviceCall

-- `RuntimeState`, with the calls that leave the process as two logs. A mutex is its content: each
-- function of the model is one critical section, and no lock is ever poisoned.
pub record RuntimeState : Type 0 where
  pub app : AppState
  pub agent_socket : Option String
  pub pins : List (String × String)
  pub auth_dismiss_generation : ℕ
  pub activity : List ActivityEntry
  pub next_activity_id : ℕ
  pub auto_lock_minutes : ℕ
  pub last_fido_activity_ms : ℕ
  pub preferred_backend : ℕ
  pub lifecycle_flags : ℕ
  pub device_scan_completed : Bool
  pub prompt_pin_on_startup : Bool
  pub prompt_pin_on_device_connection : Bool
  pub prompt_pin_after_mac_unlock : Bool
  pub require_pin_for_create : Bool
  pub require_pin_for_rename : Bool
  pub require_pin_for_delete : Bool
  pub require_touch_id_for_create : Bool
  pub require_touch_id_for_rename : Bool
  pub ui : List UiCall
  pub device_calls : List DeviceCall

abbrev pub default_app : AppState
default_app = record {
  phase = waiting_for_device;
  yubikey_connected = false;
  agent_running = false;
  agent_locked = false;
  ssh_socket = none;
  keys = [];
  active = none;
  devices = [];
  last_error = none;
  pending_key_creation = none;
  pending_key_algorithm = none;
  pending_key_deletion = none;
  pending_key_rename = none;
  fido_session_unlocked = false;
  unlocked_device_paths = [];
  unlock_sequence = false;
  security_notice = none;
}

abbrev pub default_runtime : RuntimeState
default_runtime = record {
  app = default_app;
  agent_socket = none;
  pins = [];
  auth_dismiss_generation = 0;
  activity = [];
  next_activity_id = 1;
  auto_lock_minutes = 15;
  last_fido_activity_ms = 0;
  preferred_backend = 0;
  lifecycle_flags = 0;
  device_scan_completed = false;
  prompt_pin_on_startup = false;
  prompt_pin_on_device_connection = true;
  prompt_pin_after_mac_unlock = true;
  require_pin_for_create = true;
  require_pin_for_rename = true;
  require_pin_for_delete = true;
  require_touch_id_for_create = true;
  require_touch_id_for_rename = true;
  ui = [];
  device_calls = [];
}

abbrev pub backend_eq : KeyBackend → KeyBackend → Bool
backend_eq fido2 fido2 = true
backend_eq secure_enclave secure_enclave = true
backend_eq tpm tpm = true
backend_eq _ _ = false

pub backend_eq_iff : (a b : KeyBackend) → (backend_eq a b ≡ true) ↔ (a ≡ b)
backend_eq_iff a b = ground arith

abbrev pub phase_eq : Phase → Phase → Bool
phase_eq waiting_for_device waiting_for_device = true
phase_eq needs_pin needs_pin = true
phase_eq loading loading = true
phase_eq waiting_for_touch waiting_for_touch = true
phase_eq ready ready = true
phase_eq error error = true
phase_eq _ _ = false

pub phase_eq_iff : (a b : Phase) → (phase_eq a b ≡ true) ↔ (a ≡ b)
phase_eq_iff a b = ground arith

instance abbrev pub Backend_eq : Eq KeyBackend
Backend_eq = record { test = backend_eq; test_iff = backend_eq_iff }

instance abbrev pub Phase_eq : Eq Phase
Phase_eq = record { test = phase_eq; test_iff = phase_eq_iff }

-- `SshKey::fido2` and `SshKey::secure_enclave`: the handle, if it is of the backend.
abbrev pub fido2_of : SshKey → Result Fido2KeyHandle
fido2_of k = elim k.handle [
  | some h ↦ elim h [ fido2_handle f ↦ ok f | _ ↦ err "Key is not backed by a FIDO2 credential" ]
  | none ↦ err "Key is not backed by a FIDO2 credential"
]

abbrev pub secure_enclave_of : SshKey → Result SecureEnclaveKeyHandle
secure_enclave_of k = elim k.handle [
  | some h ↦ elim h [
    | secure_enclave_handle s ↦ ok s
    | _ ↦ err "Key is not backed by Secure Enclave"
  ]
  | none ↦ err "Key is not backed by Secure Enclave"
]
