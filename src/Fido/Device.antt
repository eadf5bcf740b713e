-- ===== src/Fido/Device.antt =====
-- What src-tauri/src/fido asks of libfido2 to create, list, delete and rename credentials, and the
-- opening of a device that its functions share.
use keynoxis.Base.{
  ℕ, Bool, not, List, Option, none, some, String, if◌then◌else◌, ◌==◌, Nat_eq, Result, err, Bytes,
}
use keynoxis.Fido.Ffi.{
  fido_ok, fido_err_pin_invalid, fido_err_pin_blocked, fido_err_pin_auth_blocked,
}

-- The algorithms of COSE that the program tells apart, -8 and -7.
pub data CoseType : Type 0 where
  eddsa es256 other_type : CoseType

-- A credential that a security key holds or has made; a name that is not a text is none.
pub record Credential : Type 0 where
  pub cose_type : CoseType
  pub public_key : Bytes
  pub id : Bytes
  pub user_id : Bytes
  pub display_name : Option String
  pub user_name : Option String
  pub flags : ℕ

-- A code, and what the call has filled in if that is `fido_ok`.
abbrev pub Answer : Type 0 → Type 0
Answer A = ℕ × A

-- libfido2 with a security key: whether each allocation succeeds, the code of opening a path, and the
-- answers of the calls. A setup answers with its first code that is not `fido_ok`.
pub record Authenticator : Type 0 where
  pub error_message : ℕ → String
  pub allocates_device : Bool
  pub allocates_credential : Bool
  pub allocates_parties : Bool
  pub allocates_keys : String → Bool
  pub open_code : String → ℕ
  pub is_fido2 : Bool
  pub supports_credman : Bool
  pub make_setup : CoseType → Bytes → Bytes → String → Option ℕ
  pub make_cred : CoseType → Bytes → Bytes → String → String → Answer Credential
  pub rename_setup : Bytes → Bytes → String → Option ℕ
  pub set_dev_rk : Bytes → Bytes → String → String → ℕ
  pub del_dev_rk : Bytes → String → ℕ
  pub get_dev_rp : String → Answer (List (Option String))
  pub get_dev_rk : String → String → Answer (List (Option Credential))

-- `friendly_error` of resident.rs, and the messages of delete.rs.
unfoldable pub friendly_error : (ℕ → String) → ℕ → String
friendly_error error_message code =
    if code == fido_err_pin_invalid
    then "Invalid PIN"
    else if code == fido_err_pin_blocked
    then "FIDO2 PIN blocked. Reinsert the YubiKey to retry."
    else if code == fido_err_pin_auth_blocked
    then "Too many invalid attempts. Reinsert the YubiKey."
    else error_message code

abbrev pub with_device : {A : Type 0} → Authenticator → String → Result A → Result A
with_device d path next =
    if not d.allocates_device
    then err "Could not allocate a libfido2 device"
    else if not (d.open_code path == fido_ok)
    then err (d.error_message (d.open_code path))
    else next

-- A setup, and the call after it.
abbrev pub set_up : {A : Type 0} → Authenticator → Option ℕ → Result A → Result A
set_up d (some code) next = err (d.error_message code)
set_up d none next = next
