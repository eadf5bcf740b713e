-- ===== src/Fido/Manage.antt =====
-- src-tauri/src/fido/create.rs, delete.rs and rename.rs: a credential of a security key is made, deleted
-- and renamed.

use keynoxis.Base.{
  ℕ, ◌+◌, true, not, ◌||◌, [], Option, none, some, String, if◌then◌else◌, ◌==◌, Nat_eq, String_eq,
  Result, ok, err, Bytes, is_empty,
}
use keynoxis.State.{SshKey, Fido2KeyHandle, fido2, fido2_handle, fido2_of}
use keynoxis.Fido.Credentials.{Encoding, ed25519_sk, ecdsa_sk, finish}
use keynoxis.Fido.Ffi.{fido_ok, fido_err_operation_denied, fido_err_keepalive_cancel}
use keynoxis.Fido.Sign.{c_string}
use keynoxis.Fido.Device.{
  CoseType, eddsa, es256, Credential, Answer, Authenticator, friendly_error, with_device, set_up,
}

infixl 5 ◌>>=◌
abbrev ◌>>=◌ : {A B : Type 0} → Result A → (A → Result B) → Result B
ok a >>= f = f a
err e >>= f = err e

abbrev pub ssh_application : String
ssh_application = "ssh:"

unfoldable pub creation_error : (ℕ → String) → ℕ → String
creation_error error_message code =
    if code == fido_err_operation_denied || code == fido_err_keepalive_cancel
    then "Touch timed out. The SSH key was not created."
    else friendly_error error_message code

abbrev pub cose_type_of : String → Result (CoseType × String)
cose_type_of algorithm =
    if algorithm == ed25519_sk
    then ok (eddsa, ed25519_sk)
    else if algorithm == ecdsa_sk
    then ok (es256, ecdsa_sk)
    else err "Unsupported FIDO2 SSH key algorithm"

-- The key of a credential, before `finish` fills in the public key.
abbrev pub key_of : String → String → Bytes → Credential → Option String → ℕ → SshKey
key_of algorithm application user_id c comment flags = record {
  algorithm = algorithm;
  public_key = "";
  fingerprint = "";
  comment = comment;
  backend = fido2;
  enabled = true;
  device_path = none;
  public_blob = [];
  handle = some (
      fido2_handle (record {
        application = application;
        credential_id = c.id;
        user_id = user_id;
        public_key_bytes = c.public_key;
        flags = flags;
      }));
}

module _ (x : Encoding) where
  unfoldable pub from_credential : Credential → String → Bytes → String → Result SshKey
  from_credential c name user_id algorithm =
      if is_empty c.id || is_empty c.public_key
      then err "YubiKey created a credential without public key data"
      else finish x (key_of algorithm ssh_application user_id c (some name) (0x01 + 0x20))

module _ (x : Encoding) (d : Authenticator) where
  abbrev made : String → Bytes → String → Answer Credential → Result SshKey
  made name user_id algorithm (code, c) =
      if code == fido_ok
      then from_credential x c name user_id algorithm
      else err (creation_error d.error_message code)

  abbrev make : CoseType → String → String → Bytes → Bytes → String → Result SshKey
  make cose algorithm name user_id hash pin =
      if not d.allocates_credential
      then err "Could not allocate a FIDO2 credential"
      else set_up d (d.make_setup cose hash user_id name)
          (made name user_id algorithm (d.make_cred cose hash user_id name pin))

  -- `create::resident`; the two random values are what /dev/urandom gives.
  unfoldable pub resident :
      Result Bytes → Result Bytes → String → String → String → String → Result SshKey
  resident random_id random_hash path name pin algorithm = do
    (cose, ssh_algorithm) ← cose_type_of algorithm
    _ ← c_string path "Invalid device path"
    _ ← c_string name "Key name contains an invalid character"
    _ ← c_string pin "Invalid PIN"
    user_id ← random_id
    hash ← random_hash
    with_device d path (make cose ssh_algorithm name user_id hash pin)

module _ (d : Authenticator) where
  abbrev deleted : ℕ → Result (Unit {0})
  deleted code = if code == fido_ok then ok tt else err (friendly_error d.error_message code)

  -- `delete::credential`.
  unfoldable pub delete_credential : String → SshKey → String → Result (Unit {0})
  delete_credential path k pin = do
    handle ← fido2_of k
    _ ←
        if is_empty handle.credential_id
        then err "This resident credential has no credential ID"
        else ok tt
    _ ← c_string path "Invalid device path"
    _ ← c_string pin "Invalid PIN"
    with_device d path (deleted (d.del_dev_rk handle.credential_id pin))

  abbrev renamed : ℕ → Result (Unit {0})
  renamed code = if code == fido_ok then ok tt else err (d.error_message code)

  abbrev rename_in : Fido2KeyHandle → String → String → Result (Unit {0})
  rename_in handle label pin =
      if not d.allocates_credential
      then err "Could not allocate a FIDO2 credential"
      else set_up d (d.rename_setup handle.credential_id handle.user_id label)
          (renamed (d.set_dev_rk handle.credential_id handle.user_id label pin))

  -- `rename::credential`.
  unfoldable pub rename_credential : String → SshKey → String → String → Result (Unit {0})
  rename_credential path k label pin = do
    handle ← fido2_of k
    _ ←
        if is_empty handle.user_id
        then err "This resident credential has no user ID and cannot be renamed"
        else ok tt
    _ ← c_string path "Invalid device path"
    _ ← c_string label "Key name contains an invalid character"
    _ ← c_string pin "Invalid PIN"
    with_device d path (rename_in handle label pin)
