-- ===== src/Provider.antt =====
-- src-tauri/src/provider/mod.rs and `sign` of src-tauri/src/secure_enclave.rs: the signature of a
-- key by its hardware. `sign` holds the device lock, the signing gate and the state lock from
-- `authorize` to the end of the signature, so that it is one step on the state.
pub mod Gate
use keynoxis.Base.{
  ℕ, Bool, true, false, not, ◌&&◌, List, [], ◌∷◌, ◌++◌, Option, none, some, String, if◌then◌else◌,
  any, ◌==◌, Nat_eq, String_eq, List_eq, Result, ok, err, ok_or, and_then, map_ok, Bytes,
}
use keynoxis.State.{
  RuntimeState, AppState, SshKey, KeyBackend, fido2, secure_enclave, tpm, Backend_eq,
  secure_enclave_of, DeviceCall, sign_assertion,
}
use keynoxis.Agent.Wire.{u32_bytes}
use keynoxis.Ssh.{der_ecdsa_to_ssh}
use keynoxis.Fido.Sign.{AssertionDevice, AssertionSignature}
use keynoxis.Fido.Sign

pub record HardwareSignature : Type 0 where
  pub signature : Bytes
  pub provider_fields : Bytes

-- The hardware: libfido2, and the Secure Enclave's signature (DER) of a message by an encrypted key.
pub record Hardware : Type 0 where
  pub assertions : AssertionDevice
  pub enclave_sign : Bytes → Bytes → Result Bytes

-- A cached PIN, by the path of its device.
abbrev pub get_pin : String → List (String × String) → Option String
get_pin path [] = none
get_pin path ((p, pin) ∷ pins) = if p == path then some pin else get_pin path pins

abbrev pub is_same_key : SshKey → SshKey → Bool
is_same_key requested k =
    k.enabled
    && k.fingerprint == requested.fingerprint
    && k.public_blob == requested.public_blob
    && k.backend == requested.backend

unfoldable pub authorize : AppState → SshKey → Result (Unit {0})
authorize s requested =
    if s.agent_locked
    then err "Keynoxis SSH Agent is locked"
    else if not (any (is_same_key requested) s.keys)
    then err "Requested key is unavailable"
    else ok tt

infixl 5 ◌>>=◌
abbrev ◌>>=◌ : {A B : Type 0} → Result A → (A → Result B) → Result B
ok a >>= f = f a
err e >>= f = err e

module _ (h : Hardware) where
  -- `secure_enclave::sign`.
  unfoldable pub enclave_signature : SshKey → Bytes → Result Bytes
  enclave_signature k data_ = do
    e ← secure_enclave_of k
    der ← h.enclave_sign e.encrypted_key data_
    der_ecdsa_to_ssh der

  unfoldable pub sign_with_enclave : RuntimeState → SshKey → Bytes → Result HardwareSignature
  sign_with_enclave r k data_ = do
    _ ← authorize r.app k
    s ← enclave_signature k data_
    ok (record { signature = s; provider_fields = [] })

  abbrev hardware_signature : AssertionSignature → HardwareSignature
  hardware_signature a = record {
    signature = a.signature;
    provider_fields = a.flags ∷ u32_bytes a.counter;
  }

  -- The state afterwards: the device was asked for an assertion, or nothing happened.
  unfoldable pub sign_on_device :
      RuntimeState → SshKey → Bytes → String → String → RuntimeState × Result HardwareSignature
  sign_on_device r k data_ path pin = elim (authorize r.app k) [
    | err e ↦ (r, err e)
    | ok _ ↦ (
      record r { device_calls = sign_assertion path k ∷ r.device_calls },
      map_ok hardware_signature (Sign.sign h.assertions path k data_ pin),
    )
  ]

  -- With the cached PIN of the path, if there is one; and with the path, if the key has one.
  unfoldable pub sign_with_pin :
      RuntimeState
      → SshKey
      → Bytes
      → String
      → Option String
      → RuntimeState × Result HardwareSignature
  sign_with_pin r k data_ path none = (r, err "Enter the FIDO2 PIN in Keynoxis")
  sign_with_pin r k data_ path (some pin) = sign_on_device r k data_ path pin

  unfoldable pub sign_at :
      RuntimeState → SshKey → Bytes → Option String → RuntimeState × Result HardwareSignature
  sign_at r k data_ none = (r, err "FIDO2 security key was removed")
  sign_at r k data_ (some path) = sign_with_pin r k data_ path (get_pin path r.pins)

  unfoldable pub sign_with_fido2 :
      RuntimeState → SshKey → Bytes → RuntimeState × Result HardwareSignature
  unfolding sign_at sign_with_pin
  sign_with_fido2 r k data_ = sign_at r k data_ k.device_path

  abbrev pub sign_by :
      KeyBackend → RuntimeState → SshKey → Bytes → RuntimeState × Result HardwareSignature
  sign_by fido2 r k data_ = sign_with_fido2 r k data_
  sign_by secure_enclave r k data_ = (r, sign_with_enclave r k data_)
  sign_by tpm r k data_ = (r, err "TPM provider is not implemented yet")

  unfoldable pub sign : RuntimeState → SshKey → Bytes → RuntimeState × Result HardwareSignature
  sign r k data_ = sign_by k.backend r k data_
