-- ===== src/Fido/Sign.antt =====
-- src-tauri/src/fido/sign.rs: an assertion over the data of a signature request.
use keynoxis.Base.{
  ℕ, Bool, not, Option, none, some, String, if◌then◌else◌, ◌==◌, Nat_eq, String_eq, Result, ok, err,
  Bytes, is_empty, as_bytes, contains, ◌/◌, ◌%◌,
}
use keynoxis.State.{SshKey, Fido2KeyHandle, fido2_of}
use keynoxis.Fido.Credentials.{ecdsa_sk}
use keynoxis.Fido.Ffi.{fido_ok, signing_error_message}
use keynoxis.Ssh.{der_ecdsa_to_ssh}

pub record AssertionSignature : Type 0 where
  pub signature : Bytes
  pub flags : ℕ
  pub counter : ℕ

-- What libfido2 returns for one assertion: the code and, if that is `fido_ok`, the signature, the
-- flags and the counter of the first statement.
pub record AssertionAnswer : Type 0 where
  pub code : ℕ
  pub sig : Bytes
  pub assert_flags : ℕ
  pub sigcount : ℕ

-- libfido2, for the calls of `sign`: whether the two allocations succeed, the code of opening a
-- path, the first failing code of the setup if there is one (by the request, with user verification
-- if the flag is set), and the answer to the request with a PIN.
pub record AssertionDevice : Type 0 where
  pub error_message : ℕ → String
  pub allocates_device : Bool
  pub allocates_assertion : Bool
  pub open_code : String → ℕ
  pub setup_failure : String → Bytes → Bool → Option ℕ
  pub get_assert : String → String → Bytes → Bool → Bytes → String → AssertionAnswer

infixl 5 ◌>>=◌
abbrev ◌>>=◌ : {A B : Type 0} → Result A → (A → Result B) → Result B
ok a >>= f = f a
err e >>= f = err e

-- `CString::new`: no byte is 0.
unfoldable pub c_string : String → String → Result (Unit {0})
c_string s message = if contains (as_bytes s) 0 then err message else ok tt

-- `handle.flags & 0x04 != 0`.
abbrev pub requires_uv : Fido2KeyHandle → Bool
requires_uv h = not (h.flags / 4 % 2 == 0)

-- The signature in the form of SSH, from the raw one.
abbrev converted : SshKey → Bytes → Result Bytes
converted k raw = if k.algorithm == ecdsa_sk then der_ecdsa_to_ssh raw else ok raw

module _ (d : AssertionDevice) where
  unfoldable pub answer_signature : SshKey → AssertionAnswer → Result AssertionSignature
  answer_signature k a =
      if not (a.code == fido_ok)
      then err (signing_error_message d.error_message a.code)
      else if is_empty a.sig
      then err "YubiKey returned an empty signature"
      else (converted k a.sig >>= λ s.
          ok (record { signature = s; flags = a.assert_flags; counter = a.sigcount }))

  -- With the device open.
  unfoldable pub assert_on :
      String → SshKey → Fido2KeyHandle → Bytes → String → Result AssertionSignature
  unfolding answer_signature
  assert_on path k h data_ pin =
      if not d.allocates_assertion
      then err "Could not allocate a FIDO2 assertion"
      else elim (d.setup_failure h.application h.credential_id (requires_uv h)) [
        | some code ↦ err (d.error_message code)
        | none ↦
            answer_signature k
              (d.get_assert path h.application h.credential_id (requires_uv h) data_ pin)
      ]

  unfoldable pub sign : String → SshKey → Bytes → String → Result AssertionSignature
  unfolding assert_on c_string
  sign path k data_ pin = do
    h ← fido2_of k
    _ ← c_string path "Invalid device path"
    _ ← c_string h.application "Invalid SSH application"
    _ ← c_string pin "Invalid PIN"
    if not d.allocates_device
        then err "Could not allocate a libfido2 device"
        else if not (d.open_code path == fido_ok)
        then err (d.error_message (d.open_code path))
        else assert_on path k h data_ pin
