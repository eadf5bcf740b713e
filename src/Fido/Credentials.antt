-- ===== src/Fido/Credentials.antt =====
-- src-tauri/src/fido/credentials.rs and src-tauri/src/fido/pin.rs: the public key blob of a
-- resident credential, and the check of a PIN. SHA-256 and base64 are parameters.
pub mod Blob
use keynoxis.Base.{
  ℕ, Bool, true, false, not, ◌&&◌, List, [], ◌∷◌, ◌++◌, Option, none, some, String, if◌then◌else◌,
  Result, ok, err, map_ok, Bytes, length, get_elem?, ◌==◌, Nat_eq, String_eq, as_bytes, is_empty,
  contains, unwrap_or, and_then,
}
use keynoxis.State.{SshKey, Fido2KeyHandle, fido2_of}
use keynoxis.Agent.Wire.{put_string}

abbrev pub ed25519_sk : String
ed25519_sk = "sk-ssh-ed25519@openssh.com"

abbrev pub ecdsa_sk : String
ecdsa_sk = "sk-ecdsa-sha2-nistp256@openssh.com"

-- The message of the source ends with the length.
unfoldable pub ecdsa_point : Bytes → Result Bytes
ecdsa_point value =
    if length value == 65 && unwrap_or (get_elem? value 0) 0 == 4
    then ok value
    else if length value == 64
    then ok (4 ∷ value)
    else err "Invalid ES256 public key length"

unfoldable pub public_blob : String → Bytes → String → Result Bytes
public_blob algorithm public_key application =
    if algorithm == ed25519_sk
    then ok (
        put_string (as_bytes algorithm)
        ++ (put_string public_key ++ put_string (as_bytes application)))
    else if algorithm == ecdsa_sk
    then map_ok
        (λ point.
          put_string (as_bytes algorithm)
          ++ (put_string (as_bytes "nistp256")
              ++ (put_string point ++ put_string (as_bytes application))))
        (ecdsa_point public_key)
    else err "Unsupported SSH security-key algorithm"

-- `fingerprint blob` is the text `SHA256:…` of the digest, and `public_line` the line of a public
-- key from its algorithm, its blob and its comment.
pub record Encoding : Type 0 where
  pub fingerprint : Bytes → String
  pub public_line : String → Bytes → String → String

unfoldable pub finish : Encoding → SshKey → Result SshKey
finish x k = and_then (fido2_of k) λ h.
    map_ok
      (λ blob. record k {
        fingerprint = x.fingerprint blob;
        public_key = x.public_line k.algorithm blob (unwrap_or k.comment "FIDO2 resident key");
        public_blob = blob;
      })
      (public_blob k.algorithm h.public_key_bytes h.application)

-- `pin::validate`.
unfoldable pub validate_pin : String → Result (Unit {0})
validate_pin pin =
    if is_empty (as_bytes pin)
    then err "Enter your FIDO2 PIN"
    else if contains (as_bytes pin) 0
    then err "The PIN contains an invalid character"
    else ok tt
