-- ===== src/Fido/Resident.antt =====
-- src-tauri/src/fido/resident.rs: the SSH keys that a security key holds.
pub mod Listed
use keynoxis.Base.{
  ℕ, ◌+◌, ◌*◌, ◌/◌, ◌%◌, Bool, true, false, not, ◌||◌, ◌&&◌, List, [], ◌∷◌, ◌++◌, Option, none,
  some, String, if◌then◌else◌, ◌==◌, Nat_eq, Result, ok, err, map_ok, Bytes, is_empty, as_bytes,
  or_else, chars, map,
}
use keynoxis.State.{SshKey}
use keynoxis.Fido.Credentials.{Encoding, ed25519_sk, ecdsa_sk, finish}
use keynoxis.Fido.Ffi.{fido_ok, fido_err_no_credentials}
use keynoxis.Fido.Sign.{c_string}
use keynoxis.Fido.Device.{
  CoseType, eddsa, es256, other_type, Credential, Answer, Authenticator, friendly_error,
  with_device,
}
use keynoxis.Fido.Manage.{key_of}

infixl 5 ◌>>=◌
abbrev pub ◌>>=◌ : {A B : Type 0} → Result A → (A → Result B) → Result B
ok a >>= f = f a
err e >>= f = err e

abbrev starts : Bytes → Bytes → Bool
starts [] text = true
starts (b ∷ bs) [] = false
starts (b ∷ bs) (c ∷ cs) = b == c && starts bs cs

-- `str::starts_with`.
unfoldable pub starts_with : String → String → Bool
starts_with prefix text = starts (as_bytes prefix) (as_bytes text)

abbrev pub algorithm_of : CoseType → Option String
algorithm_of eddsa = some ed25519_sk
algorithm_of es256 = some ecdsa_sk
algorithm_of other_type = none

abbrev non_empty : Option String → Option String
non_empty none = none
non_empty (some s) = if is_empty (chars s) then none else some s

-- A resident key asks for presence; of the credential's own flags the one for verification is kept.
abbrev pub flags_of : ℕ → ℕ
flags_of flags = 0x01 + 0x20 + flags / 4 % 2 * 4

abbrev pub listed_key : String → String → Credential → SshKey
listed_key application algorithm c =
    key_of algorithm application c.user_id c (non_empty (or_else c.display_name c.user_name))
      (flags_of c.flags)

abbrev pub with_path : String → SshKey → SshKey
with_path path k = record k { device_path = some path }

module _ (x : Encoding) where
  -- A key and those behind it.
  abbrev pub push : Result SshKey → Result (List SshKey) → Result (List SshKey)
  push one rest = one >>= λ k. rest >>= λ ks. ok (k ∷ ks)

  abbrev pub key_if :
      String → Credential → Option String → Result (List SshKey) → Result (List SshKey)
  key_if application c none rest = rest
  key_if application c (some algorithm) rest =
      if is_empty c.public_key || is_empty c.id
      then rest
      else push (finish x (listed_key application algorithm c)) rest

  abbrev pub keys_of : String → List (Option Credential) → Result (List SshKey)
  keys_of application [] = ok []
  keys_of application (none ∷ cs) = keys_of application cs
  keys_of application (some c ∷ cs) =
      key_if application c (algorithm_of c.cose_type) (keys_of application cs)

module _ (x : Encoding) (d : Authenticator) (pin : String) where
  abbrev pub append : Result (List SshKey) → Result (List SshKey) → Result (List SshKey)
  append first rest = first >>= λ ks. rest >>= λ more. ok (ks ++ more)

  abbrev pub of_answer :
      String → Answer (List (Option Credential)) → Result (List SshKey) → Result (List SshKey)
  of_answer application (code, cs) rest =
      if code == fido_err_no_credentials
      then rest
      else if not (code == fido_ok)
      then err (friendly_error d.error_message code)
      else append (keys_of x application cs) rest

  abbrev pub of_application : String → Result (List SshKey) → Result (List SshKey)
  of_application application rest =
      if not (starts_with "ssh:" application)
      then rest
      else c_string application "Invalid resident relying-party ID" >>= λ _.
          if not (d.allocates_keys application)
          then rest
          else of_answer application (d.get_dev_rk application pin) rest

  abbrev pub of_parties : List (Option String) → Result (List SshKey)
  of_parties [] = ok []
  of_parties (none ∷ rest) = of_parties rest
  of_parties (some application ∷ rest) = of_application application (of_parties rest)

  abbrev pub of_list : Answer (List (Option String)) → Result (List SshKey)
  of_list (code, parties) =
      if code == fido_err_no_credentials
      then ok []
      else if not (code == fido_ok)
      then err (friendly_error d.error_message code)
      else of_parties parties

  unfoldable pub enumerate : Result (List SshKey)
  enumerate =
      if not d.allocates_parties
      then err "Could not allocate a credential list"
      else of_list (d.get_dev_rp pin)

  unfoldable pub load : String → Result (List SshKey)
  load path = do
    _ ← c_string path "Invalid device path"
    _ ← c_string pin "Invalid PIN"
    with_device d path (
        if not d.is_fido2 || not d.supports_credman
        then err "This YubiKey does not support FIDO2 credential management"
        else map_ok (map (with_path path)) enumerate)
