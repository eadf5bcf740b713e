-- ===== src/Enclave.antt =====
-- src-tauri/src/secure_enclave.rs: the registry of the keys of the Secure Enclave. What the system does
-- is a parameter: the key that it makes, the answer of Touch ID, and the answer of the write, which
-- replaces the whole file or leaves it as it is.
pub mod Success
pub mod Registry
pub mod Listing
use keynoxis.Base.{
  ℕ, Bool, true, false, not, ◌&&◌, List, [], ◌∷◌, ◌++◌, Option, none, some, String, if◌then◌else◌,
  ltb, ◌==◌, Nat_eq, List_eq, Result, ok, err, ok_or, map_ok, Bytes, length, is_empty, any, find,
  retain, chars, as_bytes, is_control, eq_ignore_ascii_case,
}
use keynoxis.State.{SshKey, secure_enclave, secure_enclave_handle, secure_enclave_of}
use keynoxis.Settings.{Stored, missing, unreadable, stored}
use keynoxis.Ssh.{ecdsa_p256, ecdsa_public_blob}
use keynoxis.Fido.Credentials.{Encoding}

infixl 5 ◌>>=◌
abbrev pub ◌>>=◌ : {A B : Type 0} → Result A → (A → Result B) → Result B
ok a >>= f = f a
err e >>= f = err e

-- `if b { return Err(e) }`.
abbrev pub refuse_if : Bool → String → Result (Unit {0})
refuse_if true e = err e
refuse_if false e = ok tt

pub record RegistryEntry : Type 0 where
  pub name : String
  pub public_point : Bytes
  pub encrypted_key : Bytes

abbrev pub Registry : Type 0
Registry = Stored (List RegistryEntry)

abbrev pub read_registry : Registry → Result (List RegistryEntry)
read_registry missing = ok []
read_registry (unreadable e) = err e
read_registry (stored entries) = ok entries

unfoldable pub validate_name : String → Result (Unit {0})
validate_name name =
    if is_empty (chars name)
    then err "Key name cannot be empty"
    else if ltb 64 (length (as_bytes name))
    then err "Key name must be 64 UTF-8 bytes or fewer"
    else if any is_control (chars name)
    then err "Key name cannot contain control characters"
    else ok tt

abbrev pub key_of : Encoding → RegistryEntry → Bytes → SshKey
key_of x entry public_blob = record {
  algorithm = ecdsa_p256;
  public_key = x.public_line ecdsa_p256 public_blob entry.name;
  fingerprint = x.fingerprint public_blob;
  comment = some entry.name;
  backend = secure_enclave;
  enabled = true;
  device_path = none;
  public_blob = public_blob;
  handle = some (secure_enclave_handle (record { encrypted_key = entry.encrypted_key }));
}

unfoldable pub build_ssh_key : Encoding → RegistryEntry → Result SshKey
build_ssh_key x entry = map_ok (key_of x entry) (ecdsa_public_blob entry.public_point)

-- `map(build_ssh_key).collect()`: the first error is the result.
abbrev pub build_all : Encoding → List RegistryEntry → Result (List SshKey)
build_all x [] = ok []
build_all x (entry ∷ entries) = do k ← build_ssh_key x entry; ks ← build_all x entries; ok (k ∷ ks)

unfoldable pub list : Encoding → Registry → Result (List SshKey)
list x registry = do entries ← read_registry registry; build_all x entries

-- `write_registry`, with the answer of the system.
abbrev pub write_registry :
    {A : Type 0} → Result (Unit {0}) → Registry → List RegistryEntry → A → Registry × Result A
write_registry (ok u) registry entries a = (stored entries, ok a)
write_registry (err e) registry entries a = (registry, err e)

-- What was worked out is written.
abbrev pub commit :
    {A : Type 0}
    → Result (Unit {0})
    → Registry
    → Result (List RegistryEntry × A)
    → Registry × Result A
commit write registry (ok (entries, a)) = write_registry write registry entries a
commit write registry (err e) = (registry, err e)

abbrev pub is_named : String → RegistryEntry → Bool
is_named name entry = eq_ignore_ascii_case entry.name name

-- `made` is the encrypted key and the public point that the Secure Enclave answers.
abbrev pub created :
    Encoding → Result (Bytes × Bytes) → String → Registry → Result (List RegistryEntry × SshKey)
created x made name registry = do
  _ ← validate_name name
  entries ← read_registry registry
  _ ← refuse_if (any (is_named name) entries) "A Secure Enclave key with this name already exists"
  (encrypted_key, public_point) ← made
  k ←
      build_ssh_key x
        (record { name = name; public_point = public_point; encrypted_key = encrypted_key })
  ok (
    entries
        ++ (record { name = name; public_point = public_point; encrypted_key = encrypted_key }
            ∷ []),
    k,
  )

unfoldable pub create :
    Encoding
    → Result (Bytes × Bytes)
    → Result (Unit {0})
    → String
    → Registry
    → Registry × Result SshKey
create x made write name registry = commit write registry (created x made name registry)

abbrev pub is_key : Bytes → RegistryEntry → Bool
is_key encrypted_key entry = entry.encrypted_key == encrypted_key

-- Another key has the name.
abbrev pub clashes : Bytes → String → RegistryEntry → Bool
clashes encrypted_key name entry = not (is_key encrypted_key entry) && is_named name entry

-- The first entry of the key gets the name.
abbrev pub rename_first : Bytes → String → List RegistryEntry → List RegistryEntry
rename_first encrypted_key name [] = []
rename_first encrypted_key name (entry ∷ entries) =
    if is_key encrypted_key entry
    then record entry { name = name } ∷ entries
    else entry ∷ rename_first encrypted_key name entries

abbrev pub renamed : Encoding → SshKey → String → Registry → Result (List RegistryEntry × SshKey)
renamed x k name registry = do
  _ ← validate_name name
  handle ← secure_enclave_of k
  entries ← read_registry registry
  _ ←
      refuse_if (any (clashes handle.encrypted_key name) entries)
        "A Secure Enclave key with this name already exists"
  entry ←
      ok_or (find (is_key handle.encrypted_key) entries) "Secure Enclave key metadata was not found"
  updated ← build_ssh_key x (record entry { name = name })
  ok (rename_first handle.encrypted_key name entries, updated)

unfoldable pub rename :
    Encoding → Result (Unit {0}) → SshKey → String → Registry → Registry × Result SshKey
rename x write k name registry = commit write registry (renamed x k name registry)

abbrev pub is_other_key : Bytes → RegistryEntry → Bool
is_other_key encrypted_key entry = not (is_key encrypted_key entry)

abbrev pub deleted : Result (Unit {0}) → SshKey → Registry → Result (List RegistryEntry × Unit {0})
deleted authorized k registry = do
  _ ← authorized
  handle ← secure_enclave_of k
  entries ← read_registry registry
  if length (retain (is_other_key handle.encrypted_key) entries) == length entries
      then err "Secure Enclave key metadata was not found"
      else ok (retain (is_other_key handle.encrypted_key) entries, tt)

-- `authorized` is the answer of Touch ID.
unfoldable pub delete :
    Result (Unit {0}) → Result (Unit {0}) → SshKey → Registry → Registry × Result (Unit {0})
delete authorized write k registry = commit write registry (deleted authorized k registry)
