-- ===== src/Ipc/Operation.antt =====
-- src-tauri/src/ipc/commands.rs: `perform_fido_operation`, which unlocks a security key and creates,
-- deletes or renames a key on it. It is split where it leaves the state lock: the begin, the calls
-- of the device, and the end. The operations of src-tauri/src/fido on the device are
-- a record, which Ipc/Operation/Hardware fills.
pub mod Finish
pub mod Hardware
pub mod Sequence
pub mod Unlocked
pub mod Asked
use keynoxis.Base.{
  Bool, true, false, ◌||◌, ◌&&◌, List, [], ◌∷◌, Option, none, some, String, if◌then◌else◌, ◌==◌,
  String_eq, Result, ok, err, is_some, unwrap_or, find, Bytes, as_bytes,
}
use keynoxis.State.{
  RuntimeState, AppState, SshKey, fido2, Backend_eq, DeviceInfo, PendingKeyRename, loading,
  waiting_for_touch, show_auth, DeviceCall, create_resident, load_resident, delete_credential,
  rename_credential, sign_assertion,
}
use keynoxis.Activity.{publish, tell}
use keynoxis.Provider.{get_pin}
use keynoxis.Fido.Credentials.{ed25519_sk, validate_pin}

-- What an operation does, as the state said when it began.
pub record Operation : Type 0 where
  pub path : String
  pub creation : Option String
  pub algorithm : String
  pub deletion : Option SshKey
  pub renaming : Option (SshKey × String)

infixl 5 ◌>>=◌
abbrev ◌>>=◌ : {A B : Type 0} → Result A → (A → Result B) → Result B
ok a >>= f = f a
err e >>= f = err e

abbrev is_fido2_key : String → SshKey → Bool
is_fido2_key fingerprint k = k.fingerprint == fingerprint && k.backend == fido2

abbrev found_or : String → Option SshKey → Result (Option SshKey)
found_or e none = err e
found_or e (some k) = ok (some k)

abbrev deletion_of : AppState → Option String → Result (Option SshKey)
deletion_of s none = ok none
deletion_of s (some fingerprint) =
    found_or "The FIDO2 SSH key selected for deletion was not found"
      (find (is_fido2_key fingerprint) s.keys)

abbrev renamed_or : String → Option SshKey → Result (Option (SshKey × String))
renamed_or name none = err "The FIDO2 SSH key selected for rename was not found"
renamed_or name (some k) = ok (some (k, name))

abbrev renaming_of : AppState → Option PendingKeyRename → Result (Option (SshKey × String))
renaming_of s none = ok none
renaming_of s (some p) = renamed_or p.name (find (is_fido2_key p.fingerprint) s.keys)

abbrev active_path : AppState → Result String
active_path s = elim s.active [ none ↦ err "YubiKey was removed" | some d ↦ ok d.path ]

unfoldable pub operation_of : AppState → Result Operation
operation_of s = do
  path ← active_path s
  deleting ← deletion_of s s.pending_key_deletion
  renaming ← renaming_of s s.pending_key_rename
  ok (record {
    path = path;
    creation = s.pending_key_creation;
    algorithm = unwrap_or s.pending_key_algorithm ed25519_sk;
    deletion = deleting;
    renaming = renaming;
  })

abbrev needs_touch : Operation → Bool
needs_touch o = is_some o.creation || is_some o.deletion

abbrev pub begun : RuntimeState → Result Operation → RuntimeState × Result Operation
begun r (err e) = (r, err e)
begun r (ok o) =
    let shown = publish (record r {
      app = record r.app {
        phase = if needs_touch o then waiting_for_touch else loading;
        last_error = none;
      };
    }) in
    (if needs_touch o then tell show_auth shown else shown, ok o)

unfoldable pub begin_operation : RuntimeState → RuntimeState × Result Operation
begin_operation r = begun r (operation_of r.app)

-- The answers of a security key: to the creation (path, name, PIN, algorithm), the confirmation of
-- a deletion and the deletion, the renaming, and the keys that it holds.
pub record FidoDevice : Type 0 where
  pub create : String → String → String → String → Result (Unit {0})
  pub confirm : String → SshKey → Bytes → String → Result (Unit {0})
  pub delete : String → SshKey → String → Result (Unit {0})
  pub rename : String → SshKey → String → String → Result (Unit {0})
  pub resident : String → String → Result (List SshKey)

-- The calls made so far, newest first, and what they gave.
abbrev pub Calls : Type 0 → Type 0
Calls A = List DeviceCall × Result A

abbrev pub then_call : {A : Type 0} → Calls (Unit {0}) → DeviceCall → Result A → Calls A
then_call (calls, ok _) c answer = (c ∷ calls, answer)
then_call (calls, err e) c answer = (calls, err e)

abbrev pub confirmation : String
confirmation = "Keynoxis resident credential deletion confirmation"

module _ (d : FidoDevice) where
  abbrev pub run_creation : Operation → Option String → String → Calls (Unit {0}) → Calls (Unit {0})
  run_creation o none pin c = c
  run_creation o (some name) pin c =
      then_call c (create_resident o.path) (d.create o.path name pin o.algorithm)

  abbrev pub run_deletion : Operation → Option SshKey → String → Calls (Unit {0}) → Calls (Unit {0})
  run_deletion o none pin c = c
  run_deletion o (some k) pin c =
      then_call
        (then_call c (sign_assertion o.path k) (d.confirm o.path k (as_bytes confirmation) pin))
        (delete_credential o.path k) (d.delete o.path k pin)

  abbrev pub run_rename :
      Operation → Option (SshKey × String) → String → Calls (Unit {0}) → Calls (Unit {0})
  run_rename o none pin c = c
  run_rename o (some (k, name)) pin c =
      then_call c (rename_credential o.path k) (d.rename o.path k name pin)

  -- The blocking task.
  unfoldable pub run_operation : Operation → String → Calls (List SshKey)
  run_operation o pin =
      then_call
        (run_rename o o.renaming pin
          (run_deletion o o.deletion pin (run_creation o o.creation pin ([], ok tt))))
        (load_resident o.path) (d.resident o.path pin)
