-- ===== src/Settings/Labels.antt =====
-- The names of security keys: src-tauri/src/settings.rs, from `apply_device_labels` on, and
-- `set_security_key_label` of src-tauri/src/ipc/commands.rs. The digest of SHA-256 as a text, the printing
-- of a number and `str::trim` are parameters.
pub mod Kept
use Prim.Native.String.{◌++◌ as concat}
use keynoxis.Base.{
  ℕ, ◌/◌, ◌%◌, ◌^◌, Bool, true, false, not, ◌||◌, List, [], ◌∷◌, ◌++◌, Option, none, some, String,
  if◌then◌else◌, ltb, ◌==◌, Nat_eq, String_eq, Result, ok, err, map_ok, Bytes, length, is_empty,
  any, find, map, chars, as_bytes, is_control, unwrap_or, or_else,
}
use keynoxis.State.{RuntimeState, AppState, DeviceInfo, device, info}
use keynoxis.Activity.{publish, record_activity}
use keynoxis.Agent.Wire.{u32_bytes}
use keynoxis.Settings.{Stored, missing, unreadable, stored, SecurityPolicy, default_policy}

-- A map from the identity of a device to its name.
abbrev pub Labels : Type 0
Labels = List (String × String)

abbrev pub get : String → Labels → Option String
get identity [] = none
get identity ((i, label) ∷ labels) = if i == identity then some label else get identity labels

abbrev pub without : String → Labels → Labels
without identity [] = []
without identity ((i, label) ∷ labels) =
    if i == identity then without identity labels else (i, label) ∷ without identity labels

abbrev pub insert : String → String → Labels → Labels
insert identity label labels = (identity, label) ∷ without identity labels

-- The file of the names, and the policy in the Keychain, which has them too.
pub record LabelStore : Type 0 where
  pub labels_file : Stored Labels
  pub policy_item : Stored SecurityPolicy

-- The answers of the system to the two writes.
pub record LabelWrites : Type 0 where
  pub file_write : Result (Unit {0})
  pub keychain_write : Result (Unit {0})

abbrev pub read_device_labels : Stored Labels → Result Labels
read_device_labels missing = ok []
read_device_labels (unreadable e) = err e
read_device_labels (stored labels) = ok labels

-- `labels.extend(policy.device_labels)`: the names of the policy go before those of the file.
abbrev pub extended : Labels → Stored SecurityPolicy → Labels
extended labels missing = labels
extended labels (unreadable e) = labels
extended labels (stored policy) = policy.device_labels ++ labels

abbrev u16_bytes : ℕ → Bytes
u16_bytes n = (n / 2 ^ 8 % 256) ∷ (n % 256) ∷ []

module _ (digest : Bytes → String) (to_string : ℕ → String) where
  abbrev place_of : DeviceInfo → Option ℕ → Bytes
  place_of d (some local_id) = u32_bytes local_id
  place_of d none = as_bytes d.path

  unfoldable pub fallback_device_identity : DeviceInfo → String
  fallback_device_identity d = concat "fallback:" (
      digest (
        u16_bytes d.vendor_id
        ++ (u16_bytes d.product_id ++ (as_bytes (unwrap_or d.aaguid "") ++ place_of d d.local_id))))

  abbrev identity_by : DeviceInfo → Option ℕ → String
  identity_by d (some serial) = concat "serial:" (to_string serial)
  identity_by d none = fallback_device_identity d

  unfoldable pub device_identity : DeviceInfo → String
  device_identity d = identity_by d d.serial_number

  abbrev pub label_in : Labels → DeviceInfo → Option String
  label_in labels d =
      or_else (get (device_identity d) labels) (get (fallback_device_identity d) labels)

  abbrev pub labelled : Labels → DeviceInfo → DeviceInfo
  labelled labels d = record d { label = label_in labels d }

  unfoldable pub apply_device_labels : LabelStore → List DeviceInfo → Result (List DeviceInfo)
  apply_device_labels store devices =
      map_ok (λ labels. map (labelled (extended labels store.policy_item)) devices)
        (read_device_labels store.labels_file)

-- The policy, where it can be read, gets the names; that the write fails is only said.
abbrev pub mirrored : Result (Unit {0}) → Labels → Stored SecurityPolicy → Stored SecurityPolicy
mirrored write labels (unreadable e) = unreadable e
mirrored (err e) labels item = item
mirrored (ok u) labels missing = stored (record default_policy { device_labels = labels })
mirrored (ok u) labels (stored policy) = stored (record policy { device_labels = labels })

abbrev pub after_write :
    LabelStore → LabelStore → Result (Unit {0}) → LabelStore × Result (Unit {0})
after_write store new (err e) = (store, err e)
after_write store new (ok u) = (new, ok tt)

abbrev pub written_labels : LabelWrites → LabelStore → Labels → LabelStore × Result (Unit {0})
written_labels w store labels =
    after_write store
      (record {
        labels_file = stored labels;
        policy_item = mirrored w.keychain_write labels store.policy_item;
      })
      w.file_write

abbrev pub relabelled : String → Option String → Labels → Result Labels
relabelled identity none labels = ok (without identity labels)
relabelled identity (some label) labels =
    if ltb 64 (length (as_bytes label)) || any is_control (chars label)
    then err "Device name must be 64 characters or fewer and contain no control characters"
    else ok (insert identity label labels)

abbrev pub commit_labels : LabelWrites → LabelStore → Result Labels → LabelStore × Result (Unit {0})
commit_labels w store (err e) = (store, err e)
commit_labels w store (ok labels) = written_labels w store labels

abbrev pub non_empty : String → Option String
non_empty label = if is_empty (chars label) then none else some label

abbrev pub trimmed : (String → String) → Option String → Option String
trimmed trim none = none
trimmed trim (some label) = non_empty (trim label)

abbrev pub change_labels :
    LabelWrites
    → LabelStore
    → String
    → Option String
    → Result Labels
    → LabelStore × Result (Unit {0})
change_labels w store identity label (err e) = (store, err e)
change_labels w store identity label (ok labels) =
    commit_labels w store (relabelled identity label labels)

module _ (digest : Bytes → String) (to_string : ℕ → String) (trim : String → String)
    (w : LabelWrites) where
  unfoldable pub set_device_label :
      LabelStore → DeviceInfo → Option String → LabelStore × Result (Unit {0})
  set_device_label store d label =
      change_labels w store (device_identity digest to_string d) (trimmed trim label)
        (read_device_labels store.labels_file)

  abbrev is_at : String → DeviceInfo → Bool
  is_at path d = d.path == path

  abbrev relabel : String → Option String → DeviceInfo → DeviceInfo
  relabel path label d = if is_at path d then record d { label = label } else d

  abbrev relabel_active : String → Option String → Option DeviceInfo → Option DeviceInfo
  relabel_active path label none = none
  relabel_active path label (some d) = some (relabel path label d)

  abbrev detail : DeviceInfo → Option String → String
  detail d none = unwrap_or d.product "FIDO2 security key"
  detail d (some label) = label

  abbrev title : Option String → String
  title none = "Security key name reset"
  title (some label) = "Security key renamed"

  abbrev label_done :
      ℕ
      → String
      → Option String
      → DeviceInfo
      → RuntimeState
      → LabelStore × Result (Unit {0})
      → LabelStore × (RuntimeState × Result AppState)
  label_done now path label d r (store, err e) = (store, (r, err e))
  label_done now path label d r (store, ok u) =
      let s = record r.app {
        devices = map (relabel path label) r.app.devices;
        active = relabel_active path label r.app.active;
      } in
      (
        store,
        (
          record_activity now device info (title label) (some (detail d label))
              (publish (record r { app = s })),
          ok s,
        ),
      )

  abbrev label_found :
      ℕ
      → String
      → String
      → LabelStore
      → RuntimeState
      → Option DeviceInfo
      → LabelStore × (RuntimeState × Result AppState)
  label_found now path label store r none =
      (store, (r, err "The security key is no longer connected"))
  label_found now path label store r (some d) =
      label_done now path (non_empty (trim label)) d r
        (set_device_label store d (non_empty (trim label)))

  unfoldable pub set_security_key_label :
      ℕ
      → String
      → String
      → LabelStore
      → RuntimeState
      → LabelStore × (RuntimeState × Result AppState)
  set_security_key_label now path label store r =
      label_found now path label store r (find (is_at path) r.app.devices)
