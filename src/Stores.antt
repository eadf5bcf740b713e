-- ===== src/Stores.antt =====
-- The files of the data directory, each written by way of a temporary file: `persist` of
-- src-tauri/src/activity.rs, `write` of src-tauri/src/key_preferences.rs, `save_public` and
-- `write_device_labels` of src-tauri/src/settings.rs, `write_registry` of src-tauri/src/secure_enclave.rs, and
-- the functions that read them. JSON is a parameter: an encoding and a decoding of the values.
pub mod Atomic
use Prim.Native.String.{◌++◌ as concat}
use keynoxis.Base.{ℕ, List, ◌++◌, Option, none, some, String, Result, ok, err, chars, Bytes}
use keynoxis.Settings.{Stored, missing, unreadable, stored}
use keynoxis.Agent.Files.{
  Directory, File, lookup, join, private_mode, Refusal, write, rename, set_permissions, call,
}

-- What the files differ in: the name, and the texts that go before the system's errors.
pub record DataFile : Type 0 where
  pub name : String
  pub located : String
  pub created : String
  pub encoded : String
  pub saved : String
  pub secured : String
  pub committed : String
  pub invalid : String
  pub unread : String

-- The system: the data directory, and the refusal of each call; a write of the temporary file that
-- is refused leaves some content there.
pub record System : Type 0 where
  pub data_directory : Result Bytes
  pub create_directory : Refusal
  pub write_temporary : Option (String × Bytes)
  pub secure_temporary : Refusal
  pub rename_temporary : Refusal
  pub read : Refusal
  pub default_mode : ℕ

abbrev pub path_in : Bytes → DataFile → Bytes
path_in directory f = join directory (chars f.name)

-- `with_extension("json.tmp")` on a name that ends in `.json`.
abbrev pub temporary_in : Bytes → DataFile → Bytes
temporary_in directory f = join directory (chars f.name ++ chars ".tmp")

module _ (v : System) (f : DataFile) where
  abbrev pub finish_write : Bytes → Directory → Directory × Result (Unit {0})
  finish_write directory files =
      let temporary = temporary_in directory f in
      call (concat f.secured) v.secure_temporary files
        (set_permissions temporary private_mode files)
        λ files1.
          call (concat f.committed) v.rename_temporary files1
            (rename temporary (path_in directory f) files1) λ files2. (files2, ok tt)

  abbrev pub write_data :
      Bytes → Option (String × Bytes) → Bytes → Directory → Directory × Result (Unit {0})
  write_data directory (some (e, left)) bytes files =
      (write v.default_mode (temporary_in directory f) left files, err (concat f.saved e))
  write_data directory none bytes files =
      finish_write directory (write v.default_mode (temporary_in directory f) bytes files)

  abbrev pub encode_data : Bytes → Result Bytes → Directory → Directory × Result (Unit {0})
  encode_data directory (err e) files = (files, err (concat f.encoded e))
  encode_data directory (ok bytes) files = write_data directory v.write_temporary bytes files

  abbrev pub commit_in : Result Bytes → Result Bytes → Directory → Directory × Result (Unit {0})
  commit_in (err e) bytes files = (files, err (concat f.located e))
  commit_in (ok directory) bytes files =
      call (concat f.created) v.create_directory files files (encode_data directory bytes)

  -- With the encoded value, or why it has none.
  unfoldable pub commit_file : Result Bytes → Directory → Directory × Result (Unit {0})
  commit_file bytes files = commit_in v.data_directory bytes files

module _ {A : Type 0} (decode : Bytes → Result A) (f : DataFile) where
  abbrev pub decoded : Result A → Stored A
  decoded (ok a) = stored a
  decoded (err e) = unreadable (concat f.invalid e)

  abbrev pub stored_file : Option File → Stored A
  stored_file none = missing
  stored_file (some file) = decoded (decode file.contents)

  -- What the file holds.
  abbrev pub stored_in : Bytes → Directory → Stored A
  stored_in directory files = stored_file (lookup (path_in directory f) files)

  abbrev value_or : A → Stored A → Result A
  value_or default missing = ok default
  value_or default (unreadable e) = err e
  value_or default (stored a) = ok a

  abbrev read_call : Refusal → A → Stored A → Result A
  read_call (some e) default s = err (concat f.unread e)
  read_call none default s = value_or default s

  abbrev read_in : Result Bytes → Refusal → A → Directory → Result A
  read_in (err e) refused default files = err (concat f.located e)
  read_in (ok directory) refused default files =
      read_call refused default (stored_in directory files)

  -- A file that is missing holds the default.
  unfoldable pub read_file : System → A → Directory → Result A
  read_file v default files = read_in v.data_directory v.read default files

abbrev pub settings_file : DataFile
settings_file = record {
  name = "settings.json";
  located = "Could not locate Keynoxis data directory: ";
  created = "Could not create Keynoxis data directory: ";
  encoded = "Could not encode settings: ";
  saved = "Could not save settings: ";
  secured = "Could not secure settings file: ";
  committed = "Could not commit settings: ";
  invalid = "Keynoxis settings are invalid: ";
  unread = "Could not read Keynoxis settings: ";
}

abbrev pub labels_file : DataFile
labels_file = record {
  name = "device-labels.json";
  located = "Could not locate Keynoxis data directory: ";
  created = "Could not create Keynoxis data directory: ";
  encoded = "Could not encode security key names: ";
  saved = "Could not save security key names: ";
  secured = "Could not secure security key names: ";
  committed = "Could not commit security key names: ";
  invalid = "Security key names are invalid: ";
  unread = "Could not read security key names: ";
}

abbrev pub activity_file : DataFile
activity_file = record {
  name = "activity.json";
  located = "Could not resolve activity directory: ";
  created = "Could not create activity directory: ";
  encoded = "Could not encode activity log: ";
  saved = "Could not save activity log: ";
  secured = "Could not secure activity log: ";
  committed = "Could not commit activity log: ";
  invalid = "Activity log is invalid: ";
  unread = "Could not read activity log: ";
}

abbrev pub preferences_file : DataFile
preferences_file = record {
  name = "key-preferences.json";
  located = "Could not resolve key preferences directory: ";
  created = "Could not create key preferences directory: ";
  encoded = "Could not encode key preferences: ";
  saved = "Could not save key preferences: ";
  secured = "Could not secure key preferences: ";
  committed = "Could not commit key preferences: ";
  invalid = "Key preferences are invalid: ";
  unread = "Could not read key preferences: ";
}

abbrev pub registry_file : DataFile
registry_file = record {
  name = "secure-enclave-keys.json";
  located = "Could not locate Keynoxis data directory: ";
  created = "Could not create Keynoxis data directory: ";
  encoded = "Could not encode Secure Enclave metadata: ";
  saved = "Could not save Secure Enclave metadata: ";
  secured = "Could not secure Secure Enclave metadata: ";
  committed = "Could not commit Secure Enclave metadata: ";
  invalid = "Secure Enclave key metadata is invalid: ";
  unread = "Could not read Secure Enclave key metadata: ";
}
