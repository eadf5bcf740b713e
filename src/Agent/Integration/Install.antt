-- ===== src/Agent/Integration/Install.antt =====
-- src-tauri/src/agent/integration.rs on the files of the user's SSH directory.
pub mod Texts
pub mod Calls
pub mod Installed
pub mod Untouched
use Prim.Native.String.{◌++◌ as concat}
use keynoxis.Base.{
  ℕ, Bool, true, false, List, [], ◌∷◌, ◌++◌, if◌then◌else◌, ◌==◌, Nat_eq, List_eq, Option_eq,
  Option, none, some, String, Result, ok, err, chars,
}
use keynoxis.Agent.Integration.{Text, migrated_config, shell_quote, first_line, legacy_header}
use keynoxis.Agent.Files.{
  Directory, File, lookup, remove, put, join, private_mode, Refusal, set_permissions,
  try_set_permissions, call, write, rename,
}

-- What `fs::read_to_string` gives.
pub data Contents : Type 0 where
  missing : Contents
  readable : Text → Contents
  unreadable : String → Contents

abbrev pub contents_of : Option File → Contents
contents_of none = missing
contents_of (some f) = readable f.contents

abbrev pub read_to_string : Refusal → Text → Directory → Contents
read_to_string none path files = contents_of (lookup path files)
read_to_string (some e) path files = unreadable e

-- The system's refusals, of each call in turn, and the mode of a new file.
pub record System : Type 0 where
  pub write_integration : Refusal
  pub secure_integration : Refusal
  pub read_config : Refusal
  pub write_temporary : Refusal
  pub secure_temporary : Refusal
  pub rename_temporary : Refusal
  pub secure_config : Refusal
  pub read_legacy : Refusal
  pub remove_legacy : Refusal
  pub default_mode : ℕ

abbrev pub after {ℓ κ} :
    {A : Type ℓ} {B : Type κ}
    → Directory × Result A
    → (Directory → Directory × Result B)
    → Directory × Result B
after (files, ok a) next = next files
after (files, err e) next = (files, err e)

abbrev pub temporary_path : Text → Text
temporary_path path = path ++ chars ".keynoxis.tmp"

abbrev pub integration_text : Text → Text
integration_text socket =
    chars "# Managed by Keynoxis.\nHost *\n    IdentityAgent " ++ (shell_quote socket ++ (10 ∷ []))

module _ (v : System) where
  unfoldable pub atomic_write : Text → Text → Directory → Directory × Result (Unit {0})
  atomic_write path value files =
      let temporary = temporary_path path in
      call (concat "Could not update SSH config: ") v.write_temporary files
        (write v.default_mode temporary value files)
        λ files1.
          call (concat "Could not secure SSH config: ") v.secure_temporary files1
            (set_permissions temporary private_mode files1)
            λ files2.
              call (concat "Could not install SSH config: ") v.rename_temporary files2
                (rename temporary path files2) λ files3. (files3, ok tt)

  abbrev pub remove_managed : Text → Contents → Directory → Directory × Result (Unit {0})
  remove_managed legacy missing files = (files, ok tt)
  remove_managed legacy (unreadable e) files =
      (files, err (concat "Could not inspect legacy YubiAgent integration: " e))
  remove_managed legacy (readable contents) files =
      if first_line contents == some legacy_header
      then call (concat "Could not remove legacy YubiAgent integration: ") v.remove_legacy files
          (remove legacy files) (λ files1. (files1, ok tt))
      else (files, ok tt)

  unfoldable pub remove_legacy_integration : Text → Directory → Directory × Result (Unit {0})
  remove_legacy_integration ssh files =
      let legacy = join ssh (chars "yubiagent.conf") in
      remove_managed legacy (read_to_string v.read_legacy legacy files) files

  -- With the text of the configuration.
  abbrev pub update_config : Text → Text → Directory → Directory × Result (Unit {0})
  update_config config existing files =
      let updated = migrated_config existing in
      if updated == existing then (files, ok tt) else atomic_write config updated files

  abbrev pub migrate : Text → Contents → Directory → Directory × Result (Unit {0})
  migrate config missing files = update_config config [] files
  migrate config (readable existing) files = update_config config existing files
  migrate config (unreadable e) files = (files, err (concat "Could not read ~/.ssh/config: " e))

  unfoldable pub install : Text → Text → Directory → Directory × Result (Unit {0})
  install home socket files =
      let ssh = join home (chars ".ssh") in
      let integration = join ssh (chars "keynoxis.conf") in
      let config = join ssh (chars "config") in
      call (concat "Could not write Keynoxis SSH integration: ") v.write_integration files
        (write v.default_mode integration (integration_text socket) files)
        λ files1.
          let files2 = try_set_permissions v.secure_integration integration private_mode files1 in
          after (migrate config (read_to_string v.read_config config files2) files2) λ files3.
            remove_legacy_integration ssh
              (try_set_permissions v.secure_config config private_mode files3)
