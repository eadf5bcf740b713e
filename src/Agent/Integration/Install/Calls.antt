-- ===== src/Agent/Integration/Install/Calls.antt =====
-- The texts of the files after each part of src-tauri/src/agent/integration.rs that returns without an
-- error.
use Prim.Native.String.{◌++◌ as concat}
use keynoxis.Base.{
  ℕ, Bool, true, false, [], if◌then◌else◌, ◌==◌, Nat_eq, List_eq, Option_eq, Option, none, some,
  unwrap_or, String, Result, ok, err, ◌≡◌, refl, ap, ◌∙◌, sym, eq_self, list_eq_iff,
}
use keynoxis.Agent.Integration.{Text, migrated_config, include_line, first_line, legacy_header}
use keynoxis.Agent.Files.{
  Directory, File, lookup, remove, private_mode, Refusal, set_permissions, try_set_permissions,
  call, write, rename,
}
use keynoxis.Agent.Integration.Install.{
  contents_of, read_to_string, System, after, temporary_path, atomic_write, remove_managed,
  update_config, migrate,
}
use keynoxis.Agent.Integration.Install.Texts.{
  text_of, text_at, or_if, text_at-put, text_at-remove, text_at-set_permissions, text_at-rename,
}

pub call-ok {ℓ} :
    {A : Type ℓ} (text : String → String) (r : Refusal) (before then_ : Directory)
    (next : Directory → Directory × Result A) {files : Directory} {a : A}
    → call text r before then_ next ≡ (files, ok a)
    → next then_ ≡ (files, ok a)
call-ok text none before then_ next h = h
call-ok text (some e) before then_ next h = cc

pub after-ok {ℓ κ} :
    {A : Type ℓ} {B : Type κ} (p : Directory × Result A) (next : Directory → Directory × Result B)
    {files : Directory} {b : B}
    → after p next ≡ (files, ok b)
    → (middle : Directory) × (a : A) × (p ≡ (middle, ok a)) × (next middle ≡ (files, ok b))
after-ok (middle, ok a) next h = (middle, a, refl, h)
after-ok (middle, err e) next h = cc

-- The program's predecessor left nothing.
abbrev pub unmanaged : Option Text → Option Text
unmanaged none = none
unmanaged (some t) = if first_line t == some legacy_header then none else some t

pub text_at-try_set_permissions :
    (r : Refusal) (path other : Text) (mode : ℕ) (files : Directory)
    → text_at path (try_set_permissions r other mode files) ≡ text_at path files
text_at-try_set_permissions none path other mode files =
    text_at-set_permissions path other mode files
text_at-try_set_permissions (some e) path other mode files = refl

-- A path that is the same path has the same text.
text_at-same :
    (other path : Text) (files : Directory) (b : Bool)
    → (other == path) ≡ b
    → text_at path files ≡ or_if b (text_at other files) (text_at path files)
text_at-same other path files true h =
    ap (λ p. text_at p files) (sym ((list_eq_iff other path).0 h))
text_at-same other path files false h = refl

module _ (v : System) where
  -- The temporary file, private and with its text.
  abbrev prepared : Text → Text → Directory → Directory
  prepared temporary value files =
      set_permissions temporary private_mode (write v.default_mode temporary value files)

  prepared-text_at :
      (temporary value path : Text) (files : Directory)
      → text_at path (prepared temporary value files)
        ≡ or_if (temporary == path) (some value) (text_at path files)
  prepared-text_at temporary value path files =
      text_at-set_permissions path temporary private_mode
        (write v.default_mode temporary value files)
      ∙ text_at-put path temporary _ files

  atomic_write-text_at :
      (config value path : Text) (files files' : Directory)
      → atomic_write v config value files ≡ (files', ok tt)
      → (temporary_path config == path) ≡ false
      → text_at path files' ≡ or_if (config == path) (some value) (text_at path files)
  unfolding atomic_write
  atomic_write-text_at config value path files files' h k =
      let temporary = temporary_path config in
      let files1 = write v.default_mode temporary value files in
      let files2 = prepared temporary value files in
      let h1 = call-ok _ v.write_temporary files files1 _ h in
      let h2 = call-ok _ v.secure_temporary files1 files2 _ h1 in
      let h3 = call-ok _ v.rename_temporary files2 (rename temporary config files2) _ h2 in
      let written =
        prepared-text_at temporary value temporary files ∙ rw (eq_self temporary) refl in
      ap (λ p. text_at path p.0) (sym h3)
      ∙ (text_at-rename path temporary config files2 written
          ∙ ap (or_if (config == path) (some value))
              (rw k (prepared-text_at temporary value path files ∙ rw k refl)))

  pub update_config-text_at :
      (config existing path : Text) (files files' : Directory)
      → text_at config files ≡ some existing
      → update_config v config existing files ≡ (files', ok tt)
      → (temporary_path config == path) ≡ false
      → text_at path files'
        ≡ or_if (config == path) (some (migrated_config existing)) (text_at path files)
  update_config-text_at config existing path files files' t h k =
      updated (migrated_config existing == existing) refl h
    where
      updated :
          (b : Bool)
          → (migrated_config existing == existing) ≡ b
          → (if b then (files, ok tt) else atomic_write v config (migrated_config existing) files)
            ≡ (files', ok tt)
          → text_at path files'
            ≡ or_if (config == path) (some (migrated_config existing)) (text_at path files)
      updated true e g =
          ap (λ p. text_at path p.0) (sym g)
          ∙ (text_at-same config path files (config == path) refl
              ∙ ap (λ o. or_if (config == path) o (text_at path files))
                  (t ∙ ap some (sym ((list_eq_iff (migrated_config existing) existing).0 e))))
      updated false e g =
          atomic_write-text_at config (migrated_config existing) path files files' g k

  update_config-new :
      (config : Text) (files : Directory)
      → update_config v config [] files ≡ atomic_write v config (migrated_config []) files
  unfolding migrated_config include_line
  update_config-new config files = refl

  pub migrate-text_at :
      (config path : Text) (files files' : Directory)
      → migrate v config (read_to_string v.read_config config files) files ≡ (files', ok tt)
      → (temporary_path config == path) ≡ false
      → text_at path files'
        ≡ or_if
            (config == path)
            (some (migrated_config (unwrap_or (text_at config files) [])))
            (text_at path files)
  migrate-text_at config path files files' h k = from_read v.read_config h
    where
      from_file :
          (o : Option File)
          → lookup config files ≡ o
          → migrate v config (contents_of o) files ≡ (files', ok tt)
          → text_at path files'
            ≡ or_if
                (config == path)
                (some (migrated_config (unwrap_or (text_of o) [])))
                (text_at path files)
      from_file (some f) e g =
          update_config-text_at config f.contents path files files' (ap text_of e) g k
      from_file none e g =
          atomic_write-text_at config (migrated_config []) path files files'
            (sym (update_config-new config files) ∙ g) k

      from_read :
          (r : Refusal)
          → migrate v config (read_to_string r config files) files ≡ (files', ok tt)
          → text_at path files'
            ≡ or_if
                (config == path)
                (some (migrated_config (unwrap_or (text_at config files) [])))
                (text_at path files)
      from_read none g = from_file (lookup config files) refl g
      from_read (some e) g = cc

  removed-text_at :
      (legacy path : Text) (f : File) (files files' : Directory) (b : Bool)
      → text_at legacy files ≡ some f.contents
      → (if b
          then call
              (concat "Could not remove legacy YubiAgent integration: ")
              v.remove_legacy
              files
              (remove legacy files)
              (λ files1. (files1, ok (tt {0})))
          else (files, ok (tt {0})))
        ≡ (files', ok (tt {0}))
      → text_at path files'
        ≡ or_if (legacy == path) (if b then none else some f.contents) (text_at path files)
  removed-text_at legacy path f files files' true t g =
      ap (λ p. text_at path p.0)
        (sym (
          call-ok _ v.remove_legacy files (remove legacy files) (λ files1. (files1, ok (tt {0})))
            g))
      ∙ text_at-remove path legacy files
  removed-text_at legacy path f files files' false t g =
      ap (λ p. text_at path p.0) (sym g)
      ∙ (text_at-same legacy path files (legacy == path) refl
          ∙ ap (λ o. or_if (legacy == path) o (text_at path files)) t)

  pub remove_managed-text_at :
      (legacy path : Text) (files files' : Directory)
      → remove_managed v legacy (read_to_string v.read_legacy legacy files) files
        ≡ (files', ok (tt {0}))
      → text_at path files'
        ≡ or_if (legacy == path) (unmanaged (text_at legacy files)) (text_at path files)
  remove_managed-text_at legacy path files files' h = from_read v.read_legacy h
    where
      from_file :
          (o : Option File)
          → lookup legacy files ≡ o
          → remove_managed v legacy (contents_of o) files ≡ (files', ok (tt {0}))
          → text_at path files'
            ≡ or_if (legacy == path) (unmanaged (text_of o)) (text_at path files)
      from_file (some f) e g = removed-text_at legacy path f files files' _ (ap text_of e) g
      from_file none e g =
          ap (λ p. text_at path p.0) (sym g)
          ∙ (text_at-same legacy path files (legacy == path) refl
              ∙ ap (λ o. or_if (legacy == path) o (text_at path files)) (ap text_of e))

      from_read :
          (r : Refusal)
          → remove_managed v legacy (read_to_string r legacy files) files ≡ (files', ok (tt {0}))
          → text_at path files'
            ≡ or_if (legacy == path) (unmanaged (text_at legacy files)) (text_at path files)
      from_read none g = from_file (lookup legacy files) refl g
      from_read (some e) g = cc
