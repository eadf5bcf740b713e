-- ===== src/Agent/Integration/Install/Untouched.antt =====
-- The files that src-tauri/src/agent/integration.rs leaves alone, whatever the system refuses.
use keynoxis.Base.{
  ℕ, Bool, true, false, [], if◌then◌else◌, ◌==◌, Nat_eq, List_eq, Option_eq, Option, none, some,
  String, Result, ok, err, ◌≡◌, refl, ◌∙◌,
}
use keynoxis.Agent.Integration.{Text, migrated_config, first_line, legacy_header}
use keynoxis.Agent.Files.{
  Directory, File, lookup, remove, put, private_mode, Refusal, set_permissions, with_mode, moved_to,
  try_set_permissions, call, write, rename, lookup-put, lookup-remove,
}
use keynoxis.Agent.Integration.Install.{
  Contents, missing, readable, unreadable, read_to_string, System, after, temporary_path,
  integration_text, atomic_write, remove_managed, remove_legacy_integration, update_config, migrate,
  install,
}
use keynoxis.Agent.Integration.Install.Installed.{integration_path, config_path, legacy_path}

pub call-kept {ℓ} :
    {A : Type ℓ} {o : Option File} (path : Text) (text : String → String) (r : Refusal)
    (before then_ : Directory) (next : Directory → Directory × Result A)
    → lookup path before ≡ o
    → lookup path (next then_).0 ≡ o
    → lookup path (call text r before then_ next).0 ≡ o
call-kept path text none before then_ next h k = k
call-kept path text (some e) before then_ next h k = h

module _ (path : Text) where
  pub put-kept :
      (other : Text) (f : File) (files : Directory)
      → (other == path) ≡ false
      → lookup path (put other f files) ≡ lookup path files
  put-kept other f files h = lookup-put path other f files ∙ rw h refl

  pub remove-kept :
      (other : Text) (files : Directory)
      → (other == path) ≡ false
      → lookup path (remove other files) ≡ lookup path files
  remove-kept other files h = lookup-remove path other files ∙ rw h refl

  with_mode-kept :
      (other : Text) (mode : ℕ) (o : Option File) (files : Directory)
      → (other == path) ≡ false
      → lookup path (with_mode other mode o files) ≡ lookup path files
  with_mode-kept other mode none files h = refl
  with_mode-kept other mode (some f) files h = put-kept other _ files h

  pub try_set_permissions-kept :
      (r : Refusal) (other : Text) (mode : ℕ) (files : Directory)
      → (other == path) ≡ false
      → lookup path (try_set_permissions r other mode files) ≡ lookup path files
  try_set_permissions-kept none other mode files h = with_mode-kept other mode _ files h
  try_set_permissions-kept (some e) other mode files h = refl

  moved_to-kept :
      (from other : Text) (o : Option File) (files : Directory)
      → (from == path) ≡ false
      → (other == path) ≡ false
      → lookup path (moved_to from other o files) ≡ lookup path files
  moved_to-kept from other none files h k = refl
  moved_to-kept from other (some f) files h k =
      put-kept other f (remove from files) k ∙ remove-kept from files h

  after-kept {ℓ κ} :
      {A : Type ℓ} {B : Type κ} {o : Option File} (p : Directory × Result A)
      (next : Directory → Directory × Result B)
      → lookup path p.0 ≡ o
      → ((files : Directory) → lookup path files ≡ o → lookup path (next files).0 ≡ o)
      → lookup path (after p next).0 ≡ o
  after-kept (files, ok a) next h k = k files h
  after-kept (files, err e) next h k = h

  if-kept {ℓ} :
      {A : Type ℓ} {o : Option File} (b : Bool) (x y : Directory × A)
      → lookup path x.0 ≡ o
      → lookup path y.0 ≡ o
      → lookup path (if b then x else y).0 ≡ o
  if-kept true x y h k = h
  if-kept false x y h k = k

  module _ (v : System) where
    atomic_write-kept :
        (other value : Text) (files : Directory)
        → (other == path) ≡ false
        → (temporary_path other == path) ≡ false
        → lookup path (atomic_write v other value files).0 ≡ lookup path files
    unfolding atomic_write
    atomic_write-kept other value files h k =
        let t = temporary_path other in
        let files1 = write v.default_mode t value files in
        let files2 = set_permissions t private_mode files1 in
        let k1 = put-kept t _ files k in
        let k2 = with_mode-kept t private_mode (lookup t files1) files1 k ∙ k1 in
        call-kept path _ v.write_temporary files files1 _ refl (
          call-kept path _ v.secure_temporary files1 files2 _ k1 (
            call-kept path _ v.rename_temporary files2 (rename t other files2) _ k2
              (moved_to-kept t other (lookup t files2) files2 k h ∙ k2)))

    update_config-kept :
        (other existing : Text) (files : Directory)
        → (other == path) ≡ false
        → (temporary_path other == path) ≡ false
        → lookup path (update_config v other existing files).0 ≡ lookup path files
    update_config-kept other existing files h k =
        if-kept (migrated_config existing == existing) _ _ refl
          (atomic_write-kept other (migrated_config existing) files h k)

    migrate-kept :
        (other : Text) (c : Contents) (files : Directory)
        → (other == path) ≡ false
        → (temporary_path other == path) ≡ false
        → lookup path (migrate v other c files).0 ≡ lookup path files
    migrate-kept other missing files h k = update_config-kept other [] files h k
    migrate-kept other (readable t) files h k = update_config-kept other t files h k
    migrate-kept other (unreadable e) files h k = refl

    remove_managed-kept :
        (other : Text) (c : Contents) (files : Directory)
        → (other == path) ≡ false
        → lookup path (remove_managed v other c files).0 ≡ lookup path files
    remove_managed-kept other missing files h = refl
    remove_managed-kept other (unreadable e) files h = refl
    remove_managed-kept other (readable t) files h =
        if-kept (first_line t == some legacy_header) _ _
          (call-kept path _ v.remove_legacy files (remove other files) _ refl
            (remove-kept other files h))
          refl

    -- A file other than the four stays as it is, with its mode and its socket.
    pub install-kept :
        (home socket : Text) (files : Directory)
        → (integration_path home == path) ≡ false
        → (config_path home == path) ≡ false
        → (legacy_path home == path) ≡ false
        → (temporary_path (config_path home) == path) ≡ false
        → lookup path (install v home socket files).0 ≡ lookup path files
    unfolding install remove_legacy_integration
    install-kept home socket files i c l t =
        let p = integration_path home in
        let files1 = write v.default_mode p (integration_text socket) files in
        let files2 = try_set_permissions v.secure_integration p private_mode files1 in
        let k2 =
          try_set_permissions-kept v.secure_integration p private_mode files1 i
          ∙ put-kept p _ files i in
        call-kept path _ v.write_integration files files1 _ refl (
          after-kept
            (migrate v (config_path home) (read_to_string v.read_config (config_path home) files2)
              files2)
            _
            (migrate-kept (config_path home)
                (read_to_string v.read_config (config_path home) files2) files2 c t
              ∙ k2)
            λ files3 k3.
              remove_managed-kept (legacy_path home)
                (read_to_string v.read_legacy (legacy_path home)
                  (try_set_permissions v.secure_config (config_path home) private_mode files3))
                _ l
              ∙ (try_set_permissions-kept v.secure_config (config_path home) private_mode files3 c
                  ∙ k3))
