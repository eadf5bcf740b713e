-- ===== src/Agent/Integration/Install/Installed.antt =====
-- What src-tauri/src/agent/integration.rs has done to the files when it returns without an error.
use keynoxis.Base.{
  Bool, true, false, ◌||◌, [], ◌==◌, Nat_eq, List_eq, Option_eq, Option, some, unwrap_or, ok, chars,
  ◌≡◌, refl, arith, ap, ◌∙◌, eq_self,
}
use keynoxis.Agent.Integration.{Text, migrated_config}
use keynoxis.Agent.Files.{Directory, join, private_mode, try_set_permissions, write}
use keynoxis.Agent.Integration.Install.{
  read_to_string, System, temporary_path, integration_text, remove_legacy_integration, migrate,
  install,
}
use keynoxis.Agent.Integration.Install.Texts.{
  text_at, or_if, text_at-put, join-differs, join-append,
}
use keynoxis.Agent.Integration.Install.Calls.{
  unmanaged, call-ok, after-ok, text_at-try_set_permissions, migrate-text_at,
  remove_managed-text_at,
}

abbrev pub integration_path : Text → Text
integration_path home = join (join home (chars ".ssh")) (chars "keynoxis.conf")

abbrev pub config_path : Text → Text
config_path home = join (join home (chars ".ssh")) (chars "config")

abbrev pub legacy_path : Text → Text
legacy_path home = join (join home (chars ".ssh")) (chars "yubiagent.conf")

module _ (i c l t : Text) where
  -- The program's file has the quoted socket, the configuration is migrated, what the predecessor left
  -- is gone, and every other file but the temporary one has the text that it had.
  pub record Installed (socket : Text) (files files' : Directory) : Type 0 where
    pub written : text_at (i) files' ≡ some (integration_text socket)
    pub migrated : text_at (c) files' ≡ some (migrated_config (unwrap_or (text_at (c) files) []))
    pub unmanaged_legacy : text_at (l) files' ≡ unmanaged (text_at (l) files)
    pub others :
        (path : Text)
        → text_at path files'
          ≡ or_if
              (i == path || c == path || l == path || t == path)
              (text_at path files')
              (text_at path files)

abbrev pub IsInstalled : Text → Text → Directory → Directory → Type 0
IsInstalled home socket =
    Installed (integration_path home) (config_path home) (legacy_path home)
      (temporary_path (config_path home)) socket

same_unless : (b : Bool) (o p : Option Text) → (b ≡ false → o ≡ p) → o ≡ or_if b o p
same_unless true o p f = refl
same_unless false o p f = f refl

-- From what each of the three parts does.
module _ (i c l t socket : Text) (files files2 files3 files' : Directory) (ci : (c == i) ≡ false)
    (ic : (i == c) ≡ false) (li : (l == i) ≡ false) (lc : (l == c) ≡ false) (cl : (c == l) ≡ false)
    (il : (i == l) ≡ false) (ti : (t == i) ≡ false) (tc : (t == c) ≡ false) (tl : (t == l) ≡ false)
    (s1 : (p : Text)
      → text_at p files2 ≡ or_if (i == p) (some (integration_text socket)) (text_at p files))
    (s2 : (p : Text)
      → (t == p) ≡ false
      → text_at p files3
        ≡ or_if
            (c == p)
            (some (migrated_config (unwrap_or (text_at c files2) [])))
            (text_at p files2))
    (s3 : (p : Text)
      → text_at p files' ≡ or_if (l == p) (unmanaged (text_at l files3)) (text_at p files3)) where
  unless : (p q : Text) (o x : Option Text) → (p == q) ≡ false → or_if (p == q) o x ≡ x
  unless p q o x h = rw h refl

  composed : Installed i c l t socket files files'
  composed = record {
    written = s3 i ∙ unless l i _ _ li ∙ s2 i ti ∙ unless c i _ _ ci ∙ s1 i ∙ rw (eq_self i) refl;
    migrated =
        s3 c
        ∙ unless l c _ _ lc
        ∙ s2 c tc
        ∙ rw (eq_self c)
            (ap (λ o. some (migrated_config (unwrap_or o []))) (s1 c ∙ unless i c _ _ ic));
    unmanaged_legacy =
        s3 l
        ∙ rw (eq_self l) (ap unmanaged (s2 l tl ∙ unless c l _ _ cl ∙ s1 l ∙ unless i l _ _ il));
    others = λ path. same_unless _ _ _ λ h.
        s3 path
        ∙ unless l path _ _ (ground (arith, h))
        ∙ s2 path (ground (arith, h))
        ∙ unless c path _ _ (ground (arith, h))
        ∙ s1 path
        ∙ unless i path _ _ (ground (arith, h));
  }

pub temporary-differs :
    (ssh name : Text)
    → (chars "config.keynoxis.tmp" == name) ≡ false
    → (temporary_path (join ssh (chars "config")) == join ssh name) ≡ false
temporary-differs ssh name h =
    ap (λ t. t == join ssh name) (join-append ssh (chars "config") (chars ".keynoxis.tmp"))
    ∙ join-differs ssh (chars "config.keynoxis.tmp") name h

module _ (v : System) (home socket : Text) (files files' : Directory) where
  -- When the installation returns without an error, the program's file has the socket's path in
  -- quotes, the configuration is the migrated one (of the empty text if there was none), the file of
  -- the predecessor is gone exactly if it has its header, and every other file, but the temporary
  -- one, has the text that it had.
  pub install-IsInstalled :
      install v home socket files ≡ (files', ok tt) → IsInstalled home socket files files'
  unfolding install remove_legacy_integration
  install-IsInstalled h =
      let ssh = join home (chars ".ssh") in
      let i = integration_path home in
      let c = config_path home in
      let l = legacy_path home in
      let files1 = write v.default_mode i (integration_text socket) files in
      let files2 = try_set_permissions v.secure_integration i private_mode files1 in
      let h1 = call-ok _ v.write_integration files files1 _ h in
      let (files3, _, m, h3) =
        after-ok (migrate v c (read_to_string v.read_config c files2) files2) _ h1 in
      let files4 = try_set_permissions v.secure_config c private_mode files3 in
      composed i c l (temporary_path c) socket files files2 files4 files'
        (join-differs ssh _ _ refl) (join-differs ssh _ _ refl) (join-differs ssh _ _ refl)
        (join-differs ssh _ _ refl) (join-differs ssh _ _ refl) (join-differs ssh _ _ refl)
        (temporary-differs ssh _ refl) (temporary-differs ssh _ refl) (temporary-differs ssh _ refl)
        (λ p.
          text_at-try_set_permissions v.secure_integration p i private_mode files1
          ∙ text_at-put p i _ files)
        (λ p k.
          text_at-try_set_permissions v.secure_config p c private_mode files3
          ∙ migrate-text_at v c p files2 files3 m k)
        (λ p. remove_managed-text_at v l p files4 files' h3)
