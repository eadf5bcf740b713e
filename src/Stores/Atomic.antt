-- ===== src/Stores/Atomic.antt =====
-- A write of a file of the data directory, by the functions that Stores models, is whole or nothing.
use Prim.Native.String.{◌++◌ as concat}
use keynoxis.Base.{
  ℕ, false, [], ◌∷◌, ◌++◌, ◌==◌, Nat_eq, List_eq, Option, none, some, String, Result, ok, err,
  chars, Bytes, option_map, eq_self, list_eq_iff, ◌≡◌, refl, arith, ap, ◌∙◌, sym, subst,
}
use keynoxis.Settings.{stored}
use keynoxis.Agent.Files.{
  Directory, File, lookup, remove, put, private_mode, Refusal, rename, moved_to, set_permissions,
  with_mode, call, lookup-put, lookup-remove,
}
use keynoxis.Agent.Integration.Install.Texts.{join-differs}
use keynoxis.Stores.{
  System, DataFile, path_in, temporary_in, write_data, encode_data, commit_in, commit_file, decoded,
  stored_file, stored_in,
}

append-longer : (a b : Bytes) (c : ℕ) → (a ++ (c ∷ b) == a) ≡ false
append-longer [] b c = refl
append-longer (x ∷ a) b c = ground (arith, append-longer a b c)

differs-sym : (a b : Bytes) → (a == b) ≡ false → (b == a) ≡ false
differs-sym a b h = ground (arith, list_eq_iff a b, list_eq_iff b a, h)

lookup-put_self :
    (path : Bytes) (f : File) (files : Directory) → lookup path (put path f files) ≡ some f
lookup-put_self path f files = lookup-put path path f files ∙ rw (eq_self path) refl

put_other :
    (path other : Bytes) (f : File) (files : Directory)
    → (other == path) ≡ false
    → lookup path (put other f files) ≡ lookup path files
put_other path other f files h = lookup-put path other f files ∙ rw h refl

remove_other :
    (path other : Bytes) (files : Directory)
    → (other == path) ≡ false
    → lookup path (remove other files) ≡ lookup path files
remove_other path other files h = lookup-remove path other files ∙ rw h refl

set_permissions-put :
    (path : Bytes) (mode : ℕ) (f : File) (files : Directory)
    → set_permissions path mode (put path f files)
      ≡ put path (record f { mode = mode }) (put path f files)
set_permissions-put path mode f files =
    ap (λ o. with_mode path mode o (put path f files)) (lookup-put_self path f files)

rename-put :
    (from path : Bytes) (f : File) (files : Directory)
    → rename from path (put from f files) ≡ put path f (remove from (put from f files))
rename-put from path f files =
    ap (λ o. moved_to from path o (put from f files)) (lookup-put_self from f files)

module _ {A : Type 0} (decode : Bytes → Result A) (v : System) (f : DataFile)
    (directory : Bytes) where
  abbrev path : Bytes
  path = path_in directory f

  abbrev temporary : Bytes
  temporary = temporary_in directory f

  temporary-differs : (temporary == path) ≡ false
  temporary-differs =
      join-differs directory (chars f.name ++ chars ".tmp") (chars f.name)
        (append-longer (chars f.name) (chars "tmp") 46)

  -- Every other file is as it was.
  abbrev pub SameOthers : Directory → Directory → Type 0
  SameOthers files files' =
      (p : Bytes)
      → (path == p) ≡ false
      → (temporary == p) ≡ false
      → lookup p files' ≡ lookup p files

  -- The file holds the value and is private; or it is as it was.
  abbrev pub Replaces : A → Directory → Directory × Result (Unit {0}) → Type 0
  Replaces a files (files', ok u) =
      (stored_in decode f directory files' ≡ stored a)
      × (option_map (λ (x : File). x.mode) (lookup path files') ≡ some private_mode)
      × SameOthers files files'
  Replaces a files (files', err e) =
      (lookup path files' ≡ lookup path files) × SameOthers files files'

  module _ (files : Directory) (g : File) where
    abbrev one : Directory
    one = put temporary g files

    abbrev private_file : File
    private_file = record g { mode = private_mode }

    abbrev two : Directory
    two = set_permissions temporary private_mode one

    one_other : (p : Bytes) → (temporary == p) ≡ false → lookup p one ≡ lookup p files
    one_other p t = put_other p temporary g files t

    two_lem : two ≡ put temporary private_file one
    two_lem = set_permissions-put temporary private_mode g files

    two_other : (p : Bytes) → (temporary == p) ≡ false → lookup p two ≡ lookup p files
    two_other p t =
        ap (lookup p) two_lem ∙ (put_other p temporary private_file one t ∙ one_other p t)

    three_lem :
        rename temporary path two
        ≡ put path private_file (remove temporary (put temporary private_file one))
    three_lem = ap (rename temporary path) two_lem ∙ rename-put temporary path private_file one

    three_other :
        (p : Bytes)
        → (path == p) ≡ false
        → (temporary == p) ≡ false
        → lookup p (rename temporary path two) ≡ lookup p files
    three_other p h t =
        ap (lookup p) three_lem
        ∙ (put_other p path private_file _ h
            ∙ (remove_other p temporary (put temporary private_file one) t
                ∙ (put_other p temporary private_file one t ∙ one_other p t)))

    three_path : lookup path (rename temporary path two) ≡ some private_file
    three_path = ap (lookup path) three_lem ∙ lookup-put_self path private_file _

    finished :
        (a : A) (secure move : Refusal)
        → decode g.contents ≡ ok a
        → Replaces a files (
            call (concat f.secured) secure one two λ files1.
              call
                (concat f.committed)
                move
                files1
                (rename temporary path files1)
                λ files2. (files2, ok tt))
    finished a (some e) move h = (one_other path temporary-differs, λ p _ t. one_other p t)
    finished a none (some e) h = (two_other path temporary-differs, λ p _ t. two_other p t)
    finished a none none h = (
      ap (stored_file decode f) three_path ∙ ap (decoded decode f) h,
      ap (option_map (λ (x : File). x.mode)) three_path,
      three_other,
    )

  written :
      (a : A) (bytes : Bytes) (o : Option (String × Bytes)) (files : Directory)
      → decode bytes ≡ ok a
      → Replaces a files (write_data v f directory o bytes files)
  written a bytes (some (e, left)) files h =
      (one_other files _ path temporary-differs, λ p _ t. one_other files _ p t)
  written a bytes none files h = finished files _ a v.secure_temporary v.rename_temporary h

  encoded :
      (a : A) (o : Result Bytes) (files : Directory)
      → ((bytes : Bytes) → o ≡ ok bytes → decode bytes ≡ ok a)
      → Replaces a files (encode_data v f directory o files)
  encoded a (err e) files h = (refl, λ p _ _. refl)
  encoded a (ok bytes) files h = written a bytes v.write_temporary files (h bytes refl)

  created :
      (a : A) (refused : Refusal) (o : Result Bytes) (files : Directory)
      → ((bytes : Bytes) → o ≡ ok bytes → decode bytes ≡ ok a)
      → Replaces a files (call (concat f.created) refused files files (encode_data v f directory o))
  created a (some e) o files h = (refl, λ p _ _. refl)
  created a none o files h = encoded a o files h

  -- Where the decoding gives back what was encoded: a write of a file of the data directory that
  -- returns has put the value there, for the user alone; one that fails at any call has left the
  -- file as it was; and every file but this one and its temporary is as it was.
  pub commit_file-Replaces :
      (encode : A → Result Bytes) (a : A) (files : Directory)
      → v.data_directory ≡ ok directory
      → ((bytes : Bytes) → encode a ≡ ok bytes → decode bytes ≡ ok a)
      → Replaces a files (commit_file v f (encode a) files)
  unfolding commit_file
  commit_file-Replaces encode a files at h =
      subst (λ d. Replaces a files (commit_in v f d (encode a) files)) (sym at)
        (created a v.create_directory (encode a) files h)
