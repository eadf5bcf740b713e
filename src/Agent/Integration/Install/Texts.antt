-- ===== src/Agent/Integration/Install/Texts.antt =====
-- The texts of the files, over the calls that src-tauri/src/agent/integration.rs makes.
use keynoxis.Base.{
  ℕ, Bool, true, false, [], ◌∷◌, ◌++◌, if◌then◌else◌, ◌==◌, Nat_eq, List_eq, Option, none, some,
  ◌≡◌, refl, arith, ap, ◌∙◌, Bool-cases, inl, inr, list_eq_iff, sym, append_assoc,
}
use keynoxis.Agent.Integration.{Text}
use keynoxis.Agent.Files.{
  Directory, File, lookup, remove, put, join, set_permissions, with_mode, moved_to, rename,
  lookup-remove, lookup-put, ends_with_slash,
}

abbrev pub text_of : Option File → Option Text
text_of none = none
text_of (some f) = some f.contents

abbrev pub text_at : Text → Directory → Option Text
text_at path files = text_of (lookup path files)

abbrev pub or_if : Bool → Option Text → Option Text → Option Text
or_if b o p = if b then o else p

text_if :
    (b : Bool) (o p : Option File) → text_of (if b then o else p) ≡ or_if b (text_of o) (text_of p)
text_if true o p = refl
text_if false o p = refl

pub text_at-put :
    (path other : Text) (f : File) (files : Directory)
    → text_at path (put other f files)
      ≡ or_if (other == path) (some f.contents) (text_at path files)
text_at-put path other f files =
    ap text_of (lookup-put path other f files)
    ∙ text_if (other == path) (some f) (lookup path files)

pub text_at-remove :
    (path other : Text) (files : Directory)
    → text_at path (remove other files) ≡ or_if (other == path) none (text_at path files)
text_at-remove path other files =
    ap text_of (lookup-remove path other files) ∙ text_if (other == path) none (lookup path files)

pub text_at-set_permissions :
    (path other : Text) (mode : ℕ) (files : Directory)
    → text_at path (set_permissions other mode files) ≡ text_at path files
text_at-set_permissions path other mode files = with_mode-text (lookup other files) refl
  where
    with_mode-text :
        (o : Option File)
        → lookup other files ≡ o
        → text_at path (with_mode other mode o files) ≡ text_at path files
    with_mode-text none h = refl
    with_mode-text (some f) h = elim (Bool-cases (other == path)) [
      | inl same ↦
          text_at-put path other _ files
          ∙ rw same
              (sym (ap text_of h) ∙ ap (λ p. text_at p files) ((list_eq_iff other path).0 same))
      | inr differs ↦ text_at-put path other _ files ∙ rw differs refl
    ]

pub text_at-rename :
    (path from other : Text) (files : Directory) {text : Text}
    → text_at from files ≡ some text
    → text_at path (rename from other files)
      ≡ or_if (other == path) (some text) (or_if (from == path) none (text_at path files))
text_at-rename path from other files {text} h = moved (lookup from files) h
  where
    moved :
        (o : Option File)
        → text_of o ≡ some text
        → text_at path (moved_to from other o files)
          ≡ or_if (other == path) (some text) (or_if (from == path) none (text_at path files))
    moved none k = cc
    moved (some f) k =
        text_at-put path other f (remove from files)
        ∙ (ap (λ o. or_if (other == path) o (text_at path (remove from files))) k
            ∙ ap (or_if (other == path) (some text)) (text_at-remove path from files))

-- Names in one directory are paths that differ.
append-differs : (d a b : Text) → (a == b) ≡ false → (d ++ a == d ++ b) ≡ false
append-differs [] a b h = h
append-differs (c ∷ d) a b h = ground (arith, append-differs d a b h)

pub join-differs : (d a b : Text) → (a == b) ≡ false → (join d a == join d b) ≡ false
join-differs d a b h = elim (Bool-cases (ends_with_slash d)) [
  | inl slash ↦ rw slash (append-differs d a b h)
  | inr plain ↦ rw plain (append-differs d (47 ∷ a) (47 ∷ b) (ground (arith, h)))
]

pub join-append : (d a b : Text) → join d a ++ b ≡ join d (a ++ b)
join-append d a b = elim (Bool-cases (ends_with_slash d)) [
  | inl slash ↦ rw slash (append_assoc d a b)
  | inr plain ↦ rw plain (append_assoc d (47 ∷ a) b)
]
