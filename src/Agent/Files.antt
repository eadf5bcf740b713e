-- ===== src/Agent/Files.antt =====
-- The files that src-tauri/src/agent reads and writes: `std::fs` on a directory tree given by its paths.
-- Each call takes the system's refusal, if it has one; a call that is refused changes nothing. Links
-- and directories are left out.
use keynoxis.Base.{
  ℕ, Bool, true, List, [], ◌∷◌, ◌++◌, if◌then◌else◌, ◌==◌, Nat_eq, List_eq, Option, none, some,
  String, Result, err, ◌≡◌, arith, inl, inr, Bool-cases, eq_left, eq_right,
}
use keynoxis.Agent.Integration.{Text}

-- A listener's socket: device and inode, and whether anyone listens.
pub record Socket : Type 0 where
  pub identity : ℕ × ℕ
  pub is_listening : Bool

pub record File : Type 0 where
  pub contents : Text
  pub mode : ℕ
  pub socket : Option Socket

abbrev pub Directory : Type 0
Directory = List (Text × File)

abbrev pub lookup : Text → Directory → Option File
lookup path [] = none
lookup path ((p, f) ∷ rest) = if p == path then some f else lookup path rest

abbrev pub remove : Text → Directory → Directory
remove path [] = []
remove path ((p, f) ∷ rest) = if p == path then remove path rest else (p, f) ∷ remove path rest

abbrev pub put : Text → File → Directory → Directory
put path f files = (path, f) ∷ remove path files

abbrev pub ends_with_slash : Text → Bool
ends_with_slash [] = true
ends_with_slash (c ∷ []) = c == 47
ends_with_slash (c ∷ d ∷ cs) = ends_with_slash (d ∷ cs)

-- `Path::join` with a relative path.
abbrev pub join : Text → Text → Text
join directory name =
    if ends_with_slash directory then directory ++ name else directory ++ (47 ∷ name)

abbrev pub private_mode : ℕ
private_mode = 0o600

-- The system refuses a call with a text, or it does not.
abbrev pub Refusal : Type 0
Refusal = Option String

abbrev pub mode_of : ℕ → Option File → ℕ
mode_of default (some f) = f.mode
mode_of default none = default

-- `fs::write`: a file that is new has the default mode.
abbrev pub write : ℕ → Text → Text → Directory → Directory
write default path contents files =
    put path
      (record { contents = contents; mode = mode_of default (lookup path files); socket = none })
      files

abbrev pub moved_to : Text → Text → Option File → Directory → Directory
moved_to from path (some f) files = put path f (remove from files)
moved_to from path none files = files

-- `fs::rename`.
abbrev pub rename : Text → Text → Directory → Directory
rename from path files = moved_to from path (lookup from files) files

abbrev pub with_mode : Text → ℕ → Option File → Directory → Directory
with_mode path mode (some f) files = put path (record f { mode = mode }) files
with_mode path mode none files = files

-- `fs::set_permissions`.
abbrev pub set_permissions : Text → ℕ → Directory → Directory
set_permissions path mode files = with_mode path mode (lookup path files) files

-- Whose result the program ignores.
abbrev pub try_set_permissions : Refusal → Text → ℕ → Directory → Directory
try_set_permissions none path mode files = set_permissions path mode files
try_set_permissions (some e) path mode files = files

-- A call and what comes after it, with Rust's `?` and the text that goes before the system's.
abbrev pub call {ℓ} :
    {A : Type ℓ}
    → (String → String)
    → Refusal
    → Directory
    → Directory
    → (Directory → Directory × Result A)
    → Directory × Result A
call text none before after next = next after
call text (some e) before after next = (before, err (text e))

pub lookup-remove :
    (path other : Text) (files : Directory)
    → lookup path (remove other files) ≡ (if other == path then none else lookup path files)
lookup-remove path other [] = ground arith
lookup-remove path other ((p, f) ∷ rest) = elim (Bool-cases (p == other)) [
  | inl same ↦ ground (arith, lookup-remove path other rest, same, eq_left p other path same)
  | inr differs ↦ elim (Bool-cases (other == path)) [
    | inl here ↦
        ground (arith, lookup-remove path other rest, differs, here, eq_right p other path here)
    | inr there ↦ ground (arith, lookup-remove path other rest, differs, there)
  ]
]

pub lookup-put :
    (path other : Text) (f : File) (files : Directory)
    → lookup path (put other f files) ≡ (if other == path then some f else lookup path files)
lookup-put path other f files = ground (arith, lookup-remove path other files)
