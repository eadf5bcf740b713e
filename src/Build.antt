-- ===== src/Build.antt =====
-- src-tauri/build.rs: the native libraries that are put beside the program. Starting from libfido2, each
-- library is verified against its pinned digest, copied, and its own libraries follow; the queue of
-- the loop is a list. A path is its text; the tools of macOS and the files are parameters.
pub mod Verified
pub mod Pinned
pub mod Closed
pub mod Ends
use keynoxis.Base.{
  ℕ, zero, suc, Bool, true, false, ◌&&◌, ◌||◌, List, [], ◌∷◌, ◌++◌, Option, none, some, String,
  if◌then◌else◌, ◌==◌, Nat_eq, List_eq, Result, ok, err, Bytes, chars, find, first, retain,
  contains, drop, all, starts_with,
}
use keynoxis.Agent.Integration.{Text}
use keynoxis.Dylib.{bundled_name, library_lines, pinned_hash, is_dylib}
use keynoxis.Agent.Files.{join}

-- macOS, which answers alike each time: the files, `canonicalize`, the answers of otool, and whether each call succeeds; SHA-256 in
-- hexadecimal digits, and a path or a digest in a message.
pub record Mac : Type 0 where
  pub exists : Text → Bool
  pub canonicalize : Text → Option Text
  pub otool : Text → Option Text
  pub read : Text → Result Bytes
  pub sha256_hex : Bytes → Text
  pub copy : Text → Text → Bool
  pub set_mode : Text → Bool
  pub install_name_tool : List Text → Bool
  pub codesign : Text → Bool
  pub manifest_dir : Option Text
  pub create_output : Bool
  pub read_output : Option (List Text)
  pub remove_file : Text → Bool
  pub pins : Text
  pub not_pinned : Text → String
  pub not_hashed : Text → String → String
  pub mismatch : Text → Text → Text → String

module _ (m : Mac) where
  unfoldable pub dylib_lines : Text → List Text
  dylib_lines path = library_lines (m.otool path)

  abbrev pub compared : Text → Text → Text → Result (Unit {0})
  compared path expected actual =
      if actual == expected then ok tt else err (m.mismatch path expected actual)

  abbrev pub hashed : Text → Text → Result Bytes → Result (Unit {0})
  hashed path expected (err e) = err (m.not_hashed path e)
  hashed path expected (ok contents) = compared path expected (m.sha256_hex contents)

  abbrev pub verify_pin : Text → Text → Option Text → Result (Unit {0})
  verify_pin path name none = err (m.not_pinned name)
  verify_pin path name (some expected) = hashed path expected (m.read path)

  unfoldable pub verify_native_dependency : Text → Text → Result (Unit {0})
  verify_native_dependency path name = verify_pin path name (pinned_hash m.pins name)

-- The loop: the queue, the libraries that were visited, the copy of libfido2, and what was copied,
-- newest first: the name in the output and the path of the original.
pub record Bundle : Type 0 where
  pub queue : List Text
  pub seen : List Text
  pub root_copy : Option Text
  pub copies : List (Text × Text)

-- A round goes on, gives up (`None`), or panics.
pub data Step : Type 0 where
  next : Bundle → Step
  stop : Step
  panic : String → Step

abbrev is_local : Text → Bool
is_local dependency =
    starts_with (chars "/opt/homebrew/") dependency || starts_with (chars "/usr/local/") dependency

abbrev pub dependencies : Mac → Text → List Text
dependencies m source = retain is_local (drop 1 (dylib_lines m source))

-- The loop ends when the queue is empty (the result is then the copy of libfido2), gives up
-- (`None`), or panics.
pub data Run : Type 0 where
  done : Bundle → Run
  stopped out_of_fuel : Run
  panicked : String → Run

abbrev pub then_run : Step → (Bundle → Run) → Run
then_run (next s) k = k s
then_run stop k = stopped
then_run (panic e) k = panicked e

module _ (m : Mac) (output root : Text) where
  abbrev rpath : Text → Text
  rpath name = chars "@rpath/" ++ name

  abbrev pub changed : Text → Text → Option Text → Bool
  changed destination dependency none = false
  changed destination dependency (some name) =
      m.install_name_tool (chars "-change" ∷ dependency ∷ rpath name ∷ destination ∷ [])

  -- Each dependency can be renamed.
  abbrev relinked : Text → List Text → Bool
  relinked destination [] = true
  relinked destination (d ∷ ds) = changed destination d (bundled_name d) && relinked destination ds

  abbrev pub queued : Text → Text → Text → Bundle → Bundle
  queued source name destination s = record s {
    queue = s.queue ++ dependencies m source;
    root_copy = if source == root then some destination else s.root_copy;
    copies = (name, source) ∷ s.copies;
  }

  abbrev place : Text → Text → Text → Bundle → Step
  place source name destination s =
      if m.copy source destination
        && m.set_mode destination
        && m.install_name_tool (chars "-id" ∷ rpath name ∷ destination ∷ [])
        && relinked destination (dependencies m source)
        && m.codesign destination
      then next (queued source name destination s)
      else stop

  abbrev pub place_verified : Text → Text → Result (Unit {0}) → Bundle → Step
  place_verified source name (err e) s = panic e
  place_verified source name (ok u) s = place source name (join output name) s

  abbrev pub place_named : Text → Option Text → Bundle → Step
  place_named source none s = stop
  place_named source (some name) s =
      place_verified source name (verify_native_dependency m source name) s

  abbrev pub name_of : Option Text → Option Text
  name_of none = none
  name_of (some install_name) = bundled_name install_name

  abbrev visit : Text → Bundle → Step
  visit source s = place_named source (name_of (first (dylib_lines m source))) s

  abbrev pub process_at : Option Text → Bundle → Step
  process_at none s = stop
  process_at (some source) s =
      if contains s.seen source then next s else visit source (record s { seen = source ∷ s.seen })

  unfoldable pub process : Text → Bundle → Step
  process source s = process_at (m.canonicalize source) s

  unfoldable pub bundle_loop : ℕ → Bundle → Run
  bundle_loop zero s = out_of_fuel
  bundle_loop (suc n) s = elim s.queue [
    | [] ↦ done s
    | source ∷ rest ↦ then_run (process source (record s { queue = rest })) (bundle_loop n)
  ]

abbrev pub begin_bundle : Text → Bundle
begin_bundle root = record { queue = root ∷ []; seen = []; root_copy = none; copies = [] }

-- The stale libraries of the output are removed first.
abbrev removed : Mac → Option (List Text) → Bool
removed m none = false
removed m (some entries) = all m.remove_file (retain is_dylib entries)

abbrev roots : List Text
roots =
    chars "/opt/homebrew/opt/libfido2/lib/libfido2.dylib"
    ∷ chars "/usr/local/opt/libfido2/lib/libfido2.dylib"
    ∷ []

abbrev canonical_root : Mac → Option Text → Option Text
canonical_root m none = none
canonical_root m (some path) = m.canonicalize path

unfoldable pub root_of : Mac → Option Text
root_of m = canonical_root m (find m.exists roots)

abbrev pub bundle_in : Mac → ℕ → Text → Option Text → Run
bundle_in m fuel root none = stopped
bundle_in m fuel root (some manifest) =
    if m.create_output && removed m m.read_output
    then bundle_loop m (join manifest (chars "vendor/lib")) root fuel (begin_bundle root)
    else stopped

abbrev pub bundle_root : Mac → ℕ → Option Text → Run
bundle_root m fuel none = stopped
bundle_root m fuel (some root) = bundle_in m fuel root m.manifest_dir

unfoldable pub bundle_macos_libfido2 : Mac → ℕ → Run
bundle_macos_libfido2 m fuel = bundle_root m fuel (root_of m)
