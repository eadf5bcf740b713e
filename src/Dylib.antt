-- ===== src/Dylib.antt =====
-- The texts that src-tauri/build.rs reads: the name of a library, the lines of otool, and the pins of
-- native/macos-dylib-sha256.txt. A path is its text.
use keynoxis.Base.{
  Bool, false, not, ◌&&◌, ◌||◌, List, [], ◌∷◌, ◌++◌, Option, none, some, if◌then◌else◌, ◌==◌,
  Nat_eq, List_eq, chars, find, retain, map, drop, is_empty, option_map, starts_with, split_at,
  split_whitespace, trim_start, trim_text,
}
use keynoxis.Agent.Integration.{Text, lines}

-- `Path::file_name`: the last component, if it is a name.
abbrev is_component : Text → Bool
is_component part = not (part == chars ".")

abbrev last : List Text → Option Text
last [] = none
last (t ∷ []) = some t
last (t ∷ u ∷ us) = last (u ∷ us)

abbrev named : Option Text → Option Text
named none = none
named (some part) = if part == chars ".." then none else some part

abbrev file_name : Text → Option Text
file_name path = named (last (retain is_component (split_at (λ c. c == b'/') path)))

abbrev library_prefixes : List Text
library_prefixes = chars "libfido2" ∷ chars "libcbor" ∷ chars "libcrypto" ∷ []

abbrev prefixed : Text → Text → Bool
prefixed name prefix = starts_with prefix name

abbrev dylib_name : Text → Text
dylib_name prefix = prefix ++ chars ".dylib"

abbrev name_for : Option Text → Option Text
name_for none = none
name_for (some name) = option_map dylib_name (find (prefixed name) library_prefixes)

unfoldable pub bundled_name : Text → Option Text
bundled_name install_name = name_for (file_name install_name)

-- `split(" (").next()`.
abbrev before_paren : Text → Text
before_paren [] = []
before_paren (c ∷ cs) = if starts_with (chars " (") (c ∷ cs) then [] else c ∷ before_paren cs

abbrev library_line : Text → Text
library_line line = before_paren (trim_text line)

abbrev pub library_lines : Option Text → List Text
library_lines none = []
library_lines (some output) = map library_line (drop 1 (lines output))

-- The line of a pin: a name and a digest.
abbrev is_pin_line : Text → Bool
is_pin_line line =
    not (is_empty (trim_text line)) && not (starts_with (chars "#") (trim_start line))

abbrev hash_in : Text → List Text → Option Text
hash_in name (entry ∷ hash ∷ rest) = if entry == name then some hash else none
hash_in name _ = none

abbrev or_next : Option Text → Option Text → Option Text
or_next none next = next
or_next (some hash) next = some hash

abbrev find_pin : Text → List Text → Option Text
find_pin name [] = none
find_pin name (line ∷ rest) = or_next (hash_in name (split_whitespace line)) (find_pin name rest)

unfoldable pub pinned_hash : Text → Text → Option Text
pinned_hash pins name = find_pin name (retain is_pin_line (lines pins))

-- The extension is `dylib`, after a stem.
abbrev ends_in_dylib : Text → Bool
ends_in_dylib [] = false
ends_in_dylib (c ∷ cs) = c ∷ cs == chars ".dylib" || ends_in_dylib cs

abbrev has_stem : Option Text → Bool
has_stem none = false
has_stem (some []) = false
has_stem (some (c ∷ cs)) = ends_in_dylib cs

abbrev pub is_dylib : Text → Bool
is_dylib path = has_stem (file_name path)
