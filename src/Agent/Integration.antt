-- ===== src/Agent/Integration.antt =====
-- src-tauri/src/agent/integration.rs: the user's SSH configuration, as texts of characters.
pub mod Lines
pub mod Config
pub mod Quotes
pub mod Install
use keynoxis.Base.{
  ℕ, Bool, true, false, not, ◌&&◌, ◌||◌, List, [], ◌∷◌, ◌++◌, if◌then◌else◌, ◌==◌, Nat_eq, List_eq,
  is_empty, retain, chars, leb, Option, none, some,
}

abbrev pub Text : Type 0
Text = List ℕ

-- `str::lines`: a line ends with a line feed, and a carriage return before it belongs to the ending.
abbrev pub at_newline : Text → Bool
at_newline [] = false
at_newline (c ∷ cs) = c == 10

abbrev pub prepend : ℕ → List Text → List Text
prepend c [] = (c ∷ []) ∷ []
prepend c (line ∷ rest) = (c ∷ line) ∷ rest

abbrev pub lines : Text → List Text
lines [] = []
lines (c ∷ cs) =
    let rest = lines cs in
    if c == 10 then [] ∷ rest else if c == 13 && at_newline cs then rest else prepend c rest

-- `join("\n")`.
abbrev pub join_lines : List Text → Text
join_lines [] = []
join_lines (line ∷ []) = line
join_lines (line ∷ next ∷ rest) = line ++ (10 ∷ join_lines (next ∷ rest))

-- `trim_start_matches('\n')`.
abbrev pub trim_newlines : Text → Text
trim_newlines [] = []
trim_newlines (c ∷ cs) = if c == 10 then trim_newlines cs else c ∷ cs

-- `char::is_whitespace`: the property White_Space.
abbrev pub is_whitespace : ℕ → Bool
is_whitespace c =
    (leb 9 c && leb c 13)
    || c == 32
    || c == 0x85
    || c == 0xa0
    || c == 0x1680
    || (leb 0x2000 c && leb c 0x200a)
    || c == 0x2028
    || c == 0x2029
    || c == 0x202f
    || c == 0x205f
    || c == 0x3000

abbrev pub trim_start : Text → Text
trim_start [] = []
trim_start (c ∷ cs) = if is_whitespace c then trim_start cs else c ∷ cs

abbrev pub trim_end : Text → Text
trim_end [] = []
trim_end (c ∷ cs) =
    let rest = trim_end cs in if is_empty rest && is_whitespace c then [] else c ∷ rest

unfoldable pub trim : Text → Text
trim text = trim_end (trim_start text)

unfoldable pub include_line : Text
include_line = chars "Include ~/.ssh/keynoxis.conf"

unfoldable pub legacy_include_line : Text
legacy_include_line = chars "Include ~/.ssh/yubiagent.conf"

abbrev pub legacy_header : Text
legacy_header = chars "# Managed by YubiAgent."

abbrev pub is_user_line : Text → Bool
is_user_line line = not (trim line == include_line) && not (trim line == legacy_include_line)

abbrev pub with_include : Text → Text
with_include body =
    if is_empty body
    then include_line ++ (10 ∷ [])
    else include_line ++ (10 ∷ 10 ∷ body ++ (10 ∷ []))

unfoldable pub migrated_config : Text → Text
migrated_config existing =
    with_include (trim_newlines (join_lines (retain is_user_line (lines existing))))

-- `str::replace` of one character.
abbrev pub replace : ℕ → Text → Text → Text
replace old new [] = []
replace old new (c ∷ cs) = if c == old then new ++ replace old new cs else c ∷ replace old new cs

unfoldable pub shell_quote : Text → Text
shell_quote value = 34 ∷ replace 34 (92 ∷ 34 ∷ []) (replace 92 (92 ∷ 92 ∷ []) value) ++ (34 ∷ [])

-- Whether the old integration is the one that the program's predecessor wrote.
abbrev pub first_line : Text → Option Text
first_line text = firstly (lines text)
  where
    firstly : List Text → Option Text
    firstly [] = none
    firstly (line ∷ rest) = some line
