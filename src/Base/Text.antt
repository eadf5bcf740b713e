-- ===== src/Base/Text.antt =====
-- Rust's `String` and `&str` as the native text, with the methods that the program calls.
use Prim.Native.Char.{code}
use Prim.Native.Nat.{ℕ, ◌+◌, ◌/◌, ◌%◌}
use Prim.Native.String.{String}
use mathlib.Core.Bool.{Bool, true, false, ◌&&◌, ◌||◌}
use mathlib.Core.Option.{Option, none, some}
use mathlib.Core.List.{List, [], ◌∷◌, ◌++◌, map}
use keynoxis.Base.Tests.{ltb, leb, if◌then◌else◌}
use keynoxis.Base.Equality.{list_eq, Nat_eq, ◌==◌}

abbrev pub Bytes : Type 0
Bytes = List ℕ

abbrev pub chars : String → List ℕ
chars String.[] = []
chars (String.◌∷◌ c s) = code c ∷ chars s

-- UTF-8.
pub utf8 : ℕ → Bytes
utf8 c =
    if ltb c 0x80
    then c ∷ []
    else if ltb c 0x800
    then (0xc0 + c / 64) ∷ (0x80 + c % 64) ∷ []
    else if ltb c 0x1_0000
    then (0xe0 + c / 4096) ∷ (0x80 + c / 64 % 64) ∷ (0x80 + c % 64) ∷ []
    else (0xf0 + c / 262144) ∷ (0x80 + c / 4096 % 64) ∷ (0x80 + c / 64 % 64) ∷ (0x80 + c % 64) ∷ []

encode : List ℕ → Bytes
encode [] = []
encode (c ∷ cs) = utf8 c ++ encode cs

unfoldable pub as_bytes : String → Bytes
unfolding encode utf8
as_bytes s = encode (chars s)

-- `char::is_control`: the general category Cc.
abbrev pub is_control : ℕ → Bool
is_control c = ltb c 32 || (leb 127 c && leb c 159)

abbrev pub ascii_lower : ℕ → ℕ
ascii_lower c = if leb b'A' c && leb c b'Z' then c + 32 else c

abbrev pub eq_ignore_ascii_case : String → String → Bool
eq_ignore_ascii_case a b = list_eq (map ascii_lower (chars a)) (map ascii_lower (chars b))

-- `str::strip_prefix` and `str::starts_with`.
abbrev pub strip_prefix : List ℕ → List ℕ → Option (List ℕ)
strip_prefix [] text = some text
strip_prefix (c ∷ prefix) [] = none
strip_prefix (c ∷ prefix) (d ∷ text) = if c == d then strip_prefix prefix text else none

abbrev pub starts_with : List ℕ → List ℕ → Bool
starts_with [] text = true
starts_with (c ∷ prefix) [] = false
starts_with (c ∷ prefix) (d ∷ text) = c == d && starts_with prefix text

-- `char::is_whitespace`: the property White_Space.
abbrev pub is_whitespace : ℕ → Bool
is_whitespace c =
    (leb 9 c && leb c 13)
    || c == 32
    || c == 0x85
    || c == 0xa0
    || c == 0x1680
    || (leb 0x2000 c && leb c 0x200a)
    || c == 0x2028
    || c == 0x2029
    || c == 0x202f
    || c == 0x205f
    || c == 0x3000

-- `str::trim`.
abbrev pub trim_start : List ℕ → List ℕ
trim_start [] = []
trim_start (c ∷ cs) = let rest = trim_start cs in if is_whitespace c then rest else c ∷ cs

abbrev keep_end : ℕ → List ℕ → List ℕ
keep_end c [] = if is_whitespace c then [] else c ∷ []
keep_end c (d ∷ ds) = c ∷ d ∷ ds

abbrev pub trim_end : List ℕ → List ℕ
trim_end [] = []
trim_end (c ∷ cs) = keep_end c (trim_end cs)

abbrev pub trim_text : List ℕ → List ℕ
trim_text text = trim_start (trim_end text)

-- The word at the start, if there is one, and the others.
abbrev flush : List ℕ → List (List ℕ) → List (List ℕ)
flush [] words = words
flush (c ∷ cs) words = (c ∷ cs) ∷ words

abbrev add_char : Bool → ℕ → List ℕ × List (List ℕ) → List ℕ × List (List ℕ)
add_char true c (word, words) = ([], flush word words)
add_char false c (word, words) = (c ∷ word, words)

abbrev words_from : (ℕ → Bool) → List ℕ → List ℕ × List (List ℕ)
words_from cut [] = ([], [])
words_from cut (c ∷ cs) = add_char (cut c) c (words_from cut cs)

abbrev non_empty_words : List ℕ × List (List ℕ) → List (List ℕ)
non_empty_words (word, words) = flush word words

-- The non-empty parts between the characters that cut; `str::split_whitespace`.
abbrev pub split_at : (ℕ → Bool) → List ℕ → List (List ℕ)
split_at cut text = non_empty_words (words_from cut text)

abbrev pub split_whitespace : List ℕ → List (List ℕ)
split_whitespace text = split_at is_whitespace text
