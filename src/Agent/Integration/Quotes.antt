-- ===== src/Agent/Integration/Quotes.antt =====
-- The paths that src-tauri/src/agent/integration.rs quotes, as a reader of the configuration takes them.
use keynoxis.Base.{
  Bool, true, false, [], ◌∷◌, ◌++◌, if◌then◌else◌, ◌==◌, Nat_eq, Option, none, some, ◌≡◌, refl,
  arith, option_map,
}
use keynoxis.Agent.Integration.{Text, replace, shell_quote}

-- After the opening quote: a backslash stands for the character that follows it, and the next quote
-- is the end of the text.
abbrev pub until_quote : Bool → Text → Option Text
until_quote escaped [] = none
until_quote true (c ∷ cs) = option_map (◌∷◌ c) (until_quote false cs)
until_quote false (c ∷ cs) =
    let next = until_quote false cs in
    let after = until_quote true cs in
    if c == 92
    then after
    else if c == 34
    then (if is_end cs then some [] else none)
    else option_map (◌∷◌ c) next
  where
    is_end : Text → Bool
    is_end [] = true
    is_end (d ∷ ds) = false

abbrev pub unquote : Text → Option Text
unquote [] = none
unquote (c ∷ cs) = if c == 34 then until_quote false cs else none

escaped_lem :
    (value : Text)
    → until_quote false (replace 34 (92 ∷ 34 ∷ []) (replace 92 (92 ∷ 92 ∷ []) value) ++ (34 ∷ []))
      ≡ some value
escaped_lem [] = refl
escaped_lem (c ∷ cs) = ground (arith, escaped_lem cs)

-- A reader of the configuration, for whom a backslash stands for the character after it, gets the
-- path back that was quoted.
pub unquote-shell_quote : (value : Text) → unquote (shell_quote value) ≡ some value
unfolding shell_quote
unquote-shell_quote value = escaped_lem value
