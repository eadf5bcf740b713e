-- ===== src/Agent/Integration/Config.antt =====
-- What src-tauri/src/agent/integration.rs makes of the user's SSH configuration.
use keynoxis.Base.{
  Bool, true, false, List, [], ◌∷◌, ◌++◌, Nat_eq, retain, ◌≡◌, refl, ap, arith, ◌∙◌, sym, all,
}
use keynoxis.Agent.Integration.{
  Text, lines, join_lines, migrated_config, with_include, include_line, legacy_include_line,
  is_user_line, trim,
}
use keynoxis.Agent.Integration.Lines.{
  ends_plainly, is_line, drop_empty, lines-is_line, lines-line, lines-join_lines,
  trim_newlines-join_lines, retain-all, drop_empty-all, drop_empty-drop_empty,
}

-- The user's own lines, from the first that is not empty.
abbrev pub user_lines : Text → List Text
user_lines text = drop_empty (retain is_user_line (lines text))

-- They follow the line of the program, and an empty line.
abbrev pub laid_out : List Text → List Text
laid_out [] = include_line ∷ []
laid_out (l ∷ ls) = include_line ∷ [] ∷ l ∷ ls

migrated_config-join_lines :
    (text : Text) → migrated_config text ≡ with_include (join_lines (user_lines text))
unfolding migrated_config
migrated_config-join_lines text = ap with_include (
    trim_newlines-join_lines (retain is_user_line (lines text))
      (retain-all is_user_line is_line (lines text) (lines-is_line text)))

include_line-plain : (is_line include_line ≡ true) × (ends_plainly include_line ≡ true)
unfolding include_line
include_line-plain = (refl, refl)

lines-include : (rest : Text) → lines (include_line ++ (10 ∷ rest)) ≡ include_line ∷ lines rest
lines-include rest = let (l, p) = include_line-plain in lines-line include_line rest l p

lines-with_include :
    (ls : List Text)
    → all is_line ls ≡ true
    → all ends_plainly ls ≡ true
    → lines (with_include (join_lines (drop_empty ls))) ≡ laid_out (drop_empty ls)
lines-with_include [] h k = lines-include []
lines-with_include ([] ∷ ls) h k = lines-with_include ls (ground arith) (ground arith)
lines-with_include ((c ∷ cs) ∷ []) h k =
    lines-include _ ∙ ap (λ x. include_line ∷ [] ∷ x) (lines-join_lines (c ∷ cs) [] h k)
lines-with_include ((c ∷ cs) ∷ l ∷ ls) h k =
    lines-include _ ∙ ap (λ x. include_line ∷ [] ∷ x) (lines-join_lines (c ∷ cs) (l ∷ ls) h k)

include_line-dropped : is_user_line include_line ≡ false
unfolding include_line trim legacy_include_line
include_line-dropped = refl

empty-kept : is_user_line [] ≡ true
unfolding include_line trim legacy_include_line
empty-kept = refl

retain-kept : (keep : Text → Bool) (ls : List Text) → all keep (retain keep ls) ≡ true
retain-kept keep [] = refl
retain-kept keep (l ∷ ls) = ground (arith, retain-kept keep ls)

retain-all_kept : (keep : Text → Bool) (ls : List Text) → all keep ls ≡ true → retain keep ls ≡ ls
retain-all_kept keep [] h = refl
retain-all_kept keep (l ∷ ls) h = ground (arith, retain-all_kept keep ls)

retain-laid_out :
    (ls : List Text)
    → all is_user_line ls ≡ true
    → drop_empty ls ≡ ls
    → drop_empty (retain is_user_line (laid_out ls)) ≡ ls
retain-laid_out [] h k = rw include_line-dropped refl
retain-laid_out (l ∷ ls) h k =
    rw (include_line-dropped, empty-kept, retain-all_kept is_user_line (l ∷ ls) h) k

user_lines-laid_out :
    (ls : List Text)
    → drop_empty (retain is_user_line (laid_out (drop_empty (retain is_user_line ls))))
      ≡ drop_empty (retain is_user_line ls)
user_lines-laid_out ls =
    retain-laid_out (drop_empty (retain is_user_line ls))
      (drop_empty-all is_user_line (retain is_user_line ls) (retain-kept is_user_line ls))
      (drop_empty-drop_empty (retain is_user_line ls))

module _ (text : Text) (plain : all ends_plainly (lines text) ≡ true) where
  -- In a configuration none of whose lines ends with a carriage return of its own, the line of the
  -- program comes first, and after an empty line come exactly the user's lines in their order, from
  -- the first that is not empty; nothing else is there.
  lines-migrated_config : lines (migrated_config text) ≡ laid_out (user_lines text)
  lines-migrated_config =
      ap lines (migrated_config-join_lines text)
      ∙ lines-with_include (retain is_user_line (lines text))
          (retain-all is_user_line is_line (lines text) (lines-is_line text))
          (retain-all is_user_line ends_plainly (lines text) plain)

  -- To migrate such a configuration twice is to migrate it once.
  migrated_config-migrated_config : migrated_config (migrated_config text) ≡ migrated_config text
  migrated_config-migrated_config =
      migrated_config-join_lines (migrated_config text)
      ∙ (ap (λ ls. with_include (join_lines (drop_empty (retain is_user_line ls))))
            lines-migrated_config
          ∙ (ap (λ ls. with_include (join_lines ls)) (user_lines-laid_out (lines text))
              ∙ sym (migrated_config-join_lines text)))
