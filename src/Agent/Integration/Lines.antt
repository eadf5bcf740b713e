-- ===== src/Agent/Integration/Lines.antt =====
-- Texts and their lines, as src-tauri/src/agent/integration.rs takes them apart and joins them.
use keynoxis.Base.{
  ℕ, Bool, true, false, not, ◌&&◌, List, [], ◌∷◌, ◌++◌, ◌==◌, Nat_eq, is_empty, retain, ◌≡◌, refl,
  ap, arith, inl, inr, Bool-cases, ◌∙◌, all, append_assoc,
}
use keynoxis.Agent.Integration.{Text, lines, at_newline, prepend, join_lines, trim_newlines}

-- A line that does not end with a carriage return.
abbrev pub ends_plainly : Text → Bool
ends_plainly [] = true
ends_plainly (c ∷ cs) = not (c == 13 && is_empty cs) && ends_plainly cs

-- A line without line feeds.
abbrev pub is_line : Text → Bool
is_line [] = true
is_line (c ∷ cs) = not (c == 10) && is_line cs

abbrev pub drop_empty : List Text → List Text
drop_empty [] = []
drop_empty ([] ∷ rest) = drop_empty rest
drop_empty ((c ∷ cs) ∷ rest) = (c ∷ cs) ∷ rest

prepend-is_line :
    (c : ℕ) (ls : List Text)
    → (c == 10) ≡ false
    → all is_line ls ≡ true
    → all is_line (prepend c ls) ≡ true
prepend-is_line c [] h k = ground arith
prepend-is_line c (l ∷ ls) h k = ground arith

pub lines-is_line : (text : Text) → all is_line (lines text) ≡ true
lines-is_line [] = refl
lines-is_line (c ∷ cs) = elim (Bool-cases (c == 10)) [
  | inl newline ↦ rw newline (lines-is_line cs)
  | inr other ↦ rw other (elim (Bool-cases (c == 13 && at_newline cs)) [
    | inl return ↦ rw return (lines-is_line cs)
    | inr plain ↦ rw plain (prepend-is_line c (lines cs) other (lines-is_line cs))
  ])
]

-- A line comes back from the text that it begins.
pub lines-line :
    (line rest : Text)
    → is_line line ≡ true
    → ends_plainly line ≡ true
    → lines (line ++ (10 ∷ rest)) ≡ line ∷ lines rest
lines-line [] rest h k = refl
lines-line (c ∷ []) rest h k = ground arith
lines-line (c ∷ d ∷ cs) rest h k = ground (arith, lines-line (d ∷ cs) rest)

-- So does a list of lines that is not empty.
pub lines-join_lines :
    (line : Text) (rest : List Text)
    → all is_line (line ∷ rest) ≡ true
    → all ends_plainly (line ∷ rest) ≡ true
    → lines (join_lines (line ∷ rest) ++ (10 ∷ [])) ≡ line ∷ rest
lines-join_lines line [] h k = lines-line line [] (ground (arith, h)) (ground (arith, k))
lines-join_lines line (next ∷ rest) h k =
    ap lines (append_assoc line (10 ∷ join_lines (next ∷ rest)) (10 ∷ []))
    ∙ (lines-line line (join_lines (next ∷ rest) ++ (10 ∷ [])) (ground (arith, h))
          (ground (arith, k))
        ∙ ap (◌∷◌ line) (lines-join_lines next rest (ground (arith, h)) (ground (arith, k))))

-- To trim the joined lines is to leave out the empty lines at the front.
pub trim_newlines-join_lines :
    (ls : List Text)
    → all is_line ls ≡ true
    → trim_newlines (join_lines ls) ≡ join_lines (drop_empty ls)
trim_newlines-join_lines [] h = refl
trim_newlines-join_lines ([] ∷ []) h = refl
trim_newlines-join_lines ([] ∷ next ∷ rest) h = trim_newlines-join_lines (next ∷ rest) h
trim_newlines-join_lines ((c ∷ cs) ∷ []) h = ground arith
trim_newlines-join_lines ((c ∷ cs) ∷ next ∷ rest) h = ground arith

module _ (keep : Text → Bool) (p : Text → Bool) where
  pub retain-all : (ls : List Text) → all p ls ≡ true → all p (retain keep ls) ≡ true
  retain-all [] h = refl
  retain-all (l ∷ ls) h = ground (arith, retain-all ls)

pub drop_empty-all :
    (p : Text → Bool) (ls : List Text) → all p ls ≡ true → all p (drop_empty ls) ≡ true
drop_empty-all p [] h = refl
drop_empty-all p ([] ∷ ls) h = drop_empty-all p ls (ground arith)
drop_empty-all p ((c ∷ cs) ∷ ls) h = h

pub drop_empty-drop_empty : (ls : List Text) → drop_empty (drop_empty ls) ≡ drop_empty ls
drop_empty-drop_empty [] = refl
drop_empty-drop_empty ([] ∷ ls) = drop_empty-drop_empty ls
drop_empty-drop_empty ((c ∷ cs) ∷ ls) = refl
