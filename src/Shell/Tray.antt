-- ===== src/Shell/Tray.antt =====
-- The tray of src-tauri/src/lib.rs and the answer that src-tauri/src/agent/server.rs gives to its clients.
use Prim.Native.String.{◌++◌ as concat}
use mathlib.Core.List.{Memᴰ}
use keynoxis.Base.{
  ℕ, zero, suc, ◌≤◌, Bool, true, false, List, [], ◌∷◌, Option, none, some, String, if◌then◌else◌,
  length, take, retain, All, is_empty, chars, join_texts, Mem-sort_by, length-sort_by, length-take,
  ◌≡◌, refl, arith, ap, ◌∙◌, sym, subst,
}
use keynoxis.State.{RuntimeState, SshKey}
use keynoxis.Agent.Identities.{offered_keys, sort_keys, key_le}
use keynoxis.Agent.Identities.Answer.{visible_keys}
use keynoxis.Shell.{
  tray_texts, tray_names, with_comment, comments, is_shown, is_enabled, enabled_count, keys_text,
}

take-All : {A : Type 0} (P : A → Type 0) (n : ℕ) (xs : List A) → All P xs → All P (take n xs)
take-All P zero xs h = tt
take-All P (suc n) [] h = tt
take-All P (suc n) (x ∷ xs) (h, k) = (h, take-All P n xs k)

-- The name is the comment of a key of the list.
abbrev pub Names : List SshKey → String → Type 0
Names ks name = (k : SshKey) × Memᴰ k ks × (k.comment ≡ some name)

names_later :
    (k : SshKey) (ks : List SshKey) (names : List String)
    → All (Names ks) names
    → All (Names (k ∷ ks)) names
names_later k ks [] h = tt
names_later k ks (n ∷ names) ((j, m, c), h) = ((j, Memᴰ.tail m, c), names_later k ks names h)

with_comment-Names :
    (k : SshKey) (ks : List SshKey) (o : Option String)
    → k.comment ≡ o
    → All (Names ks) (comments ks)
    → All (Names (k ∷ ks)) (with_comment o (comments ks))
with_comment-Names k ks none e h = names_later k ks (comments ks) h
with_comment-Names k ks (some name) e h = ((k, Memᴰ.head refl, e), names_later k ks (comments ks) h)

comments-Names : (ks : List SshKey) → All (Names ks) (comments ks)
comments-Names [] = tt
comments-Names (k ∷ ks) = with_comment-Names k ks k.comment refl (comments-Names ks)

retain-false :
    (p : SshKey → Bool) (ks : List SshKey) → ((k : SshKey) → p k ≡ false) → retain p ks ≡ []
retain-false p [] f = refl
retain-false p (k ∷ ks) f = ground (arith, f k, retain-false p ks f)

retain-same :
    (p q : SshKey → Bool) (ks : List SshKey)
    → ((k : SshKey) → p k ≡ q k)
    → retain p ks ≡ retain q ks
retain-same p q [] f = refl
retain-same p q (k ∷ ks) f = ground (arith, f k, retain-same p q ks f)

-- The names behind the count.
abbrev pub names_text : String → String
names_text names = if is_empty (chars names) then " identities" else concat " identities · " names

module _ (to_string : ℕ → String) (to_lowercase : String → String) where
  -- What the tray says of the keys: how many a client is shown, and names that are theirs.
  pub record IsTruthful (r : RuntimeState) : Type 0 where
    pub text :
        (tray_texts to_string r.app).keys
        ≡ concat
            (to_string (length (visible_keys to_lowercase r)))
            (names_text (join_texts ", " (tray_names r.app)))
    pub named : All (Names (visible_keys to_lowercase r)) (tray_names r.app)
    pub few : length (tray_names r.app) ≤ 3

  shown_keys :
      (b : Bool) (r : RuntimeState)
      → r.app.agent_locked ≡ b
      → retain (is_shown r.app) r.app.keys ≡ (if b then [] else retain is_enabled r.app.keys)
  shown_keys true r e = retain-false (is_shown r.app) r.app.keys (λ k. rw e refl)
  shown_keys false r e = retain-same (is_shown r.app) is_enabled r.app.keys (λ k. rw e refl)

  offered_Names :
      (r : RuntimeState) (names : List String)
      → All (Names (retain is_enabled r.app.keys)) names
      → All (Names (offered_keys to_lowercase r)) names
  unfolding sort_keys
  offered_Names r [] h = tt
  offered_Names r (n ∷ names) ((k, m, c), h) = (
    (k, Mem-sort_by (key_le to_lowercase r.preferred_backend) (retain is_enabled r.app.keys) m, c),
    offered_Names r names h,
  )

  first_Names :
      (b : Bool) (r : RuntimeState)
      → All
          (Names (if b then [] else offered_keys to_lowercase r))
          (take 3 (comments (if b then [] else retain is_enabled r.app.keys)))
  first_Names true r = tt
  first_Names false r =
      take-All (Names (offered_keys to_lowercase r)) 3 (comments (retain is_enabled r.app.keys))
        (offered_Names r _ (comments-Names (retain is_enabled r.app.keys)))

  names_lem :
      (b : Bool) (r : RuntimeState)
      → r.app.agent_locked ≡ b
      → tray_names r.app ≡ take 3 (comments (if b then [] else retain is_enabled r.app.keys))
  unfolding tray_names
  names_lem b r e = ap (λ ks. take 3 (comments ks)) (shown_keys b r e)

  count_lem :
      (r : RuntimeState)
      → length (offered_keys to_lowercase r) ≡ length (retain is_enabled r.app.keys)
  unfolding sort_keys
  count_lem r =
      length-sort_by (key_le to_lowercase r.preferred_backend) (retain is_enabled r.app.keys)

  text_lem :
      (b : Bool) (n m : ℕ) (names : List String)
      → m ≡ n
      → (b ≡ true → names ≡ [])
      → keys_text to_string b n (join_texts ", " names)
        ≡ concat (to_string (if b then 0 else m)) (names_text (join_texts ", " names))
  text_lem true n m names e f = rw (f refl) refl
  text_lem false n m names e f = rw e (same (is_empty (chars (join_texts ", " names))))
    where
      same :
          (z : Bool)
          → (if z
              then concat (to_string n) " identities"
              else concat (to_string n) (concat " identities · " (join_texts ", " names)))
            ≡ concat
                (to_string n)
                (if z then " identities" else concat " identities · " (join_texts ", " names))
      same true = refl
      same false = refl

  visible_count :
      (b : Bool) (r : RuntimeState)
      → (if b then 0 else length (offered_keys to_lowercase r))
        ≡ length (if b then [] else offered_keys to_lowercase r)
  visible_count true r = refl
  visible_count false r = refl

  no_names :
      (b : Bool) (ks : List SshKey) → b ≡ true → take 3 (comments (if b then [] else ks)) ≡ []
  no_names true ks e = refl
  no_names false ks e = cc

  -- The tray says how many identities a client of the agent is shown, and of their names at most
  -- three: while the agent is locked there are none.
  pub tray_texts-IsTruthful : (r : RuntimeState) → IsTruthful r
  unfolding tray_texts
  tray_texts-IsTruthful r =
      let b = r.app.agent_locked in
      let names = names_lem b r refl in
      record {
        text =
            text_lem b (enabled_count r.app) (length (offered_keys to_lowercase r))
              (tray_names r.app) (count_lem r)
              (λ e. names ∙ no_names b (retain is_enabled r.app.keys) e)
            ∙ ap (λ n. concat (to_string n) (names_text (join_texts ", " (tray_names r.app))))
                (visible_count b r);
        named = subst (All (Names (visible_keys to_lowercase r))) (sym names) (first_Names b r);
        few = omega (
          arith,
          ap length names,
          length-take 3 (comments (if b then [] else retain is_enabled r.app.keys)),
        );
      }
