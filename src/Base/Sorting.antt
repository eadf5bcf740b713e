-- ===== src/Base/Sorting.antt =====
-- `sort_by`, which is stable, so that its comparator determines its result; the order of `str::cmp`,
-- and `sort`, `dedup` and `join` on texts.
use Prim.Native.Nat.{suc}
use Prim.Native.String.{String, ◌++◌ as concat}
use mathlib.Core.Path.{◌≡◌, refl}
use mathlib.Core.Logic.{◌⊎◌, inl, inr}
use mathlib.Core.Bool.{Bool, true, false, ◌&&◌, ◌||◌}
use mathlib.Core.List.{List, [], ◌∷◌, Perm}
use mathlib.Core.List.Perm
use mathlib.Core.List.{Memᴰ}
use native.Mathlib.Omega.{arith}
use keynoxis.Base.Tests.{if◌then◌else◌, ltb, nat_eq, Bool-cases}
use keynoxis.Base.Equality.{◌==◌, String_eq}
use keynoxis.Base.Lists.{All, length}
use keynoxis.Base.Text.{Bytes, as_bytes}

-- `le a b` says that `a` may stand before `b`.
module _ {ℓ} {A : Type ℓ} (le : A → A → Bool) where
  unfoldable pub insert_by : A → List A → List A
  insert_by a [] = a ∷ []
  insert_by a (b ∷ bs) = let rest = insert_by a bs in if le a b then a ∷ b ∷ bs else b ∷ rest

  unfoldable pub sort_by : List A → List A
  sort_by [] = []
  sort_by (a ∷ as1) = insert_by a (sort_by as1)

  -- Each element may stand before all that follow it.
  abbrev pub Sorted : List A → Type ℓ
  Sorted [] = Unit
  Sorted (a ∷ as1) = All (λ b. le a b ≡ true) as1 × Sorted as1

  insert_by-perm : (a : A) (bs : List A) → Perm (insert_by a bs) (a ∷ bs)
  unfolding insert_by
  insert_by-perm a [] = Perm.refl (a ∷ [])
  insert_by-perm a (b ∷ bs) = elim (Bool-cases (le a b)) [
    | inl before ↦ rw before (Perm.refl (a ∷ b ∷ bs))
    | inr behind ↦ rw behind (Perm.trans (Perm.cons b (insert_by-perm a bs)) (Perm.swap a b bs))
  ]

  pub sort_by-perm : (as1 : List A) → Perm (sort_by as1) as1
  unfolding sort_by
  sort_by-perm [] = Perm.refl []
  sort_by-perm (a ∷ as1) =
      Perm.trans (insert_by-perm a (sort_by as1)) (Perm.cons a (sort_by-perm as1))

  All-insert_by {κ} :
      (P : A → Type κ) (a : A) (bs : List A) → P a → All P bs → All P (insert_by a bs)
  unfolding insert_by
  All-insert_by P a [] p h = (p, tt)
  All-insert_by P a (b ∷ bs) p h = elim (Bool-cases (le a b)) [
    | inl before ↦ rw before (p, h)
    | inr behind ↦ rw behind (h.0, All-insert_by P a bs p h.1)
  ]

  pub All-sort_by {κ} : (P : A → Type κ) (as1 : List A) → All P as1 → All P (sort_by as1)
  unfolding sort_by
  All-sort_by P [] h = tt
  All-sort_by P (a ∷ as1) h = All-insert_by P a (sort_by as1) h.0 (All-sort_by P as1 h.1)

  -- An element is still there.
  Mem-second :
      {x a b : A} {bs rest : List A}
      → (Memᴰ x (a ∷ bs) → Memᴰ x rest)
      → Memᴰ x (a ∷ b ∷ bs)
      → Memᴰ x (b ∷ rest)
  Mem-second f (Memᴰ.head e) = Memᴰ.tail (f (Memᴰ.head e))
  Mem-second f (Memᴰ.tail (Memᴰ.head e)) = Memᴰ.head e
  Mem-second f (Memᴰ.tail (Memᴰ.tail d)) = Memᴰ.tail (f (Memᴰ.tail d))

  Mem-insert_by : {x : A} (a : A) (bs : List A) → Memᴰ x (a ∷ bs) → Memᴰ x (insert_by a bs)
  unfolding insert_by
  Mem-insert_by a [] h = h
  Mem-insert_by a (b ∷ bs) h = elim (Bool-cases (le a b)) [
    | inl before ↦ rw before h
    | inr behind ↦ rw behind (Mem-second (Mem-insert_by a bs) h)
  ]

  pub Mem-sort_by : {x : A} (as1 : List A) → Memᴰ x as1 → Memᴰ x (sort_by as1)
  unfolding sort_by
  Mem-sort_by [] h = elim h [ ]
  Mem-sort_by (a ∷ as1) (Memᴰ.head e) = Mem-insert_by a (sort_by as1) (Memᴰ.head e)
  Mem-sort_by (a ∷ as1) (Memᴰ.tail d) =
      Mem-insert_by a (sort_by as1) (Memᴰ.tail (Mem-sort_by as1 d))

  length-insert_by : (a : A) (bs : List A) → length (insert_by a bs) ≡ suc (length bs)
  unfolding insert_by
  length-insert_by a [] = refl
  length-insert_by a (b ∷ bs) = ground (arith, length-insert_by a bs)

  pub length-sort_by : (as1 : List A) → length (sort_by as1) ≡ length as1
  unfolding sort_by
  length-sort_by [] = refl
  length-sort_by (a ∷ as1) = omega (arith, length-insert_by a (sort_by as1), length-sort_by as1)

  module _ (total : (a b : A) → le a b ≡ false → le b a ≡ true)
      (trans : (a b c : A) → le a b ≡ true → le b c ≡ true → le a c ≡ true) where
    All-trans :
        (a b : A) (cs : List A)
        → le a b ≡ true
        → All (λ c. le b c ≡ true) cs
        → All (λ c. le a c ≡ true) cs
    All-trans a b [] h k = tt
    All-trans a b (c ∷ cs) h k = (trans a b c h k.0, All-trans a b cs h k.1)

    insert_by-Sorted : (a : A) (bs : List A) → Sorted bs → Sorted (insert_by a bs)
    unfolding insert_by
    insert_by-Sorted a [] s = (tt, tt)
    insert_by-Sorted a (b ∷ bs) s = elim (Bool-cases (le a b)) [
      | inl before ↦ rw before ((before, All-trans a b bs before s.0), s)
      | inr behind ↦ rw behind (
        All-insert_by (λ c. le b c ≡ true) a bs (total a b behind) s.0,
        insert_by-Sorted a bs s.1,
      )
    ]

    pub sort_by-Sorted : (as1 : List A) → Sorted (sort_by as1)
    unfolding sort_by
    sort_by-Sorted [] = tt
    sort_by-Sorted (a ∷ as1) = insert_by-Sorted a (sort_by as1) (sort_by-Sorted as1)

-- `str::cmp`: the bytes in lexical order.
abbrev pub bytes_le : Bytes → Bytes → Bool
bytes_le [] ys = true
bytes_le (x ∷ xs) [] = false
bytes_le (x ∷ xs) (y ∷ ys) = ltb x y || (nat_eq x y && bytes_le xs ys)

abbrev pub text_le : String → String → Bool
text_le a b = bytes_le (as_bytes a) (as_bytes b)

pub bytes_le_total : (a b : Bytes) → (bytes_le a b ≡ true) ⊎ (bytes_le b a ≡ true)
bytes_le_total [] b = inl refl
bytes_le_total (x ∷ a) [] = inr refl
bytes_le_total (x ∷ a) (y ∷ b) = ground (arith, bytes_le_total a b)

pub bytes_le_trans :
    (a b c : Bytes) → bytes_le a b ≡ true → bytes_le b c ≡ true → bytes_le a c ≡ true
bytes_le_trans [] b c h k = refl
bytes_le_trans (x ∷ a) [] c h k = cc
bytes_le_trans (x ∷ a) (y ∷ b) [] h k = cc
bytes_le_trans (x ∷ a) (y ∷ b) (z ∷ c) h k = ground (arith, bytes_le_trans a b c)

-- `dedup`: of equal neighbours the first stays.
abbrev pub dedup : List String → List String
dedup [] = []
dedup (t ∷ ts) = keep_first t (dedup ts)
  where
    keep_first : String → List String → List String
    keep_first t [] = t ∷ []
    keep_first t (u ∷ us) = if t == u then t ∷ us else t ∷ u ∷ us

abbrev pub join_texts : String → List String → String
join_texts separator [] = ""
join_texts separator (t ∷ ts) = join_to t ts
  where
    join_to : String → List String → String
    join_to t [] = t
    join_to t (u ∷ us) = concat t (concat separator (join_to u us))
