-- ===== src/Build/Pinned.antt =====
-- What the loop of src-tauri/build.rs keeps: what is copied was verified, and nothing is left out.
use keynoxis.Base.{
  Bool, true, false, ◌||◌, List, [], ◌∷◌, ◌++◌, Option, none, some, List_eq, Nat_eq, ok, err,
  contains, all, All, is_some, map, ◌≡◌, refl, ap, sym, ◌∙◌, arith, Bool-cases, inl, inr,
  if◌then◌else◌, eq_self, ◌==◌, Result,
}
use keynoxis.Agent.Integration.{Text}
use keynoxis.Build.{
  Mac, Bundle, Step, verify_native_dependency, dependencies, process_at, place_named,
  place_verified, queued,
}
use keynoxis.Build.Verified.{IsPinned, verify_native_dependency-IsPinned}

-- The library that a path names is among these.
abbrev pub found : List Text → Option Text → Bool
found seen none = false
found seen (some c) = contains seen c

-- It is visited, or it waits in the queue.
abbrev pub covered : Mac → List Text → List Text → Text → Bool
covered m queue seen d = found seen (m.canonicalize d) || contains queue d

abbrev pub all_covered : Mac → List Text → List Text → Text → Bool
all_covered m queue seen source = all (covered m queue seen) (dependencies m source)

abbrev pub Pinned : Mac → Text × Text → Type 0
Pinned m (name, source) = IsPinned m name source

abbrev pub source_of : Text × Text → Text
source_of (name, source) = source

-- What is copied is verified and is what was visited; what it needs is visited or waits, and so is
-- the root; the result is set when the root was visited.
pub record IsKept (m : Mac) (root : Text) (s : Bundle) : Type 0 where
  pub pinned : All (Pinned m) s.copies
  pub copied : map source_of s.copies ≡ s.seen
  pub needs : all (all_covered m s.queue s.seen) s.seen ≡ true
  pub rooted : covered m s.queue s.seen root ≡ true
  pub returned : is_some s.root_copy ≡ contains s.seen root

abbrev pub OnNext : (Bundle → Type 0) → Step → Type 0
OnNext P (Step.next s) = P s
OnNext P Step.stop = Unit
OnNext P (Step.panic e) = Unit

module _ {A : Type 0} where
  pub all_weaker :
      (p q : A → Bool)
      → ((x : A) → p x ≡ true → q x ≡ true)
      → (xs : List A) → all p xs ≡ true
      → all q xs ≡ true
  all_weaker p q f [] h = refl
  all_weaker p q f (x ∷ xs) h = ground (arith, f x, all_weaker p q f xs)

pub here : (x : Text) (xs : List Text) → contains (x ∷ xs) x ≡ true
here x xs = rw (eq_self x) refl

all_of :
    (p : Text → Bool) (xs : List Text)
    → ((x : Text) → contains xs x ≡ true → p x ≡ true)
    → all p xs ≡ true
all_of p [] f = refl
all_of p (x ∷ xs) f = ground (arith, f x (here x xs), all_of p xs (λ y h. f y (ground (arith, h))))

contains_append :
    (xs ys : List Text) (x : Text) → contains (xs ++ ys) x ≡ (contains xs x || contains ys x)
contains_append [] ys x = refl
contains_append (y ∷ xs) ys x = ground (arith, contains_append xs ys x)

module _ (m : Mac) (root source c : Text) (named : m.canonicalize source ≡ some c) where
  -- The path that is taken from the queue names the library c.
  found_source :
      (seen : List Text) (d : Text) → source ≡ d → contains seen c ≡ found seen (m.canonicalize d)
  found_source seen d h = ap (found seen) (sym named ∙ ap m.canonicalize h)

  covered_again :
      (rest seen : List Text)
      → contains seen c ≡ true
      → (d : Text) → covered m (source ∷ rest) seen d ≡ true
      → covered m rest seen d ≡ true
  covered_again rest seen known d h = elim (Bool-cases (List_eq.test source d)) [
    | inl e ↦ ground (arith, h, known, found_source seen d ((List_eq.test_iff source d).0 e))
    | inr e ↦ ground (arith, h, e)
  ]

  found_wider :
      (seen : List Text) (o : Option Text) → found seen o ≡ true → found (c ∷ seen) o ≡ true
  found_wider seen none h = h
  found_wider seen (some x) h = ground (arith, h)

  covered_wider :
      (rest more seen : List Text) (d : Text)
      → covered m (source ∷ rest) seen d ≡ true
      → covered m (rest ++ more) (c ∷ seen) d ≡ true
  covered_wider rest more seen d h = elim (Bool-cases (List_eq.test source d)) [
    | inl e ↦
        ground (arith, found_source (c ∷ seen) d ((List_eq.test_iff source d).0 e), here c seen)
    | inr e ↦ ground (arith, h, e, found_wider seen (m.canonicalize d), contains_append rest more d)
  ]

  module _ (rest : List Text) (s : Bundle) where
    abbrev taken : Bundle
    taken = record s { queue = source ∷ rest }

    known-IsKept :
        IsKept m root taken → contains s.seen c ≡ true → IsKept m root (record s { queue = rest })
    known-IsKept k known = record {
      pinned = k.pinned;
      copied = k.copied;
      needs =
          all_weaker (all_covered m (source ∷ rest) s.seen) (all_covered m rest s.seen)
            (λ l.
              all_weaker (covered m (source ∷ rest) s.seen) (covered m rest s.seen)
                (covered_again rest s.seen known) (dependencies m l))
            s.seen k.needs;
      rooted = covered_again rest s.seen known root k.rooted;
      returned = k.returned;
    }

    module _ (output : Text) (k : IsKept m root taken) where
      abbrev visiting : Bundle
      visiting = record s { queue = rest; seen = c ∷ s.seen }

      returned-queued :
          (destination : Text)
          → is_some (if c == root then some destination else s.root_copy)
            ≡ contains (c ∷ s.seen) root
      returned-queued destination = elim (Bool-cases (List_eq.test c root)) [
        | inl e ↦ rw e refl
        | inr e ↦ rw e k.returned
      ]

      queued-IsKept :
          (name destination : Text)
          → verify_native_dependency m c name ≡ ok tt
          → IsKept m root (queued m output root c name destination visiting)
      queued-IsKept name destination verified = record {
        pinned = (verify_native_dependency-IsPinned m name c verified, k.pinned);
        copied = ap (◌∷◌ c) k.copied;
        needs = ground (arith, own, others);
        rooted = covered_wider rest (dependencies m c) s.seen root k.rooted;
        returned = returned-queued destination;
      }
        where
          after : Text → Bool
          after = covered m (rest ++ dependencies m c) (c ∷ s.seen)

          own : all after (dependencies m c) ≡ true
          own =
              all_of after (dependencies m c)
                (λ d h. ground (arith, h, contains_append rest (dependencies m c) d))

          others : all (λ l. all after (dependencies m l)) s.seen ≡ true
          others =
              all_weaker (all_covered m (source ∷ rest) s.seen) (λ l. all after (dependencies m l))
                (λ l.
                  all_weaker (covered m (source ∷ rest) s.seen) after
                    (covered_wider rest (dependencies m c) s.seen) (dependencies m l))
                s.seen k.needs

      if-OnNext :
          (b : Bool) {t : Bundle}
          → IsKept m root t
          → OnNext (IsKept m root) (if b then Step.next t else Step.stop)
      if-OnNext true h = h
      if-OnNext false h = tt

      verified-OnNext :
          (name : Text) (r : Result (Unit {0}))
          → verify_native_dependency m c name ≡ r
          → OnNext (IsKept m root) (place_verified m output root c name r visiting)
      verified-OnNext name (err e) h = tt
      verified-OnNext name (ok u) h = if-OnNext _ (queued-IsKept name _ h)

      named-OnNext :
          (o : Option Text) → OnNext (IsKept m root) (place_named m output root c o visiting)
      named-OnNext none = tt
      named-OnNext (some name) = verified-OnNext name _ refl

      pub process_at-OnNext :
          OnNext (IsKept m root) (process_at m output root (some c) (record s { queue = rest }))
      process_at-OnNext = elim (Bool-cases (contains s.seen c)) [
        | inl e ↦ rw e (known-IsKept k e)
        | inr e ↦ rw e (named-OnNext _)
      ]
