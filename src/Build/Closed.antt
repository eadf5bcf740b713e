-- ===== src/Build/Closed.antt =====
-- What src-tauri/build.rs puts beside the program, when it succeeds.
use keynoxis.Base.{
  ℕ, zero, suc, Bool, true, false, List, [], ◌∷◌, Option, none, some, List_eq, Nat_eq, contains,
  all, All, is_some, map, ◌≡◌, refl, arith, subst, ap, sym, ◌∙◌, if◌then◌else◌,
}
use keynoxis.Agent.Integration.{Text}
use keynoxis.Build.{
  Mac, Bundle, Step, Run, dependencies, process, process_at, bundle_loop, then_run, bundle_in,
  bundle_root, bundle_macos_libfido2, root_of, begin_bundle,
}
use keynoxis.Build.Pinned.{
  Pinned, source_of, IsKept, OnNext, found, covered, all_covered, all_weaker, process_at-OnNext,
  here,
}

abbrev pub located : Mac → List Text → Text → Bool
located m seen d = found seen (m.canonicalize d)

-- What is copied has the pinned digest of its name; each library that a copy needs is copied,
-- and so is the root, whose copy is the result.
pub record IsClosed (m : Mac) (root : Text) (s : Bundle) : Type 0 where
  pub pinned : All (Pinned m) s.copies
  pub needs :
      all
        (λ l. all (located m (map source_of s.copies)) (dependencies m l))
        (map source_of s.copies)
      ≡ true
  pub rooted : located m (map source_of s.copies) root ≡ true
  pub returned : is_some s.root_copy ≡ contains (map source_of s.copies) root

abbrev OnDone : (Bundle → Type 0) → Run → Type 0
OnDone P (Run.done s) = P s
OnDone P _ = Unit

then_run-OnDone :
    (P Q : Bundle → Type 0) (r : Step) (k : Bundle → Run)
    → OnNext P r
    → ((s : Bundle) → P s → OnDone Q (k s))
    → OnDone Q (then_run r k)
then_run-OnDone P Q (Step.next s) k h f = f s h
then_run-OnDone P Q Step.stop k h f = tt
then_run-OnDone P Q (Step.panic e) k h f = tt

module _ (m : Mac) (output root : Text) where
  process-OnNext :
      (source : Text) (rest : List Text) (s : Bundle)
      → IsKept m root (record s { queue = source ∷ rest })
      → OnNext (IsKept m root) (process m output root source (record s { queue = rest }))
  unfolding process
  process-OnNext source rest s k = canonical (m.canonicalize source) refl
    where
      canonical :
          (o : Option Text)
          → m.canonicalize source ≡ o
          → OnNext (IsKept m root) (process_at m output root o (record s { queue = rest }))
      canonical none h = tt
      canonical (some c) h = process_at-OnNext m root source c h rest s output k

  covered-located :
      (seen : List Text) (d : Text) → covered m [] seen d ≡ true → located m seen d ≡ true
  covered-located seen d h = ground (arith, h)

  kept-IsClosed : (s : Bundle) → IsKept m root (record s { queue = [] }) → IsClosed m root s
  kept-IsClosed s k = record {
    pinned = k.pinned;
    needs = rw k.copied (
        all_weaker (all_covered m [] s.seen) (λ l. all (located m s.seen) (dependencies m l))
          (λ l.
            all_weaker (covered m [] s.seen) (located m s.seen) (covered-located s.seen)
              (dependencies m l))
          s.seen k.needs);
    rooted = rw k.copied (covered-located s.seen root k.rooted);
    returned = rw k.copied k.returned;
  }

  bundle_loop-OnDone :
      (n : ℕ) (s : Bundle)
      → IsKept m root s
      → OnDone (IsClosed m root) (bundle_loop m output root n s)
  unfolding bundle_loop
  bundle_loop-OnDone zero s k = tt
  bundle_loop-OnDone (suc n) s k = taken s.queue k (bundle_loop-OnDone n)
    where
      taken :
          (q : List Text)
          → IsKept m root (record s { queue = q })
          → ((t : Bundle)
              → IsKept m root t
              → OnDone (IsClosed m root) (bundle_loop m output root n t))
          → OnDone (IsClosed m root) (elim q [
            | [] ↦ Run.done s
            | source ∷ rest ↦
                then_run
                  (process m output root source (record s { queue = rest }))
                  (bundle_loop m output root n)
          ])
      taken [] h f = kept-IsClosed s h
      taken (source ∷ rest) h f =
          then_run-OnDone (IsKept m root) (IsClosed m root) _ _ (process-OnNext source rest s h) f

  begin-IsKept : IsKept m root (begin_bundle root)
  begin-IsKept = record {
    pinned = tt;
    copied = refl;
    needs = refl;
    rooted = ground (arith, here root []);
    returned = refl;
  }

module _ (m : Mac) (fuel : ℕ) (root : Text) where
  if-OnDone :
      (b : Bool) (r : Run)
      → OnDone (IsClosed m root) r
      → OnDone (IsClosed m root) (if b then r else Run.stopped)
  if-OnDone true r h = h
  if-OnDone false r h = tt

  in-OnDone : (o : Option Text) → OnDone (IsClosed m root) (bundle_in m fuel root o)
  in-OnDone none = tt
  in-OnDone (some manifest) =
      if-OnDone _ _ (bundle_loop-OnDone m _ root fuel _ (begin-IsKept m manifest root))

  -- When the native libraries are put beside the program, each copy is of a file that has the digest
  -- that is pinned first for the name of the copy; each library under Homebrew's or the local prefix
  -- that a copied one needs is copied too, and so is libfido2; the result is a path if the path of
  -- libfido2 itself is among those copied.
  pub bundle_macos_libfido2-IsClosed :
      (s : Bundle)
      → root_of m ≡ some root
      → bundle_macos_libfido2 m fuel ≡ Run.done s
      → IsClosed m root s
  unfolding bundle_macos_libfido2
  bundle_macos_libfido2-IsClosed s h k =
      subst (OnDone (IsClosed m root)) (ap (bundle_root m fuel) (sym h) ∙ k)
        (in-OnDone m.manifest_dir)
