-- ===== src/Build/Ends.antt =====
-- The loop of src-tauri/build.rs ends: a library is visited once, and a path of the queue is taken.
use keynoxis.Base.{
  ℕ, zero, suc, ◌+◌, ◌<◌, ◌≤◌, Bool, true, false, List, [], ◌∷◌, Option, none, some, List_eq,
  Nat_eq, contains, length, length-append, ◌≡◌, refl, arith, if◌then◌else◌, Bool-cases, inl, inr,
  Result, ok, err, sym, chars, subst, eq_self,
}
use keynoxis.Agent.Files.{join}
use keynoxis.Agent.Integration.{Text}
use keynoxis.Build.{
  Mac, Bundle, Step, Run, dependencies, process, process_at, bundle_loop, then_run, bundle_in,
  bundle_root, bundle_macos_libfido2, root_of, begin_bundle, place_named, place_verified,
}

abbrev pub finished : Run → Bool
finished Run.out_of_fuel = false
finished _ = true

-- What the libraries that are not visited need.
abbrev pub pending : Mac → List Text → List Text → ℕ
pending m [] seen = 0
pending m (u ∷ us) seen =
    (if contains seen u then 0 else length (dependencies m u)) + pending m us seen

abbrev OnSize : (Bundle → ℕ) → ℕ → Step → Type 0
OnSize size n (Step.next s) = size s ≤ n
OnSize size n _ = Unit

module _ (m : Mac) where
  pending_less : (us seen : List Text) (c : Text) → pending m us (c ∷ seen) ≤ pending m us seen
  pending_less [] seen c = ground arith
  pending_less (u ∷ us) seen c = ground (arith, pending_less us seen c)

  pending-visit :
      (us seen : List Text) (c : Text)
      → contains us c ≡ true
      → contains seen c ≡ false
      → pending m us (c ∷ seen) + length (dependencies m c) ≤ pending m us seen
  pending-visit [] seen c h k = cc
  pending-visit (u ∷ us) seen c h k = elim (Bool-cases (List_eq.test u c)) [
    | inl e ↦ visited ((List_eq.test_iff u c).0 e)
    | inr e ↦ ground (arith, pending-visit us seen c (ground (arith, h, e)) k)
  ]
    where
      visited :
          u ≡ c
          → pending m (u ∷ us) (c ∷ seen) + length (dependencies m c) ≤ pending m (u ∷ us) seen
      visited e =
          subst
            (λ x.
              pending m (x ∷ us) (c ∷ seen) + length (dependencies m c) ≤ pending m (x ∷ us) seen)
            (sym e) (rw (eq_self c, k) (omega (arith, pending_less us seen c)))

module _ (m : Mac) (universe : List Text) where
  -- What is left: the queue, and what the libraries that are not visited will add to it.
  abbrev pub size : Bundle → ℕ
  size s = length s.queue + pending m universe s.seen

  module _ (output root : Text) where
    then_run-finished :
        (n : ℕ) (r : Step) (k : Bundle → Run)
        → OnSize size n r
        → ((s : Bundle) → size s ≤ n → finished (k s) ≡ true)
        → finished (then_run r k) ≡ true
    then_run-finished n (Step.next s) k h f = f s h
    then_run-finished n Step.stop k h f = refl
    then_run-finished n (Step.panic e) k h f = refl

    module _ (c : Text) (rest : List Text) (s : Bundle) (is_library : contains universe c ≡ true)
        (is_new : contains s.seen c ≡ false) where
      abbrev visiting : Bundle
      visiting = record s { queue = rest; seen = c ∷ s.seen }

      if-OnSize :
          (b : Bool) (t : Bundle) (n : ℕ)
          → size t ≤ n
          → OnSize size n (if b then Step.next t else Step.stop)
      if-OnSize true t n h = h
      if-OnSize false t n h = tt

      abbrev left : ℕ
      left = length rest + pending m universe s.seen

      verified-OnSize :
          (name : Text) (r : Result (Unit {0}))
          → OnSize size left (place_verified m output root c name r visiting)
      verified-OnSize name (err e) = tt
      verified-OnSize name (ok u) = if-OnSize _ _ left (
          omega (
            arith,
            length-append rest (dependencies m c),
            pending-visit m universe s.seen c is_library is_new,
          ))

      named-OnSize : (o : Option Text) → OnSize size left (place_named m output root c o visiting)
      named-OnSize none = tt
      named-OnSize (some name) = verified-OnSize name _

    module _
        (is_universe : (t c : Text) → m.canonicalize t ≡ some c → contains universe c ≡ true) where
      process-OnSize :
          (source : Text) (rest : List Text) (s : Bundle)
          → OnSize size
              (length rest + pending m universe s.seen)
              (process m output root source (record s { queue = rest }))
      unfolding process
      process-OnSize source rest s = canonical (m.canonicalize source) refl
        where
          canonical :
              (o : Option Text)
              → m.canonicalize source ≡ o
              → OnSize size
                  (length rest + pending m universe s.seen)
                  (process_at m output root o (record s { queue = rest }))
          canonical none h = tt
          canonical (some c) h = elim (Bool-cases (contains s.seen c)) [
            | inl e ↦ rw e (ground arith)
            | inr e ↦ rw e (named-OnSize c rest s (is_universe source c h) e _)
          ]

      bundle_loop-finished :
          (n : ℕ) (s : Bundle) → size s < n → finished (bundle_loop m output root n s) ≡ true
      unfolding bundle_loop
      bundle_loop-finished zero s h = ground (arith, h)
      bundle_loop-finished (suc n) s h = taken s.queue h (bundle_loop-finished n)
        where
          taken :
              (q : List Text)
              → length q + pending m universe s.seen < suc n
              → ((t : Bundle) → size t < n → finished (bundle_loop m output root n t) ≡ true)
              → finished (elim q [
                | [] ↦ Run.done s
                | source ∷ rest ↦
                    then_run
                      (process m output root source (record s { queue = rest }))
                      (bundle_loop m output root n)
              ])
                ≡ true
          taken [] k f = refl
          taken (source ∷ rest) k f =
              then_run-finished (length rest + pending m universe s.seen) _ _
                (process-OnSize source rest s) (λ t e. f t (omega (arith, e, k)))

module _ (m : Mac) (universe : List Text)
    (is_universe : (t c : Text) → m.canonicalize t ≡ some c → contains universe c ≡ true) (fuel : ℕ)
    (is_enough : 1 + pending m universe [] < fuel) where
  in-finished : (root : Text) (o : Option Text) → finished (bundle_in m fuel root o) ≡ true
  in-finished root none = refl
  in-finished root (some manifest) = either _
    where
      either :
          (b : Bool)
          → finished (
              if b
              then bundle_loop m (join manifest (chars "vendor/lib")) root fuel (begin_bundle root)
              else Run.stopped)
            ≡ true
      either true =
          bundle_loop-finished m universe _ root is_universe fuel (begin_bundle root) is_enough
      either false = refl

  root-finished : (o : Option Text) → finished (bundle_root m fuel o) ≡ true
  root-finished none = refl
  root-finished (some root) = in-finished root m.manifest_dir

  -- When the paths name finitely many libraries, whatever needs which, also in a circle, the bundling
  -- is over within two rounds more than these together name libraries that they need.
  pub bundle_macos_libfido2-finished : finished (bundle_macos_libfido2 m fuel) ≡ true
  unfolding bundle_macos_libfido2
  bundle_macos_libfido2-finished = root-finished (root_of m)
