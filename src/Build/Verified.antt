-- ===== src/Build/Verified.antt =====
-- What src-tauri/build.rs checks of a library before it is copied.
use keynoxis.Base.{
  Bool, true, false, Option, none, some, Result, ok, err, Bytes, String, Nat_eq, List_eq, ◌≡◌, refl,
  ap, sym, ◌∙◌, if◌then◌else◌,
}
use keynoxis.Agent.Integration.{Text}
use keynoxis.Dylib.{pinned_hash}
use keynoxis.Build.{Mac, verify_native_dependency, verify_pin, hashed, compared}

-- The library can be read, and its digest is the first one that is pinned for this name.
pub record IsPinned (m : Mac) (name source : Text) : Type 0 where
  pub contents : Bytes
  pub is_read : m.read source ≡ ok contents
  pub is_expected : pinned_hash m.pins name ≡ some (m.sha256_hex contents)

is_true :
    (b : Bool) (e : String)
    → ◌≡◌ {A = Result (Unit {0})} (if b then ok tt else err e) (ok tt)
    → b ≡ true
is_true true e h = refl
is_true false e h = cc

module _ (m : Mac) (name source : Text) where
  compared_equal :
      (expected actual : Text) → compared m source expected actual ≡ ok tt → actual ≡ expected
  compared_equal expected actual h = (List_eq.test_iff actual expected).0 (is_true _ _ h)

  hashed-IsPinned :
      (expected : Text) (r : Result Bytes)
      → pinned_hash m.pins name ≡ some expected
      → m.read source ≡ r
      → hashed m source expected r ≡ ok tt
      → IsPinned m name source
  hashed-IsPinned expected (err e) p q h = cc
  hashed-IsPinned expected (ok contents) p q h = record {
    contents = contents;
    is_read = q;
    is_expected = p ∙ ap some (sym (compared_equal expected (m.sha256_hex contents) h));
  }

  pin-IsPinned :
      (o : Option Text)
      → pinned_hash m.pins name ≡ o
      → verify_pin m source name o ≡ ok tt
      → IsPinned m name source
  pin-IsPinned none p h = cc
  pin-IsPinned (some expected) p h = hashed-IsPinned expected (m.read source) p refl h

  pub verify_native_dependency-IsPinned :
      verify_native_dependency m source name ≡ ok tt → IsPinned m name source
  unfolding verify_native_dependency
  verify_native_dependency-IsPinned h = pin-IsPinned (pinned_hash m.pins name) refl h
