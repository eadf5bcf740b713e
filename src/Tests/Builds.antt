-- ===== src/Tests/Builds.antt =====
-- The native libraries of the build, and the bridge to the Swift library.
use keynoxis.Base.{
  ℕ, suc, ◌+◌, ◌<◌, ◌≡◌, refl, arith, subst, Bool, true, false, Option, none, some, List, [], ◌∷◌,
  ok, chars, Nat_eq, List_eq, contains, if◌then◌else◌, ◌==◌,
}
use keynoxis.Agent.Integration.{Text}
use keynoxis.Build.{
  Mac, Bundle, Run, bundle_macos_libfido2, root_of, bundle_loop, process, dylib_lines,
  verify_native_dependency,
}
use keynoxis.Dylib.{bundled_name, pinned_hash}
use keynoxis.Build.Closed.{IsClosed, bundle_macos_libfido2-IsClosed}
use keynoxis.Build.Ends.{finished, bundle_macos_libfido2-finished}
use keynoxis.Swift.{Heap}
use keynoxis.Bridge.{block_at}
use keynoxis.Bridge.Buffers.{IsFresh}
use keynoxis.Bridge.Answers.{IsAnswered, platform-IsAnswered}

abbrev fido2 : Text
fido2 = chars "/opt/homebrew/opt/libfido2/lib/libfido2.dylib"

abbrev cbor : Text
cbor = chars "/usr/local/lib/libcbor.0.dylib"

abbrev of_mac : Text → Option Text
of_mac path = if path == fido2 then some fido2 else if path == cbor then some cbor else none

-- libfido2 and libcbor need each other.
abbrev mac : Mac
mac = record {
  exists = λ path. path == fido2;
  canonicalize = of_mac;
  otool = λ path.
      if path == fido2
      then some (
          chars
            "a:\n\t/l/libfido2.1.dylib (v)\n\t/usr/local/lib/libcbor.0.dylib (v)\n\t/usr/lib/c (v)\n")
      else some (
          chars
            "b:\n\t/l/libcbor.0.dylib (v)\n\t/opt/homebrew/opt/libfido2/lib/libfido2.dylib (v)\n");
  read = ok;
  sha256_hex = λ contents. if contents == fido2 then chars "a4" else chars "f4";
  copy = λ from to. true;
  set_mode = λ path. true;
  install_name_tool = λ arguments. true;
  codesign = λ path. true;
  manifest_dir = some (chars "/k");
  create_output = true;
  read_output = some (chars "/k/vendor/lib/libold.dylib" ∷ []);
  remove_file = λ path. true;
  pins = chars "# pins\nlibfido2.dylib a4\nlibcbor.dylib f4\n";
  not_pinned = λ name. "not pinned";
  not_hashed = λ path e. e;
  mismatch = λ path expected actual. "mismatch";
}

abbrev bundled : Bundle
bundled = record {
  queue = [];
  seen = cbor ∷ fido2 ∷ [];
  root_copy = some (chars "/k/vendor/lib/libfido2.dylib");
  copies = (chars "libcbor.dylib", cbor) ∷ (chars "libfido2.dylib", fido2) ∷ [];
}

bundling : bundle_macos_libfido2 mac 4 ≡ Run.done bundled
unfolding bundle_macos_libfido2 root_of bundle_loop process dylib_lines verify_native_dependency
    bundled_name pinned_hash
bundling = refl

rooted : root_of mac ≡ some fido2
unfolding root_of
rooted = refl

bundle_macos_libfido2-IsClosed_example : IsClosed mac fido2 bundled
bundle_macos_libfido2-IsClosed_example =
    bundle_macos_libfido2-IsClosed mac 4 fido2 bundled rooted bundling

abbrev libraries : List Text
libraries = fido2 ∷ cbor ∷ []

abbrev known : Option Text → Bool
known none = true
known (some c) = contains libraries c

known-of_mac : (b d : Bool) → known (if b then some fido2 else if d then some cbor else none) ≡ true
known-of_mac true d = refl
known-of_mac false true = refl
known-of_mac false false = refl

libraries-of_mac : (path c : Text) → of_mac path ≡ some c → contains libraries c ≡ true
libraries-of_mac path c h =
    subst (λ o. known o ≡ true) h (known-of_mac (path == fido2) (path == cbor))

bundle_macos_libfido2-finished_example : finished (bundle_macos_libfido2 mac 4) ≡ true
unfolding dylib_lines bundled_name
bundle_macos_libfido2-finished_example =
    bundle_macos_libfido2-finished mac libraries libraries-of_mac 4 (omega arith)

-- An address above all the others.
abbrev top : Heap → ℕ
top [] = 0
top ((address, contents) ∷ blocks) = address + top blocks

abbrev malloc : Heap → ℕ → Option ℕ
malloc heap size = some (suc (top heap))

block_at_above : (address : ℕ) (heap : Heap) → top heap < address → block_at address heap ≡ none
block_at_above address [] h = refl
block_at_above address ((a, contents) ∷ blocks) h = ground (arith, h, block_at_above address blocks)

malloc-IsFresh : IsFresh malloc
malloc-IsFresh heap size = (block_at_above (suc (top heap)) heap (omega arith), ground arith)

platform-IsAnswered_example : IsAnswered (λ text. some "refused") malloc ((7, 1 ∷ []) ∷ [])
platform-IsAnswered_example =
    platform-IsAnswered (λ text. some "refused") malloc ((7, 1 ∷ []) ∷ []) malloc-IsFresh
