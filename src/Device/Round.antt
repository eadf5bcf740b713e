-- ===== src/Device/Round.antt =====
-- A whole round of src-tauri/src/device/watcher.rs, with the detection of detect.rs and the names of
-- src-tauri/src/settings.rs: where a known device is busy, its session outlives the round.
use mathlib.Core.List.{Memᴰ}
use keynoxis.Base.{
  ℕ, Bool, true, false, List, [], ◌∷◌, Option, none, some, String, if◌then◌else◌, ◌==◌, Nat_eq,
  String_eq, Option_eq, Result, ok, err, map_ok, Bytes, contains, find, find-OnSome, OnSome, map,
  retain, ◌≡◌, refl, arith, ap, ◌∙◌, sym, subst,
}
use keynoxis.State.{RuntimeState, SshKey, DeviceInfo, Phase_eq}
use keynoxis.Provider.{get_pin}
use keynoxis.Settings.Labels.{
  LabelStore, Labels, apply_device_labels, read_device_labels, labelled, extended,
}
use keynoxis.Device.Watcher.{
  has_path, path_of, keeps_key, device_connected, Scan, begin_scan, end_scan, scan_round,
  labelled_result,
}
use keynoxis.Device.Watcher.Connected.{
  IsPruned, end_scan-IsPruned, announce-SameSession, SameSession,
}
use keynoxis.Device.Detect.{yubico_vendor, path_of_entry, at_path, renewed, yubikeys}
use keynoxis.Device.Detect.Kept.{yubikeys-known}
use keynoxis.Device.Details.{Manifest, Entry, as_u16}

abbrev pub keep_unless : List DeviceInfo → Result (List DeviceInfo) → List DeviceInfo
keep_unless devices (ok named) = named
keep_unless devices (err e) = devices

-- The names are restored; where they cannot be read, the devices stay as they are.
unfoldable pub restore_labels :
    (Bytes → String) → (ℕ → String) → LabelStore → List DeviceInfo → List DeviceInfo
restore_labels digest to_string store devices =
    keep_unless devices (apply_device_labels digest to_string store devices)

module _ (m : Manifest) (digest : Bytes → String) (store : LabelStore) where
  unfoldable pub watch_round : ℕ → (RuntimeState → RuntimeState) → RuntimeState → RuntimeState
  watch_round now meanwhile r =
      scan_round now (yubikeys m) (restore_labels digest m.to_string store) meanwhile r

  map-path_of-labelled :
      (labels : Labels) (ds : List DeviceInfo)
      → map path_of (map (labelled digest m.to_string labels) ds) ≡ map path_of ds
  map-path_of-labelled labels [] = refl
  map-path_of-labelled labels (d ∷ ds) = ap (◌∷◌ d.path) (map-path_of-labelled labels ds)

  map-path_of-restore_labels :
      (ds : List DeviceInfo)
      → map path_of (restore_labels digest m.to_string store ds) ≡ map path_of ds
  unfolding restore_labels apply_device_labels
  map-path_of-restore_labels ds = go (read_device_labels store.labels_file)
    where
      go :
          (o : Result Labels)
          → map path_of (
              keep_unless ds (
                map_ok
                  (λ labels.
                    map (labelled digest m.to_string (extended labels store.policy_item)) ds)
                  o))
            ≡ map path_of ds
      go (ok labels) = map-path_of-labelled (extended labels store.policy_item) ds
      go (err e) = refl

Mem-has_path :
    (path : String) (d : DeviceInfo) (ds : List DeviceInfo)
    → d.path ≡ path
    → Memᴰ d ds
    → has_path ds path ≡ true
Mem-has_path path d [] p h = elim h [ ]
Mem-has_path path d (c ∷ ds) p (Memᴰ.head e) =
    ground (arith, (String_eq.test_iff c.path path).1 (ap path_of (sym e) ∙ p))
Mem-has_path path d (c ∷ ds) p (Memᴰ.tail h) = ground (arith, Mem-has_path path d ds p h)

abbrev pub holds_key : String → SshKey → Bool
holds_key path k = k.device_path == some path

-- The session of the device at a path: its PIN, that it counts as unlocked, and its keys.
pub record IsKept (path : String) (r r' : RuntimeState) : Type 0 where
  pub same_pin : get_pin path r'.pins ≡ get_pin path r.pins
  pub same_unlocking :
      contains r'.app.unlocked_device_paths path ≡ contains r.app.unlocked_device_paths path
  pub same_keys : retain (holds_key path) r'.app.keys ≡ retain (holds_key path) r.app.keys

holds_key-keeps_key :
    (path : String) (ds : List DeviceInfo) (k : SshKey)
    → has_path ds path ≡ true
    → holds_key path k ≡ true
    → keeps_key ds k ≡ true
holds_key-keeps_key path ds k here h = rw (connected k.device_path h) (ground arith)
  where
    connected : (o : Option String) → (o == some path) ≡ true → device_connected ds o ≡ true
    connected none h = cc
    connected (some p) h = ap (has_path ds) ((String_eq.test_iff p path).0 h) ∙ here

retain-narrower :
    {A : Type 0} (p q : A → Bool) (xs : List A)
    → ((x : A) → p x ≡ true → q x ≡ true)
    → retain p (retain q xs) ≡ retain p xs
retain-narrower p q [] f = refl
retain-narrower p q (x ∷ xs) f = ground (arith, retain-narrower p q xs f, f x)

IsPruned-IsKept :
    (path : String) (ds : List DeviceInfo) (r r' : RuntimeState)
    → has_path ds path ≡ true
    → IsPruned ds r r'
    → IsKept path r r'
IsPruned-IsKept path ds r r' here p = record {
  same_pin = p.pins_of path ∙ rw here refl;
  same_unlocking = p.unlocked_of path ∙ rw here refl;
  same_keys =
      ap (retain (holds_key path)) p.keys_of
      ∙ retain-narrower (holds_key path) (keeps_key ds) r.app.keys
          (λ k. holds_key-keeps_key path ds k here);
}

SameSession-IsKept : (path : String) (r r' : RuntimeState) → SameSession r r' → IsKept path r r'
SameSession-IsKept path r r' (p, u, k) = record {
  same_pin = ap (get_pin path) p;
  same_unlocking = ap (λ us. contains us path) u;
  same_keys = ap (retain (holds_key path)) k;
}

-- A detection that fails.
failed-SameSession :
    (now : ℕ) (c : Scan) (e : String) (r : RuntimeState) → SameSession r (end_scan now c (err e) r)
unfolding end_scan
failed-SameSession now c e r = go r.app.yubikey_connected _ (announce-SameSession now c _ _)
  where
    go : (b : Bool) (r1 : RuntimeState) → SameSession r r1 → SameSession r (if b then r else r1)
    go true r1 s = (refl, refl, refl)
    go false r1 s = s

module _ (m : Manifest) (digest : Bytes → String) (store : LabelStore) (now : ℕ)
    (meanwhile : RuntimeState → RuntimeState) (r : RuntimeState) (e : Entry)
    (known : DeviceInfo) where
  abbrev path : String
  path = path_of_entry m e

  known-has_path :
      (ds : List DeviceInfo)
      → Memᴰ (some e) m.entries.1
      → as_u16 e.vendor ≡ yubico_vendor
      → find (at_path path) r.app.devices ≡ some known
      → yubikeys m r.app.devices ≡ ok ds
      → has_path (restore_labels digest m.to_string store ds) path ≡ true
  known-has_path ds listed v found h =
      ap (λ ps. contains ps path) (map-path_of-restore_labels m digest store ds)
      ∙ Mem-has_path path (renewed e known) ds
          ((String_eq.test_iff known.path path).0 (
            subst (OnSome (λ d. at_path path d ≡ true)) found
              (find-OnSome (at_path path) r.app.devices)))
          (yubikeys-known m r.app.devices e known found v ds listed h)

  -- A known key of Yubico that libfido2 lists keeps its session over a round, whatever it and the
  -- others answer: its PIN, that it counts as unlocked, and its keys are as other threads left them,
  -- also while the key is busy with a signature or when the detection fails.
  pub watch_round-IsKept :
      Memᴰ (some e) m.entries.1
      → as_u16 e.vendor ≡ yubico_vendor
      → find (at_path path) r.app.devices ≡ some known
      → IsKept path (meanwhile (begin_scan r).0) (watch_round m digest store now meanwhile r)
  unfolding watch_round scan_round
  watch_round-IsKept listed v found = go (yubikeys m r.app.devices) refl
    where
      r1 : RuntimeState
      r1 = meanwhile (begin_scan r).0

      go :
          (o : Result (List DeviceInfo))
          → yubikeys m r.app.devices ≡ o
          → IsKept path r1 (
              end_scan now
                (begin_scan r).1
                (labelled_result (restore_labels digest m.to_string store) o)
                r1)
      go (ok ds) h =
          IsPruned-IsKept path (restore_labels digest m.to_string store ds) r1 _
            (known-has_path ds listed v found h) (end_scan-IsPruned now (begin_scan r).1 _ r1)
      go (err x) h = SameSession-IsKept path r1 _ (failed-SameSession now (begin_scan r).1 x r1)
