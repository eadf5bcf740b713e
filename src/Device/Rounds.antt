-- ===== src/Device/Rounds.antt =====
-- The devices that the state lists, over any rounds of src-tauri/src/device/watcher.rs.
use keynoxis.Base.{
  ℕ, suc, ◌≤◌, Bool, true, false, List, [], ◌∷◌, String, if◌then◌else◌, ◌==◌, Result, ok, err,
  map_ok, Bytes, length, map, All, Sorted, ◌≡◌, refl, arith, ap, ◌∙◌, sym, subst,
}
use keynoxis.State.{RuntimeState, AppState, DeviceInfo, Phase_eq, needs_pin}
use keynoxis.Settings.Labels.{
  LabelStore, Labels, apply_device_labels, read_device_labels, labelled, extended,
}
use keynoxis.Device.Watcher.{
  Scan, begin_scan, end_scan, scan_round, apply_devices, announce, announce_if, settled, prompts,
  prompt_state, labelled_result,
}
use keynoxis.Device.Watcher.Connected.{announce_app}
use keynoxis.Device.Details.{Manifest}
use keynoxis.Device.Detect.{max_devices, path_le, yubikeys}
use keynoxis.Device.Detect.Found.{IsYubico, IsPresent, IsDetection, yubikeys-IsDetection}
use keynoxis.Device.Round.{restore_labels, keep_unless, watch_round}

-- At most sixteen devices of Yubico, in the order of their paths.
pub record IsSupported (ds : List DeviceInfo) : Type 0 where
  pub each_yubico : All IsYubico ds
  pub by_path : Sorted path_le ds
  pub bounded : length ds ≤ max_devices

All-present :
    (m : Manifest) (ds : List DeviceInfo) → All (IsPresent m m.entries.1) ds → All IsYubico ds
All-present m [] h = tt
All-present m (d ∷ ds) (p, h) = (p.is_yubico, All-present m ds h)

-- A name changes neither the vendor nor the path.
module _ (digest : Bytes → String) (to_string : ℕ → String) (labels : Labels) where
  abbrev name : DeviceInfo → DeviceInfo
  name = labelled digest to_string labels

  All-named :
      (P : DeviceInfo → Type 0) (ds : List DeviceInfo)
      → ((d : DeviceInfo) → P d → P (name d))
      → All P ds
      → All P (map name ds)
  All-named P [] f h = tt
  All-named P (d ∷ ds) f (p, h) = (f d p, All-named P ds f h)

  Sorted-named : (ds : List DeviceInfo) → Sorted path_le ds → Sorted path_le (map name ds)
  Sorted-named [] s = tt
  Sorted-named (d ∷ ds) (h, s) =
      (All-named (λ e. path_le d e ≡ true) ds (λ e p. p) h, Sorted-named ds s)

  length-named : (ds : List DeviceInfo) → length (map name ds) ≡ length ds
  length-named [] = refl
  length-named (d ∷ ds) = ap suc (length-named ds)

  named-IsSupported : (ds : List DeviceInfo) → IsSupported ds → IsSupported (map name ds)
  named-IsSupported ds s = record {
    each_yubico = All-named IsYubico ds (λ d p. p) s.each_yubico;
    by_path = Sorted-named ds s.by_path;
    bounded = omega (arith, length-named ds, s.bounded);
  }

restore_labels-IsSupported :
    (digest : Bytes → String) (to_string : ℕ → String) (store : LabelStore) (ds : List DeviceInfo)
    → IsSupported ds
    → IsSupported (restore_labels digest to_string store ds)
unfolding restore_labels apply_device_labels
restore_labels-IsSupported digest to_string store ds s = go (read_device_labels store.labels_file)
  where
    go :
        (o : Result Labels)
        → IsSupported (
            keep_unless ds (
              map_ok
                (λ labels. map (labelled digest to_string (extended labels store.policy_item)) ds)
                o))
    go (ok labels) = named-IsSupported digest to_string (extended labels store.policy_item) ds s
    go (err e) = s

settled_devices : (b appeared : Bool) (s : AppState) → (settled b appeared s).devices ≡ s.devices
settled_devices true appeared s = refl
settled_devices false appeared s = refl

apply_devices_devices :
    (previous ds : List DeviceInfo) (r : RuntimeState)
    → (apply_devices previous ds r).0.app.devices ≡ ds
unfolding apply_devices
apply_devices_devices previous ds r = settled_devices _ _ _

prompt_state_devices : (b w : Bool) (s : AppState) → (prompt_state b w s).devices ≡ s.devices
prompt_state_devices b w s = ground arith

announce_devices :
    (now : ℕ) (c : Scan) (w : Bool) (p : RuntimeState × Bool)
    → (announce_if now c w p).app.devices ≡ p.0.app.devices
unfolding announce
announce_devices now c w (r, false) = refl
announce_devices now c w (r, true) =
    ap (λ (s : AppState). s.devices) (announce_app now c w (prompts c w r) r).0
    ∙ prompt_state_devices (prompts c w r) w r.app

failed_devices :
    (now : ℕ) (c : Scan) (e : String) (r : RuntimeState)
    → (end_scan now c (err e) r).app.devices ≡ r.app.devices
unfolding end_scan
failed_devices now c e r = go r.app.yubikey_connected _ (announce_devices now c _ _)
  where
    go :
        (b : Bool) (r1 : RuntimeState)
        → r1.app.devices ≡ r.app.devices
        → (if b then r else r1).app.devices ≡ r.app.devices
    go true r1 h = refl
    go false r1 h = h

found_devices :
    (now : ℕ) (c : Scan) (ds : List DeviceInfo) (r : RuntimeState)
    → (end_scan now c (ok ds) r).app.devices ≡ ds
unfolding end_scan
found_devices now c ds r =
    announce_devices now c (r.app.phase == needs_pin) (apply_devices c.previous ds r)
    ∙ apply_devices_devices c.previous ds r

-- What a round meets: the time, libfido2, the names, and what other threads do during the detection.
pub record RoundInput : Type 0 where
  pub now : ℕ
  pub manifest : Manifest
  pub store : LabelStore
  pub meanwhile : RuntimeState → RuntimeState

-- libfido2 lists at most as many devices as it is asked for, and the other threads list no device
-- that is not supported.
abbrev pub IsBounded : RoundInput → Type 0
IsBounded i =
    (length i.manifest.entries.1 ≤ max_devices)
    × ((r : RuntimeState) → IsSupported r.app.devices → IsSupported (i.meanwhile r).app.devices)

module _ (digest : Bytes → String) where
  abbrev pub run_rounds : List RoundInput → RuntimeState → RuntimeState
  run_rounds [] r = r
  run_rounds (i ∷ is) r = run_rounds is (watch_round i.manifest digest i.store i.now i.meanwhile r)

  detection-IsSupported : (m : Manifest) (ds : List DeviceInfo) → IsDetection m ds → IsSupported ds
  detection-IsSupported m ds d = record {
    each_yubico = All-present m ds d.present;
    by_path = d.by_path;
    bounded = d.bounded;
  }

  watch_round-IsSupported :
      (i : RoundInput) (r : RuntimeState)
      → IsBounded i
      → IsSupported r.app.devices
      → IsSupported (watch_round i.manifest digest i.store i.now i.meanwhile r).app.devices
  unfolding watch_round scan_round
  watch_round-IsSupported i r (n, keeps) s = go (yubikeys i.manifest r.app.devices) refl
    where
      r1 : RuntimeState
      r1 = i.meanwhile (begin_scan r).0

      labels : List DeviceInfo → List DeviceInfo
      labels = restore_labels digest i.manifest.to_string i.store

      go :
          (o : Result (List DeviceInfo))
          → yubikeys i.manifest r.app.devices ≡ o
          → IsSupported (end_scan i.now (begin_scan r).1 (labelled_result labels o) r1).app.devices
      go (ok ds) h = subst IsSupported (sym (found_devices i.now (begin_scan r).1 (labels ds) r1)) (
          restore_labels-IsSupported digest i.manifest.to_string i.store ds (
            detection-IsSupported i.manifest ds
              (yubikeys-IsDetection i.manifest r.app.devices ds n s.each_yubico h)))
      go (err e) h =
          subst IsSupported (sym (failed_devices i.now (begin_scan r).1 e r1))
            (keeps (begin_scan r).0 s)

  rounds-IsSupported :
      (is : List RoundInput) (r : RuntimeState)
      → All IsBounded is
      → IsSupported r.app.devices
      → IsSupported (run_rounds is r).app.devices
  rounds-IsSupported [] r b s = s
  rounds-IsSupported (i ∷ is) r (b, bs) s =
      rounds-IsSupported is _ bs (watch_round-IsSupported i r b s)

  -- From a state without devices, over any rounds whose lists are bounded by what libfido2 is asked
  -- for, detections that fail included, the devices of the state are Yubico's, at most sixteen, and
  -- in the order of their paths; if the other threads keep that during each detection.
  pub run_rounds-IsSupported :
      (is : List RoundInput) (r : RuntimeState)
      → All IsBounded is
      → r.app.devices ≡ []
      → IsSupported (run_rounds is r).app.devices
  run_rounds-IsSupported is r b none_yet = rounds-IsSupported is r b (
      subst IsSupported (sym none_yet)
        (record { each_yubico = tt; by_path = tt; bounded = omega arith }))
