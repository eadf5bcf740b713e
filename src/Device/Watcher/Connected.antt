-- ===== src/Device/Watcher/Connected.antt =====
-- What a round of src-tauri/src/device/watcher.rs leaves of the sessions, and of an operation.
use keynoxis.Base.{
  ℕ, Bool, true, false, ◌&&◌, List, [], ◌∷◌, Option, none, some, String, if◌then◌else◌, ◌==◌,
  Nat_eq, String_eq, Option_eq, ok, contains, retain, ◌≡◌, refl, arith, ap, ◌∙◌, Bool-cases, inl,
  inr,
}
use keynoxis.State.{RuntimeState, AppState, DeviceInfo, Phase_eq, needs_pin}
use keynoxis.Activity.{record_activity}
use keynoxis.Provider.{get_pin}
use keynoxis.Device.Watcher.{
  retain_pins, has_path, keeps_key, disconnect_others, apply_devices, announce, announce_with,
  announce_if, end_scan, Scan, prompts, prompt_state, note_change,
}

pub contains-retain :
    (keep : String → Bool) (path : String) (paths : List String)
    → contains (retain keep paths) path ≡ (keep path && contains paths path)
contains-retain keep path [] = ground arith
contains-retain keep path (p ∷ paths) = elim (Bool-cases (p == path)) [
  | inl same ↦
      ground
        (arith, contains-retain keep path paths, same, ap keep ((String_eq.test_iff p path).0 same))
  | inr other ↦ ground (arith, contains-retain keep path paths, other)
]

pub get_pin-retain_pins :
    (keep : String → Bool) (path : String) (pins : List (String × String))
    → get_pin path (retain_pins keep pins) ≡ (if keep path then get_pin path pins else none)
get_pin-retain_pins keep path [] = ground arith
get_pin-retain_pins keep path ((p, pin) ∷ pins) = elim (Bool-cases (p == path)) [
  | inl same ↦ ground (
    arith,
    get_pin-retain_pins keep path pins,
    same,
    ap keep ((String_eq.test_iff p path).0 same),
  )
  | inr other ↦ ground (arith, get_pin-retain_pins keep path pins, other)
]

-- Of each connected device the session is as before, and of the others nothing is left; the keys of
-- other backends stay.
pub record IsPruned (devices : List DeviceInfo) (r r' : RuntimeState) : Type 0 where
  pub pins_of :
      (path : String)
      → get_pin path r'.pins ≡ (if has_path devices path then get_pin path r.pins else none)
  pub unlocked_of :
      (path : String)
      → contains r'.app.unlocked_device_paths path
        ≡ (has_path devices path && contains r.app.unlocked_device_paths path)
  pub keys_of : r'.app.keys ≡ retain (keeps_key devices) r.app.keys

-- The parts of the state that an announcement leaves alone.
abbrev pub SameSession : RuntimeState → RuntimeState → Type 0
SameSession r r' =
    (r'.pins ≡ r.pins)
    × (r'.app.unlocked_device_paths ≡ r.app.unlocked_device_paths)
    × (r'.app.keys ≡ r.app.keys)

note_change_app :
    (now : ℕ) (a b : Option DeviceInfo) (r : RuntimeState)
    → ((note_change now a b r).app ≡ r.app) × ((note_change now a b r).pins ≡ r.pins)
unfolding record_activity
note_change_app now (some d) b r = ground arith
note_change_app now none (some d) r = (refl, refl)
note_change_app now none none r = ground arith

pub announce_app :
    (now : ℕ) (c : Scan) (w b : Bool) (r : RuntimeState)
    → ((announce_with now c w b r).app ≡ prompt_state b w r.app)
      × ((announce_with now c w b r).pins ≡ r.pins)
announce_app now c w true r = note_change_app now _ _ _
announce_app now c w false r = note_change_app now _ _ _

prompt_state_session :
    (b w : Bool) (s : AppState)
    → ((prompt_state b w s).unlocked_device_paths ≡ s.unlocked_device_paths)
      × ((prompt_state b w s).keys ≡ s.keys)
prompt_state_session b w s = ground arith

pub announce-SameSession :
    (now : ℕ) (c : Scan) (w : Bool) (p : RuntimeState × Bool)
    → SameSession p.0 (announce_if now c w p)
unfolding announce
announce-SameSession now c w (r, false) = (refl, refl, refl)
announce-SameSession now c w (r, true) =
    let b = prompts c w r in
    let (a, p) = announce_app now c w b r in
    let (u, k) = prompt_state_session b w r.app in
    (p, ap (λ s. s.unlocked_device_paths) a ∙ u, ap (λ s. s.keys) a ∙ k)

disconnect_others-IsPruned :
    (devices : List DeviceInfo) (r r' : RuntimeState)
    → SameSession (disconnect_others devices r) r'
    → IsPruned devices r r'
unfolding disconnect_others
disconnect_others-IsPruned devices r r' (p, u, k) = record {
  pins_of = λ path. ap (get_pin path) p ∙ get_pin-retain_pins (has_path devices) path r.pins;
  unlocked_of = λ path.
      ap (λ us. contains us path) u
      ∙ contains-retain (has_path devices) path r.app.unlocked_device_paths;
  keys_of = k;
}

pub apply_devices-SameSession :
    (previous devices : List DeviceInfo) (r : RuntimeState)
    → SameSession (disconnect_others devices r) (apply_devices previous devices r).0
unfolding apply_devices
apply_devices-SameSession previous devices r = ground arith

-- A detection that succeeds leaves the session of each connected device as it was, forgets the PIN,
-- the keys and the unlocking of every other device, and keeps the keys of other backends.
pub end_scan-IsPruned :
    (now : ℕ) (c : Scan) (devices : List DeviceInfo) (r : RuntimeState)
    → IsPruned devices r (end_scan now c (ok devices) r)
unfolding end_scan
end_scan-IsPruned now c devices r =
    let (p, u, k) = apply_devices-SameSession c.previous devices r in
    let (p', u', k') =
      announce-SameSession now c (r.app.phase == needs_pin) (apply_devices c.previous devices r) in
    disconnect_others-IsPruned devices r _ (p' ∙ p, u' ∙ u, k' ∙ k)
