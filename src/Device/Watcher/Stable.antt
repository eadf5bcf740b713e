-- ===== src/Device/Watcher/Stable.antt =====
-- An operation in progress keeps its device over a round of src-tauri/src/device/watcher.rs.
use keynoxis.Base.{
  ℕ, Bool, true, false, ◌&&◌, List, [], ◌∷◌, Option, none, some, String, if◌then◌else◌, ◌==◌,
  Nat_eq, String_eq, Option_eq, ok, option_map, find, any, ◌≡◌, refl, arith, ap, sym, ◌∙◌,
  Bool-cases, inl, inr,
}
use keynoxis.State.{RuntimeState, AppState, DeviceInfo, Phase_eq, needs_pin}
use keynoxis.Device.Watcher.{
  has_path, path_of, disconnect_others, apply_devices, announce, announce_if, end_scan, Scan,
  choose_active, device_at, operation_in_progress, is_at, prompts, prompt_state, settled,
  device_connected, is_new_fido2,
}
use keynoxis.Device.Watcher.Connected.{announce_app}

-- The path of the active device, and what the operation is about.
pub record IsSteady (r r' : RuntimeState) : Type 0 where
  pub same_device : option_map path_of r'.app.active ≡ option_map path_of r.app.active
  pub same_phase : r'.app.phase ≡ r.app.phase
  pub same_creation : r'.app.pending_key_creation ≡ r.app.pending_key_creation
  pub same_algorithm : r'.app.pending_key_algorithm ≡ r.app.pending_key_algorithm
  pub same_deletion : r'.app.pending_key_deletion ≡ r.app.pending_key_deletion
  pub same_rename : r'.app.pending_key_rename ≡ r.app.pending_key_rename

found_path :
    (devices : List DeviceInfo) (path : String)
    → has_path devices path ≡ true
    → option_map path_of (find (is_at path) devices) ≡ some path
found_path [] path h = cc
found_path (d ∷ devices) path h = elim (Bool-cases (d.path == path)) [
  | inl here ↦ rw here (ap some ((String_eq.test_iff d.path path).0 here))
  | inr further ↦ rw further (found_path devices path (ground arith))
]

settled_busy : (b appeared : Bool) (s : AppState) → b ≡ true → settled b appeared s ≡ s
settled_busy true appeared s h = refl
settled_busy false appeared s h = cc

if_true : {A : Type 0} (b : Bool) (x y : A) → b ≡ true → (if b then x else y) ≡ x
if_true b x y h = rw h refl

choose_active_busy :
    (previous devices : List DeviceInfo) (path : Option String) (s : AppState)
    → operation_in_progress s ≡ true
    → device_connected devices path ≡ true
    → choose_active previous devices path s ≡ device_at devices path
unfolding choose_active
choose_active_busy previous devices path s busy here =
    if_true _ _ _ (ap (λ b. b && device_connected devices path) busy ∙ here)

active_path :
    (devices : List DeviceInfo) (o : Option DeviceInfo)
    → device_connected devices (option_map path_of o) ≡ true
    → option_map path_of (device_at devices (option_map path_of o)) ≡ option_map path_of o
active_path devices none h = refl
active_path devices (some d) h = found_path devices d.path h

apply_devices-IsSteady :
    (previous devices : List DeviceInfo) (r : RuntimeState)
    → operation_in_progress r.app ≡ true
    → device_connected devices (option_map path_of r.app.active) ≡ true
    → IsSteady r (apply_devices previous devices r).0
unfolding apply_devices disconnect_others
apply_devices-IsSteady previous devices r busy here =
    let e =
      settled_busy (operation_in_progress r.app) (any (is_new_fido2 previous) devices) _ busy in
    record {
      same_device =
          ap (λ (s : AppState). option_map path_of s.active) e
          ∙ (ap (option_map path_of) (choose_active_busy previous devices _ _ busy here)
              ∙ active_path devices r.app.active here);
      same_phase = ap (λ (s : AppState). s.phase) e;
      same_creation = ap (λ (s : AppState). s.pending_key_creation) e;
      same_algorithm = ap (λ (s : AppState). s.pending_key_algorithm) e;
      same_deletion = ap (λ (s : AppState). s.pending_key_deletion) e;
      same_rename = ap (λ (s : AppState). s.pending_key_rename) e;
    }

-- A prompt of the PIN changes the phase only where no PIN was waited for.
prompt_state-IsSteady :
    (b : Bool) (r r' : RuntimeState)
    → r'.app ≡ prompt_state b (r.app.phase == needs_pin) r.app
    → IsSteady r r'
prompt_state-IsSteady b r r' e = record {
  same_device = ground (arith, ap (λ (s : AppState). s.active) e);
  same_phase = ground (arith, ap (λ (s : AppState). s.phase) e);
  same_creation = ground (arith, ap (λ (s : AppState). s.pending_key_creation) e);
  same_algorithm = ground (arith, ap (λ (s : AppState). s.pending_key_algorithm) e);
  same_deletion = ground (arith, ap (λ (s : AppState). s.pending_key_deletion) e);
  same_rename = ground (arith, ap (λ (s : AppState). s.pending_key_rename) e);
}

announce-IsSteady :
    (now : ℕ) (c : Scan) (w : Bool) (p : RuntimeState × Bool)
    → w ≡ (p.0.app.phase == needs_pin)
    → IsSteady p.0 (announce_if now c w p)
unfolding announce
announce-IsSteady now c w (r, false) e = record {
  same_device = refl;
  same_phase = refl;
  same_creation = refl;
  same_algorithm = refl;
  same_deletion = refl;
  same_rename = refl;
}
announce-IsSteady now c w (r, true) e =
    prompt_state-IsSteady (prompts c w r) r _ (
      (announce_app now c w (prompts c w r) r).0 ∙ ap (λ x. prompt_state (prompts c w r) x r.app) e)

IsSteady-trans : (r s t : RuntimeState) → IsSteady r s → IsSteady s t → IsSteady r t
IsSteady-trans r s t p q = record {
  same_device = q.same_device ∙ p.same_device;
  same_phase = q.same_phase ∙ p.same_phase;
  same_creation = q.same_creation ∙ p.same_creation;
  same_algorithm = q.same_algorithm ∙ p.same_algorithm;
  same_deletion = q.same_deletion ∙ p.same_deletion;
  same_rename = q.same_rename ∙ p.same_rename;
}

-- While an operation is in progress on a device that is still connected, a detection that succeeds
-- keeps the path of the active device, the phase, and what was asked for: no other device takes its
-- place under a PIN that is being entered.
pub end_scan-IsSteady :
    (now : ℕ) (c : Scan) (devices : List DeviceInfo) (r : RuntimeState)
    → operation_in_progress r.app ≡ true
    → device_connected devices (option_map path_of r.app.active) ≡ true
    → IsSteady r (end_scan now c (ok devices) r)
unfolding end_scan
end_scan-IsSteady now c devices r busy here =
    let s = apply_devices-IsSteady c.previous devices r busy here in
    IsSteady-trans r _ _ s (
      announce-IsSteady now c (r.app.phase == needs_pin) (apply_devices c.previous devices r)
        (ap (λ x. x == needs_pin) (sym s.same_phase)))
