-- ===== src/Settings/Policy.antt =====
-- What src-tauri/src/settings.rs counts as weakening a protection.
use keynoxis.Base.{ℕ, ◌≤◌, Bool, true, false, not, ◌||◌, ◌≡◌, ◌≢◌, ◌↔◌, ◌⊎◌, arith, Nat_eq}
use keynoxis.Settings.{
  PinSettings, TouchIdSettings, pin_settings_weakened, touch_id_settings_weakened,
  auto_lock_settings_weakened,
}

abbrev pub Keeps : Bool → Bool → Type 0
Keeps a b = not a || b ≡ true

-- Every prompt and requirement that is on stays on.
abbrev pub KeepsPin : PinSettings → PinSettings → Type 0
KeepsPin a b =
    Keeps a.prompt_on_startup b.prompt_on_startup
    × Keeps a.prompt_on_device_connection b.prompt_on_device_connection
    × Keeps a.prompt_after_mac_unlock b.prompt_after_mac_unlock
    × Keeps a.require_for_create b.require_for_create
    × Keeps a.require_for_rename b.require_for_rename
    × Keeps a.require_for_delete b.require_for_delete

abbrev pub KeepsTouchId : TouchIdSettings → TouchIdSettings → Type 0
KeepsTouchId a b =
    Keeps a.touch_for_create b.touch_for_create × Keeps a.touch_for_rename b.touch_for_rename

-- The session locks after `next` minutes at the latest, if it locked after `current`; 0 is never.
abbrev pub KeepsAutoLock : ℕ → ℕ → Type 0
KeepsAutoLock current next = (next ≢ 0) × ((current ≡ 0) ⊎ (next ≤ current))

pub pin_settings_weakened_iff :
    (a b : PinSettings) → (pin_settings_weakened a b ≡ false) ↔ KeepsPin a b
unfolding pin_settings_weakened
pin_settings_weakened_iff a b = (λ h. ground arith, λ h. ground arith)

pub touch_id_settings_weakened_iff :
    (a b : TouchIdSettings) → (touch_id_settings_weakened a b ≡ false) ↔ KeepsTouchId a b
unfolding touch_id_settings_weakened
touch_id_settings_weakened_iff a b = (λ h. ground arith, λ h. ground arith)

pub auto_lock_settings_weakened_iff :
    (a b : ℕ) → (auto_lock_settings_weakened a b ≡ false) ↔ KeepsAutoLock a b
unfolding auto_lock_settings_weakened
auto_lock_settings_weakened_iff a b = (λ h. ground arith, λ h. ground arith)
