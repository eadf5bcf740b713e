-- ===== src/Settings/Asks.antt =====
-- When the calls of src-tauri/src/settings.rs that change a protection ask for authorization.
use keynoxis.Base.{
  arith, ℕ, Bool, true, false, ◌≡◌, ◌⊎◌, ◌↔◌, inl, inr, refl, sym, ap, ◌∙◌, Result, ok, err, String,
  Bool-cases, contains, Nat_eq,
}
use keynoxis.State.{RuntimeState, show_main}
use keynoxis.Activity.{tell}
use keynoxis.Settings.{
  PinSettings, TouchIdSettings, Settings, Host, World, M, load, save, set_auto_lock,
  set_pin_settings, set_touch_id_settings, authorize_change, mark_fido_activity, apply_pin_settings,
  apply_touch_id_settings, pin_settings_weakened, touch_id_settings_weakened,
  auto_lock_settings_weakened, timeouts, continue, when_needed, save_with, authorize_with,
  update_runtime, pure, ◌>>◌,
}
use keynoxis.Settings.Gate.{change}
use keynoxis.Settings.Policy.{
  KeepsPin, KeepsTouchId, KeepsAutoLock, pin_settings_weakened_iff, touch_id_settings_weakened_iff,
  auto_lock_settings_weakened_iff,
}

-- The same system, where the user answers the sheet in this way.
abbrev pub with_answer : Host → Result (Unit {0}) → Host
with_answer h a = record h { authorization = a }

-- The answer of the user makes no difference.
abbrev pub IsSilent : (Host → World → World × Result Settings) → Host → World → Type 0
IsSilent call h w = (a : Result (Unit {0})) → call (with_answer h a) w ≡ call h w

-- Once the settings are loaded, the user is asked, and a refusal is the end.
abbrev pub IsAsking : (Host → World → World × Result Settings) → Host → World → World → Type 0
IsAsking call h w loaded =
    (e : String)
    → call (with_answer h (err e)) w
      ≡ (record loaded { runtime = tell show_main loaded.runtime }, err e)

-- A call that keeps every protection is silent, and any other one asks.
abbrev pub IsJudged :
    Type 0 → (Host → World → World × Result Settings) → Host → World → World → Type 0
IsJudged Keeps call h w loaded = (Keeps × IsSilent call h w) ⊎ (¬ Keeps × IsAsking call h w loaded)

-- What a change does once the settings are loaded.
abbrev after_load :
    Host
    → (Settings → Bool)
    → (Settings → Settings)
    → (RuntimeState → RuntimeState)
    → Settings
    → M Settings
after_load h weak update g s =
    when_needed (weak s) (authorize_with h.authorization)
    >> (save_with h.file_write h.keychain_write (update s) >> (update_runtime g >> pure (update s)))

module _ (h : Host) (w loaded : World) (s : Settings) (loads : load h w ≡ (loaded, ok s)) where
  module _ (weak : Settings → Bool) (update : Settings → Settings)
      (g : RuntimeState → RuntimeState) where
    change-loaded :
        (a : Result (Unit {0}))
        → change (with_answer h a) weak update g w
          ≡ after_load (with_answer h a) weak update g s loaded
    unfolding load
    change-loaded a = ap (λ x. continue x (after_load (with_answer h a) weak update g)) loads

    change-IsJudged :
        {Keeps : Type 0}
        → (weak s ≡ false) ↔ Keeps
        → IsJudged Keeps (λ k. change k weak update g) h w loaded
    change-IsJudged i = elim (Bool-cases (weak s)) [
      | inl asks ↦
          inr (λ kept. ground (arith, asks, i.1 kept), λ e. change-loaded (err e) ∙ asked e asks)
      | inr silent ↦
          inl (
            i.0 silent,
            λ a. change-loaded a ∙ (same a silent ∙ sym (change-loaded h.authorization)),
          )
    ]
      where
        asked :
            (e : String)
            → weak s ≡ true
            → after_load (with_answer h (err e)) weak update g s loaded
              ≡ (record loaded { runtime = tell show_main loaded.runtime }, err e)
        asked e asks = rw asks refl

        same :
            (a : Result (Unit {0}))
            → weak s ≡ false
            → after_load (with_answer h a) weak update g s loaded
              ≡ after_load (with_answer h h.authorization) weak update g s loaded
        same a silent = rw silent refl

  -- Once the settings are loaded, each of the three calls that change a protection (for a timeout that
  -- is supported) asks for authorization, and ends with the refusal if there is one, exactly if it does
  -- not keep every protection: of the PIN settings and the Touch ID settings, whatever is on stays on;
  -- and the session still locks by itself, no later than before. Otherwise what the user would answer
  -- makes no difference.
  pub set_pin_settings-IsJudged :
      (p : PinSettings) (t : TouchIdSettings) (minutes : ℕ)
      → contains timeouts minutes ≡ true
      → IsJudged (KeepsPin s.pin p) (λ k. set_pin_settings k p) h w loaded
        × IsJudged (KeepsTouchId s.touch_id t) (λ k. set_touch_id_settings k t) h w loaded
        × IsJudged
            (KeepsAutoLock s.auto_lock_minutes minutes)
            (λ k. set_auto_lock k minutes)
            h
            w
            loaded
  unfolding set_pin_settings set_touch_id_settings set_auto_lock load save authorize_change
  set_pin_settings-IsJudged p t minutes known = (
    change-IsJudged (λ s. pin_settings_weakened s.pin p) (λ s. record s { pin = p })
        (apply_pin_settings p) (pin_settings_weakened_iff s.pin p),
    change-IsJudged (λ s. touch_id_settings_weakened s.touch_id t) (λ s. record s { touch_id = t })
        (apply_touch_id_settings t) (touch_id_settings_weakened_iff s.touch_id t),
    rw known (
        change-IsJudged (λ s. auto_lock_settings_weakened s.auto_lock_minutes minutes)
          (λ s. record s { auto_lock_minutes = minutes })
          (λ r. mark_fido_activity h.now_ms (record r { auto_lock_minutes = minutes }))
          (auto_lock_settings_weakened_iff s.auto_lock_minutes minutes)),
  )
