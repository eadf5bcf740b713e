-- ===== src/Settings/Gate.antt =====
-- The calls of src-tauri/src/settings.rs that change the settings, without authorization.
use keynoxis.Base.{
  ℕ, Bool, false, ◌≡◌, ◌⊎◌, inl, inr, refl, arith, subst, sym, ap, ◌∙◌, Result, ok, err, String,
  Bool-cases, contains, Nat_eq,
}
use keynoxis.State.{RuntimeState}
use keynoxis.Settings.{
  PinSettings, TouchIdSettings, PreferredBackend, Settings, Stored, missing, unreadable, stored,
  Host, World, M, load, save, read_settings, with_policy, set_autostart, set_auto_lock,
  set_preferred_backend, set_pin_settings, set_touch_id_settings, authorize_change,
  mark_fido_activity, apply_pin_settings, apply_touch_id_settings, pin_settings_weakened,
  touch_id_settings_weakened, auto_lock_settings_weakened, timeouts, SecurityPolicy, when_needed,
  continue, load_with, save_with, ◌>>=◌, ◌>>◌, authorize_with, backend_code, update_runtime, pure,
}
use keynoxis.Settings.Policy.{
  KeepsPin, KeepsTouchId, KeepsAutoLock, pin_settings_weakened_iff, touch_id_settings_weakened_iff,
  auto_lock_settings_weakened_iff,
}

pub record Protection : Type 0 where
  pub pin : PinSettings
  pub touch_id : TouchIdSettings
  pub minutes : ℕ

-- The protections in force, and those that settings ask for.
abbrev pub in_force : RuntimeState → Protection
in_force r = record {
  pin = record {
    prompt_on_startup = r.prompt_pin_on_startup;
    prompt_on_device_connection = r.prompt_pin_on_device_connection;
    prompt_after_mac_unlock = r.prompt_pin_after_mac_unlock;
    require_for_create = r.require_pin_for_create;
    require_for_rename = r.require_pin_for_rename;
    require_for_delete = r.require_pin_for_delete;
  };
  touch_id = record {
    touch_for_create = r.require_touch_id_for_create;
    touch_for_rename = r.require_touch_id_for_rename;
  };
  minutes = r.auto_lock_minutes;
}

abbrev pub asked : Settings → Protection
asked s = record { pin = s.pin; touch_id = s.touch_id; minutes = s.auto_lock_minutes }

-- The process runs under the protections that the stores hold, if the settings can be read.
abbrev pub MirrorsOf : Result Settings → Stored SecurityPolicy → RuntimeState → Type 0
MirrorsOf (err e) p r = Unit
MirrorsOf (ok s) p r = in_force r ≡ asked (with_policy s p)

abbrev pub Mirrors : World → Type 0
Mirrors w = MirrorsOf (read_settings w.disk.settings_file) w.disk.policy_item w.runtime

abbrev pub Guards : Protection → Protection → Type 0
Guards a b =
    KeepsPin a.pin b.pin
    × KeepsTouchId a.touch_id b.touch_id
    × ((b.minutes ≡ a.minutes) ⊎ KeepsAutoLock a.minutes b.minutes)

Guards-refl : (a : Protection) → Guards a a
Guards-refl a = (
  (ground arith, ground arith, ground arith, ground arith, ground arith, ground arith),
  (ground arith, ground arith),
  inl refl,
)

-- What `load` leads to.
abbrev Loaded : RuntimeState → World × Result Settings → Type 0
Loaded r (w', err e) = (w'.runtime ≡ r) × Mirrors w'
Loaded r (w', ok s) = (w'.runtime ≡ r) × Mirrors w' × (in_force r ≡ asked s)

load-Loaded :
    (f : Stored Settings) (p : Stored SecurityPolicy) (r : RuntimeState) (o : Result (Unit {0}))
    (status : ℕ)
    → MirrorsOf (read_settings f) p r
    → Loaded r (
        load_with o
          (ok tt)
          status
          (record { disk = record { settings_file = f; policy_item = p }; runtime = r }))
load-Loaded (unreadable e) p r o status m = (refl, m)
load-Loaded missing missing r (ok _) status m = (refl, m, m)
load-Loaded missing missing r (err e) status m = (refl, m)
load-Loaded missing (unreadable u) r (ok _) status m = (refl, m, m)
load-Loaded missing (unreadable u) r (err e) status m = (refl, m)
load-Loaded missing (stored p) r (ok _) status m = (refl, m, m)
load-Loaded missing (stored p) r (err e) status m = (refl, m)
load-Loaded (stored s) missing r (ok _) status m = (refl, m, m)
load-Loaded (stored s) missing r (err e) status m = (refl, m)
load-Loaded (stored s) (unreadable u) r (ok _) status m = (refl, m, m)
load-Loaded (stored s) (unreadable u) r (err e) status m = (refl, m)
load-Loaded (stored s) (stored p) r (ok _) status m = (refl, m, m)
load-Loaded (stored s) (stored p) r (err e) status m = (refl, m)

-- What a call leaves: the protections guarded, and mirrored by the stores.
abbrev pub Guarded : RuntimeState → World × Result Settings → Type 0
Guarded r (w', o) = Guards (in_force r) (in_force w'.runtime) × Mirrors w'

save-Guarded :
    (p : Stored SecurityPolicy) (w : World) (r : RuntimeState) (o : Result (Unit {0}))
    (s' : Settings) (g : RuntimeState → RuntimeState)
    → w.disk.policy_item ≡ p
    → in_force w.runtime ≡ in_force r
    → Mirrors w
    → Guards (in_force r) (in_force (g w.runtime))
    → in_force (g w.runtime) ≡ asked s'
    → Guarded r ((save_with o (ok tt) s' >> (update_runtime g >> pure s')) w)
save-Guarded p w r (err e) s' g q same m guard now =
    (subst (Guards (in_force r)) (sym same) (Guards-refl (in_force r)), m)
save-Guarded missing w r (ok _) s' g q same m guard now = (guard, rw q now)
save-Guarded (unreadable u) w r (ok _) s' g q same m guard now = (guard, rw q now)
save-Guarded (stored p) w r (ok _) s' g q same m guard now = (guard, rw q now)

MirrorsOf-same :
    (o : Result Settings) (p : Stored SecurityPolicy) (r r' : RuntimeState)
    → in_force r ≡ in_force r'
    → MirrorsOf o p r
    → MirrorsOf o p r'
MirrorsOf-same (ok s) p r r' e m = sym e ∙ m
MirrorsOf-same (err _) p r r' e m = tt

-- The shape of the calls: authorized if they weaken, they write the stores and then the runtime.
abbrev pub change :
    Host → (Settings → Bool) → (Settings → Settings) → (RuntimeState → RuntimeState) → M Settings
change h weak update g = load_with h.file_write h.keychain_write h.autostart_status >>= λ s.
    when_needed (weak s) (authorize_with h.authorization)
    >> (save_with h.file_write h.keychain_write (update s) >> (update_runtime g >> pure (update s)))

module _ (weak : Settings → Bool) (update : Settings → Settings) (g : RuntimeState → RuntimeState)
    (keeps : (s : Settings) (r : RuntimeState)
      → in_force r ≡ asked s
      → weak s ≡ false
      → Guards (in_force r) (in_force (g r)) × (in_force (g r) ≡ asked (update s)))
    (f : Result (Unit {0})) (e : String) (r : RuntimeState) where
  Loaded-Guarded :
      (x : World × Result Settings)
      → Loaded r x
      → Guarded r (
          continue x λ s.
            when_needed (weak s) (authorize_with (err e))
            >> (save_with f (ok tt) (update s) >> (update_runtime g >> pure (update s))))
  Loaded-Guarded (w', err _) (same, m) =
      (subst (λ q. Guards (in_force r) (in_force q)) (sym same) (Guards-refl (in_force r)), m)
  Loaded-Guarded (w', ok s) (same, m, now) = elim (Bool-cases (weak s)) [
    | inl weaker ↦ rw weaker (
      subst (λ q. Guards (in_force r) (in_force q)) (sym same) (Guards-refl (in_force r)),
      MirrorsOf-same (read_settings w'.disk.settings_file) w'.disk.policy_item w'.runtime _ refl m,
    )
    | inr kept ↦ rw kept (
        save-Guarded w'.disk.policy_item w' r f (update s) g refl (ap in_force same) m
          (subst (λ q. Guards (in_force r) (in_force (g q))) (sym same) (keeps s r now kept).0)
          (subst (λ q. in_force (g q) ≡ asked (update s)) (sym same) (keeps s r now kept).1))
  ]

pin_kept :
    (p : PinSettings) (s : Settings) (r : RuntimeState)
    → in_force r ≡ asked s
    → pin_settings_weakened s.pin p ≡ false
    → Guards (in_force r) (record (in_force r) { pin = p })
      × (record (in_force r) { pin = p } ≡ record (asked s) { pin = p })
pin_kept p s r now kept =
    let base = Guards-refl (in_force r) in
    (
      (
        subst (λ (a : Protection). KeepsPin a.pin p) (sym now)
            ((pin_settings_weakened_iff s.pin p).0 kept),
        base.1,
        base.2,
      ),
      ap (λ (a : Protection). record a { pin = p }) now,
    )

touch_id_kept :
    (t : TouchIdSettings) (s : Settings) (r : RuntimeState)
    → in_force r ≡ asked s
    → touch_id_settings_weakened s.touch_id t ≡ false
    → Guards (in_force r) (record (in_force r) { touch_id = t })
      × (record (in_force r) { touch_id = t } ≡ record (asked s) { touch_id = t })
touch_id_kept t s r now kept =
    let base = Guards-refl (in_force r) in
    (
      (
        base.0,
        subst (λ (a : Protection). KeepsTouchId a.touch_id t) (sym now)
            ((touch_id_settings_weakened_iff s.touch_id t).0 kept),
        base.2,
      ),
      ap (λ (a : Protection). record a { touch_id = t }) now,
    )

minutes_kept :
    (n : ℕ) (s : Settings) (r : RuntimeState)
    → in_force r ≡ asked s
    → auto_lock_settings_weakened s.auto_lock_minutes n ≡ false
    → Guards (in_force r) (record (in_force r) { minutes = n })
      × (record (in_force r) { minutes = n } ≡ record (asked s) { minutes = n })
minutes_kept n s r now kept =
    let base = Guards-refl (in_force r) in
    (
      (
        base.0,
        base.1,
        inr (
            subst (λ (a : Protection). KeepsAutoLock a.minutes n) (sym now)
              ((auto_lock_settings_weakened_iff s.auto_lock_minutes n).0 kept)),
      ),
      ap (λ (a : Protection). record a { minutes = n }) now,
    )

pub data Call : Type 0 where
  sets_autostart : Bool → Call
  sets_auto_lock : ℕ → Call
  sets_preferred_backend : PreferredBackend → Call
  sets_pin_settings : PinSettings → Call
  sets_touch_id_settings : TouchIdSettings → Call

unfoldable pub call : Host → Call → M Settings
call h (sets_autostart b) = set_autostart h b
call h (sets_auto_lock m) = set_auto_lock h m
call h (sets_preferred_backend b) = set_preferred_backend h b
call h (sets_pin_settings p) = set_pin_settings h p
call h (sets_touch_id_settings t) = set_touch_id_settings h t

module _ (h : Host) (e : String) (w : World) (write : h.keychain_write ≡ ok tt)
    (refused : h.authorization ≡ err e) (m : Mirrors w) where
  change-Guarded :
      (weak : Settings → Bool) (update : Settings → Settings) (g : RuntimeState → RuntimeState)
      → ((s : Settings) (r : RuntimeState)
          → in_force r ≡ asked s
          → weak s ≡ false
          → Guards (in_force r) (in_force (g r)) × (in_force (g r) ≡ asked (update s)))
      → Guarded w.runtime (change h weak update g w)
  change-Guarded weak update g keeps =
      subst
        (λ k. Guarded w.runtime (
          (load_with h.file_write k h.autostart_status >>= λ s.
          when_needed (weak s) (authorize_with h.authorization)
          >> (save_with h.file_write k (update s) >> (update_runtime g >> pure (update s))))
            w))
        (sym write)
        (subst
          (λ a. Guarded w.runtime (
            (load_with h.file_write (ok tt) h.autostart_status >>= λ s.
            when_needed (weak s) (authorize_with a)
            >> (save_with h.file_write (ok tt) (update s) >> (update_runtime g >> pure (update s))))
              w))
          (sym refused)
          (Loaded-Guarded weak update g keeps h.file_write e w.runtime _ (
            load-Loaded w.disk.settings_file w.disk.policy_item w.runtime h.file_write
              h.autostart_status m)))

  unchanged : Guards (in_force w.runtime) (in_force w.runtime) × Mirrors w
  unchanged = (Guards-refl (in_force w.runtime), m)

  autostart-Guarded :
      (o : Result (Unit {0}))
      → Guarded w.runtime (continue (w, o) λ _. change h (λ _. false) (λ s. s) (λ r. r))
  autostart-Guarded (err x) = unchanged
  autostart-Guarded (ok _) =
      change-Guarded (λ _. false) (λ s. s) (λ r. r) λ s r now _. (Guards-refl (in_force r), now)

  -- Where the user refuses the authorization, the Keychain can be written and the stores hold the
  -- protections in force, no call takes a protection away that was in force: each prompt and
  -- requirement that was on is on, and the time to the automatic lock is the same or no longer.
  -- Also, the stores still hold the protections in force.
  pub call-Guarded : (c : Call) → Guarded w.runtime (call h c w)
  unfolding call set_autostart set_auto_lock set_preferred_backend set_pin_settings
      set_touch_id_settings load save authorize_change apply_pin_settings apply_touch_id_settings
      mark_fido_activity
  call-Guarded (sets_autostart b) = autostart-Guarded h.set_autostart_answer
  call-Guarded (sets_auto_lock minutes) = elim (Bool-cases (contains timeouts minutes)) [
    | inr no_such ↦ rw no_such unchanged
    | inl known ↦ rw known (
        change-Guarded (λ s. auto_lock_settings_weakened s.auto_lock_minutes minutes)
          (λ s. record s { auto_lock_minutes = minutes })
          (λ r. mark_fido_activity h.now_ms (record r { auto_lock_minutes = minutes }))
          λ s r now kept. minutes_kept minutes s r now kept)
  ]
  call-Guarded (sets_preferred_backend b) =
      change-Guarded (λ _. false) (λ s. record s { preferred_backend = b })
        (λ r. record r { preferred_backend = backend_code b })
        λ s r now _. (Guards-refl (in_force r), now)
  call-Guarded (sets_pin_settings p) =
      change-Guarded (λ s. pin_settings_weakened s.pin p) (λ s. record s { pin = p })
        (apply_pin_settings p) λ s r now kept. pin_kept p s r now kept
  call-Guarded (sets_touch_id_settings t) =
      change-Guarded (λ s. touch_id_settings_weakened s.touch_id t) (λ s. record s { touch_id = t })
        (apply_touch_id_settings t) λ s r now kept. touch_id_kept t s r now kept
