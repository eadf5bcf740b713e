-- ===== src/Settings.antt =====
-- src-tauri/src/settings.rs: the settings and their two stores, the settings file and the security
-- policy in the Keychain. What a store holds is a value: JSON, paths and file modes are not modelled.
pub mod Policy
pub mod Gate
pub mod Asks
pub mod Lock
pub mod Labels
use keynoxis.Base.{
  ℕ, suc, ◌+◌, ◌-◌, ◌*◌, Bool, true, false, not, ◌&&◌, ◌||◌, List, [], ◌∷◌, Option, none, some,
  String, if◌then◌else◌, ltb, leb, ◌==◌, Nat_eq, contains, Result, ok, err,
}
use keynoxis.State.{RuntimeState, show_main}
use keynoxis.Activity.{tell}

pub record PinSettings : Type 0 where
  pub prompt_on_startup : Bool
  pub prompt_on_device_connection : Bool
  pub prompt_after_mac_unlock : Bool
  pub require_for_create : Bool
  pub require_for_rename : Bool
  pub require_for_delete : Bool

pub record TouchIdSettings : Type 0 where
  pub touch_for_create : Bool
  pub touch_for_rename : Bool

pub data PreferredBackend : Type 0 where
  prefer_secure_enclave prefer_fido2 : PreferredBackend

pub record Settings : Type 0 where
  pub launch_at_login : Bool
  pub launch_at_login_requires_approval : Bool
  pub auto_lock_minutes : ℕ
  pub preferred_backend : PreferredBackend
  pub pin : PinSettings
  pub touch_id : TouchIdSettings

pub record SecurityPolicy : Type 0 where
  pub auto_lock_minutes : ℕ
  pub pin : PinSettings
  pub touch_id : TouchIdSettings
  pub device_labels : List (String × String)

abbrev pub default_pin : PinSettings
default_pin = record {
  prompt_on_startup = false;
  prompt_on_device_connection = true;
  prompt_after_mac_unlock = true;
  require_for_create = true;
  require_for_rename = true;
  require_for_delete = true;
}

abbrev pub default_touch_id : TouchIdSettings
default_touch_id = record { touch_for_create = true; touch_for_rename = true }

abbrev pub default_settings : Settings
default_settings = record {
  launch_at_login = false;
  launch_at_login_requires_approval = false;
  auto_lock_minutes = 15;
  preferred_backend = prefer_secure_enclave;
  pin = default_pin;
  touch_id = default_touch_id;
}

abbrev pub default_policy : SecurityPolicy
default_policy = record {
  auto_lock_minutes = 15;
  pin = default_pin;
  touch_id = default_touch_id;
  device_labels = [];
}

-- What reading a store gives: nothing there, an error of the read or of the format, or a value.
pub data Stored {ℓ} (A : Type ℓ) : Type ℓ where
  missing : Stored A
  unreadable : String → Stored A
  stored : A → Stored A

pub record Disk : Type 0 where
  pub settings_file : Stored Settings
  pub policy_item : Stored SecurityPolicy

-- The answers of the system during one call: the clock, whether the writes succeed, the state of
-- the login item, whether it could be changed, and the user's answer to the authorization sheet.
pub record Host : Type 0 where
  pub now_ms : ℕ
  pub file_write : Result (Unit {0})
  pub keychain_write : Result (Unit {0})
  pub autostart_status : ℕ
  pub set_autostart_answer : Result (Unit {0})
  pub authorization : Result (Unit {0})

pub record World : Type 0 where
  pub disk : Disk
  pub runtime : RuntimeState

-- Each step keeps the state that it reached, also where it fails.
abbrev pub M : Type 0 → Type 0
M A = World → World × Result A

abbrev pub continue : {A B : Type 0} → World × Result A → (A → M B) → World × Result B
continue (w, ok a) f = f a w
continue (w, err e) f = (w, err e)

infixl 5 ◌>>=◌ ◌>>◌
abbrev pub ◌>>=◌ : {A B : Type 0} → M A → (A → M B) → M B
◌>>=◌ m f w = continue (m w) f

abbrev pub ◌>>◌ : {B : Type 0} → M (Unit {0}) → M B → M B
m >> k = m >>= λ _. k

abbrev pub pure : {A : Type 0} → A → M A
pure a w = (w, ok a)

abbrev pub fail : {A : Type 0} → String → M A
fail e w = (w, err e)

abbrev pub update_runtime : (RuntimeState → RuntimeState) → M (Unit {0})
update_runtime f w = (record w { runtime = f w.runtime }, ok tt)

abbrev pub update_disk : (Disk → Disk) → M (Unit {0})
update_disk f w = (record w { disk = f w.disk }, ok tt)

-- `read`.
abbrev pub read_settings : Stored Settings → Result Settings
read_settings missing = ok default_settings
read_settings (unreadable e) = err e
read_settings (stored s) = ok s

-- The policy as `write_security_policy` writes it, over the one that is there.
abbrev pub policy_with : Settings → SecurityPolicy → SecurityPolicy
policy_with s p = record p {
  auto_lock_minutes = s.auto_lock_minutes;
  pin = s.pin;
  touch_id = s.touch_id;
}

abbrev pub stored_policy : Settings → Stored SecurityPolicy → Stored SecurityPolicy
stored_policy s missing = stored (policy_with s default_policy)
stored_policy s (unreadable e) = unreadable e
stored_policy s (stored p) = stored (policy_with s p)

-- The stored policy goes before the settings file.
abbrev pub with_policy : Settings → Stored SecurityPolicy → Settings
with_policy s missing = s
with_policy s (unreadable e) = s
with_policy s (stored p) = record s {
  auto_lock_minutes = p.auto_lock_minutes;
  pin = p.pin;
  touch_id = p.touch_id;
}

-- `write_security_policy`, whose error both callers only report, by the answer of the Keychain.
abbrev pub write_security_policy :
    Result (Unit {0}) → Settings → Stored SecurityPolicy → Stored SecurityPolicy
write_security_policy (ok _) s p = stored_policy s p
write_security_policy (err e) s p = p

-- By the answer of the file system.
abbrev pub save_public : Result (Unit {0}) → Settings → M (Unit {0})
save_public (ok _) s w = (record w { disk = record w.disk { settings_file = stored s } }, ok tt)
save_public (err e) s w = (w, err e)

-- A missing policy is initialized.
abbrev pub initialize_policy :
    Result (Unit {0}) → Settings → Stored SecurityPolicy → Stored SecurityPolicy
initialize_policy k s missing = write_security_policy k s missing
initialize_policy k s (unreadable e) = unreadable e
initialize_policy k s (stored p) = stored p

abbrev pub with_autostart : ℕ → Settings → Settings
with_autostart status s = record s {
  launch_at_login = status == 1;
  launch_at_login_requires_approval = status == 2;
}

abbrev pub read_file : M Settings
read_file w = (w, read_settings w.disk.settings_file)

abbrev pub merge_policy : Result (Unit {0}) → ℕ → Settings → M Settings
merge_policy k status s w = (
  record w { disk = record w.disk { policy_item = initialize_policy k s w.disk.policy_item } },
  ok (with_autostart status (with_policy s w.disk.policy_item)),
)

abbrev pub load_with : Result (Unit {0}) → Result (Unit {0}) → ℕ → M Settings
load_with f k status = do
  s ← read_file
  merged ← merge_policy k status s
  save_public f merged
  pure merged

abbrev pub save_with : Result (Unit {0}) → Result (Unit {0}) → Settings → M (Unit {0})
save_with f k s = do
  save_public f s
  update_disk λ d. record d { policy_item = write_security_policy k s d.policy_item }

-- The sheet takes the focus: the main window is shown again whatever the answer.
abbrev pub authorize_with : Result (Unit {0}) → M (Unit {0})
authorize_with a w = (record w { runtime = tell show_main w.runtime }, a)

unfoldable pub load : Host → M Settings
load h = load_with h.file_write h.keychain_write h.autostart_status

unfoldable pub save : Host → Settings → M (Unit {0})
save h = save_with h.file_write h.keychain_write

unfoldable pub authorize_change : Host → M (Unit {0})
authorize_change h = authorize_with h.authorization

unfoldable pub mark_fido_activity : ℕ → RuntimeState → RuntimeState
mark_fido_activity now r = record r { last_fido_activity_ms = now }

abbrev pub backend_code : PreferredBackend → ℕ
backend_code prefer_secure_enclave = 0
backend_code prefer_fido2 = 1

unfoldable pub apply_touch_id_settings : TouchIdSettings → RuntimeState → RuntimeState
apply_touch_id_settings t r = record r {
  require_touch_id_for_create = t.touch_for_create;
  require_touch_id_for_rename = t.touch_for_rename;
}

unfoldable pub apply_pin_settings : PinSettings → RuntimeState → RuntimeState
apply_pin_settings p r = record r {
  prompt_pin_on_startup = p.prompt_on_startup;
  prompt_pin_on_device_connection = p.prompt_on_device_connection;
  prompt_pin_after_mac_unlock = p.prompt_after_mac_unlock;
  require_pin_for_create = p.require_for_create;
  require_pin_for_rename = p.require_for_rename;
  require_pin_for_delete = p.require_for_delete;
}

unfoldable pub apply : ℕ → Settings → RuntimeState → RuntimeState
unfolding apply_touch_id_settings apply_pin_settings
apply now s r = apply_touch_id_settings s.touch_id (
    apply_pin_settings s.pin (record r {
      auto_lock_minutes = s.auto_lock_minutes;
      last_fido_activity_ms = now;
      preferred_backend = backend_code s.preferred_backend;
    }))

abbrev drops : Bool → Bool → Bool
drops current next = current && not next

unfoldable pub pin_settings_weakened : PinSettings → PinSettings → Bool
pin_settings_weakened a b =
    drops a.prompt_on_startup b.prompt_on_startup
    || drops a.prompt_on_device_connection b.prompt_on_device_connection
    || drops a.prompt_after_mac_unlock b.prompt_after_mac_unlock
    || drops a.require_for_create b.require_for_create
    || drops a.require_for_rename b.require_for_rename
    || drops a.require_for_delete b.require_for_delete

unfoldable pub touch_id_settings_weakened : TouchIdSettings → TouchIdSettings → Bool
touch_id_settings_weakened a b =
    drops a.touch_for_create b.touch_for_create || drops a.touch_for_rename b.touch_for_rename

unfoldable pub auto_lock_settings_weakened : ℕ → ℕ → Bool
auto_lock_settings_weakened current next = next == 0 || (not (current == 0) && ltb current next)

abbrev pub timeouts : List ℕ
timeouts = 0 ∷ 5 ∷ 15 ∷ 30 ∷ 60 ∷ []

abbrev pub when_needed : Bool → M (Unit {0}) → M (Unit {0})
when_needed true m w = m w
when_needed false m w = (w, ok tt)

module _ (h : Host) where
  unfoldable pub set_autostart : Bool → M Settings
  set_autostart enabled = do λ w. (w, h.set_autostart_answer); s ← load h; save h s; pure s

  unfoldable pub set_auto_lock : ℕ → M Settings
  set_auto_lock minutes w =
      if not (contains timeouts minutes)
      then fail "Unsupported automatic lock timeout" w
      else (do
        s ← load h
        when_needed (auto_lock_settings_weakened s.auto_lock_minutes minutes) (authorize_change h)
        save h (record s { auto_lock_minutes = minutes })
        update_runtime λ r. mark_fido_activity h.now_ms (record r { auto_lock_minutes = minutes })
        pure (record s { auto_lock_minutes = minutes }))
          w

  unfoldable pub set_preferred_backend : PreferredBackend → M Settings
  set_preferred_backend b = do
    s ← load h
    save h (record s { preferred_backend = b })
    update_runtime λ r. record r { preferred_backend = backend_code b }
    pure (record s { preferred_backend = b })

  unfoldable pub set_pin_settings : PinSettings → M Settings
  set_pin_settings p = do
    s ← load h
    when_needed (pin_settings_weakened s.pin p) (authorize_change h)
    save h (record s { pin = p })
    update_runtime (apply_pin_settings p)
    pure (record s { pin = p })

  unfoldable pub set_touch_id_settings : TouchIdSettings → M Settings
  set_touch_id_settings t = do
    s ← load h
    when_needed (touch_id_settings_weakened s.touch_id t) (authorize_change h)
    save h (record s { touch_id = t })
    update_runtime (apply_touch_id_settings t)
    pure (record s { touch_id = t })
