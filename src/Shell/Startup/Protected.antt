-- ===== src/Shell/Startup/Protected.antt =====
-- The protections with which src-tauri/src/lib.rs starts, also where the settings cannot be read.
use Prim.Native.String.{◌++◌ as concat}
use keynoxis.Base.{
  ℕ, List, [], Option, none, some, String, Result, ok, err, ◌≡◌, ◌⊎◌, inl, inr, refl, ap, ◌∙◌,
}
use keynoxis.State.{RuntimeState, SshKey, ActivityEntry, default_runtime}
use keynoxis.Activity.{initialize, record_activity}
use keynoxis.Settings.{
  Settings, default_settings, World, Stored, missing, unreadable, stored, SecurityPolicy, apply,
  load, load_with,
}
use keynoxis.Settings.Gate.{Protection, in_force, asked, Mirrors}
use keynoxis.Fido.Credentials.{Encoding}
use keynoxis.Shell.Startup.{
  Launch, settings_or_default, with_notice, with_enclave_keys, note_recovery, with_agent,
  start_with, loaded, setup,
}

-- What `load` leads to: a process under the settings that it gives mirrors the stores.
abbrev Leads : RuntimeState → World × Result Settings → Type 0
Leads r (w, err e) = w.runtime ≡ r
Leads r (w, ok s) =
    (w.runtime ≡ r)
    × ((r' : RuntimeState) → in_force r' ≡ asked s → Mirrors (record w { runtime = r' }))

load-Leads :
    (f : Stored Settings) (p : Stored SecurityPolicy) (r : RuntimeState) (o k : Result (Unit {0}))
    (status : ℕ)
    → Leads r (
        load_with o k status
          (record { disk = record { settings_file = f; policy_item = p }; runtime = r }))
load-Leads (unreadable e) p r o k status = refl
load-Leads missing p r (err e) k status = refl
load-Leads (stored s) p r (err e) k status = refl
load-Leads missing missing r (ok _) (ok _) status = (refl, λ r' e. e)
load-Leads missing missing r (ok _) (err x) status = (refl, λ r' e. e)
load-Leads missing (unreadable u) r (ok _) k status = (refl, λ r' e. e)
load-Leads missing (stored p) r (ok _) k status = (refl, λ r' e. e)
load-Leads (stored s) missing r (ok _) (ok _) status = (refl, λ r' e. e)
load-Leads (stored s) missing r (ok _) (err x) status = (refl, λ r' e. e)
load-Leads (stored s) (unreadable u) r (ok _) k status = (refl, λ r' e. e)
load-Leads (stored s) (stored p) r (ok _) k status = (refl, λ r' e. e)

-- The settings in force, and what else protects the keys.
record Guard : Type 0 where
  pub protection : Protection
  pub pins : List (String × String)
  pub unlocked_device_paths : List String
  pub notice : Option String

abbrev guard : RuntimeState → Guard
guard r = record {
  protection = in_force r;
  pins = r.pins;
  unlocked_device_paths = r.app.unlocked_device_paths;
  notice = r.app.security_notice;
}

guard-note_recovery :
    (now : ℕ) (o : Option String) (r : RuntimeState) → guard (note_recovery now o r) ≡ guard r
unfolding record_activity
guard-note_recovery now none r = refl
guard-note_recovery now (some e) r = refl

guard-with_enclave_keys :
    (p : Result (List String)) (o : Result (List SshKey)) (r : RuntimeState)
    → guard (with_enclave_keys p o r) ≡ guard r
guard-with_enclave_keys p (ok keys) r = refl
guard-with_enclave_keys p (err e) r = refl

guard-with_agent :
    (now : ℕ) (recovered : Option String) (o : Result String) (r : RuntimeState)
    → guard (with_agent now recovered o r).0 ≡ guard r
unfolding record_activity
guard-with_agent now recovered (err e) r = refl
guard-with_agent now recovered (ok socket) r = guard-note_recovery now recovered _

abbrev pub notice_of : Option String → Option String
notice_of none = none
notice_of (some e) =
    some (concat "Secure settings could not be loaded. Keynoxis applied fail-safe defaults: " e)

abbrev clean_guard : Settings × Option String → Guard
clean_guard (s, recovered) = record {
  protection = asked s;
  pins = [];
  unlocked_device_paths = [];
  notice = notice_of recovered;
}

guard-apply :
    (now : ℕ) (s : Settings) (recovered : Option String) (o : Result (List ActivityEntry))
    → guard (with_notice recovered (apply now s (initialize o default_runtime)))
      ≡ clean_guard (s, recovered)
unfolding apply initialize
guard-apply now s none (ok entries) = refl
guard-apply now s none (err e) = refl
guard-apply now s (some x) (ok entries) = refl
guard-apply now s (some x) (err e) = refl

module _ (x : Encoding) (v : Launch) where
  abbrev fresh : RuntimeState
  fresh = initialize v.activity_file default_runtime

  guard-start_with :
      (p : Settings × Option String) → guard (start_with x v fresh p).0 ≡ clean_guard p
  guard-start_with (s, recovered) =
      guard-with_agent v.host.now_ms recovered v.start_agent _
      ∙ (guard-with_enclave_keys _ _ _ ∙ guard-apply v.host.now_ms s recovered v.activity_file)

  -- The settings could not be loaded, and the defaults are in force and the notice says so; or those
  -- that were loaded are in force, and the stores hold them.
  abbrev pub Accounts : Result Settings → World → Type 0
  Accounts o w =
      ((e : String) × (o ≡ err e)
        × (in_force w.runtime ≡ asked default_settings)
        × (w.runtime.app.security_notice ≡ notice_of (some e)))
      ⊎ ((s : Settings) × (o ≡ ok s) × (in_force w.runtime ≡ asked s) × Mirrors w)

  accounts :
      (w : World) (o : Result Settings) (r : RuntimeState)
      → Leads fresh (w, o)
      → guard r ≡ clean_guard (settings_or_default o)
      → Accounts o (record w { runtime = r })
  accounts w (err e) r l g =
      inl (e, refl, ap (λ (y : Guard). y.protection) g, ap (λ (y : Guard). y.notice) g)
  accounts w (ok s) r (_, mirrors) g =
      let force = ap (λ (y : Guard). y.protection) g in inr (s, refl, force, mirrors r force)

  started :
      (w : World) (o : Result Settings)
      → Leads fresh (w, o)
      → guard (start_with x v w.runtime (settings_or_default o)).0
        ≡ clean_guard (settings_or_default o)
  started w (ok s) (e, _) =
      ap (λ r. guard (start_with x v r (s, none)).0) e ∙ guard-start_with (s, none)
  started w (err m) e =
      ap (λ r. guard (start_with x v r (default_settings, some m)).0) e
      ∙ guard-start_with (default_settings, some m)

  -- The process starts with no PIN in memory and no device unlocked; and either under the settings
  -- that it loaded, which the stores hold, or under the default protections, with a notice.
  pub setup-Accounts :
      ((setup x v).0.runtime.pins ≡ [])
      × ((setup x v).0.runtime.app.unlocked_device_paths ≡ [])
      × Accounts (loaded v).1 (setup x v).0
  unfolding setup load
  setup-Accounts =
      let leads =
        load-Leads v.disk.settings_file v.disk.policy_item fresh v.host.file_write
          v.host.keychain_write v.host.autostart_status in
      let g = started (loaded v).0 (loaded v).1 leads in
      (
        ap (λ (y : Guard). y.pins) g,
        ap (λ (y : Guard). y.unlocked_device_paths) g,
        accounts (loaded v).0 (loaded v).1 _ leads g,
      )
