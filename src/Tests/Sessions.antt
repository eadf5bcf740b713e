-- ===== src/Tests/Sessions.antt =====
-- The sessions of security keys and their locks.
use keynoxis.Base.{
  true, ◌⊎◌, inl, inr, err, String, Result, ℕ, ◌+◌, ◌*◌, ◌<◌, ◌≤◌, false, List, [], ◌∷◌, none, some,
  ◌≡◌, refl, ok, is_ok, as_bytes,
}
use keynoxis.State.{AppState, RuntimeState, default_app, default_runtime}
use keynoxis.Settings.Lock.{set_agent_locked, auto_lock_round, lock_fido_session, manual}
use keynoxis.Settings.Lock.Cleared.{IsEnded, IsFlipped, auto_lock_round_lem, set_agent_locked_lem}
use keynoxis.Ipc.Requests.{
  request_fido_key_creation, request_fido_key_deletion, validate_key_name, create_on, delete_on,
}
use keynoxis.Ipc.Sessions.{
  Moment, whole, pins_cleared, session_locked, agent_flipped, dismiss, unlock, begin, deletion,
  finished, auto_lock, run,
}
use keynoxis.Ipc.Sessions.Agreement.{Within, raced, Agree}
use keynoxis.Ipc.Sessions.Fresh.{IsLocked, request_fido_key_creation-IsLocked}
use keynoxis.Settings.{Stored, missing, unreadable}
use keynoxis.Fido.Credentials.{Encoding, validate_pin}
use keynoxis.Shell.Startup.{Launch, setup, loaded}
use keynoxis.Shell.Startup.Protected.{Accounts, setup-Accounts}
use keynoxis.Shell.Life.{run-setup-Agree}
use keynoxis.Shell.Tray.{IsTruthful, tray_texts-IsTruthful}
use keynoxis.Ipc.{request_unlock, relock}
use keynoxis.Ipc.Operation.Sequence.{User, Accepts, enter_pins, locked_count}
use keynoxis.Ipc.Operation.Unlocked.{IsDone}
use keynoxis.Ipc.Operation.Asked.{enter_pins-request_unlock}
use keynoxis.Ipc.Keys.{set_key_enabled, set_enabled, with_fingerprint, set_first}
use keynoxis.Ipc.Keys.Disabled.{IsOff, set_key_enabled-IsOff}
use keynoxis.Tests.Data.{
  token, laptop_key, unlocked_runtime, token_key, token_unlock, fido_device, hardware, environment,
  same_text, digits,
}

abbrev idle_runtime : RuntimeState
idle_runtime = record unlocked_runtime { last_fido_activity_ms = 1 }

-- Another thread, which dismisses the unlocking of all the devices.
abbrev other : RuntimeState → RuntimeState
other r = record r { app = record r.app { unlock_sequence = false } }

auto_lock_round_lem_example :
    (IsEnded other idle_runtime (auto_lock_round 900001 other idle_runtime)
      × (0 < 15)
      × (0 < 1)
      × (1 + 15 * 60000 ≤ 900001))
    ⊎ ((auto_lock_round 900001 other idle_runtime ≡ idle_runtime)
        × ((◌≡◌ {A = ℕ} 15 0) ⊎ ((◌≡◌ {A = ℕ} 1 0) ⊎ (900001 < 1 + 15 * 60000))))
auto_lock_round_lem_example = auto_lock_round_lem 900001 other idle_runtime

abbrev locked_session : RuntimeState
locked_session = (lock_fido_session 1000 manual other unlocked_runtime).0

set_agent_locked_lem_example :
    IsEnded other unlocked_runtime locked_session
    × IsFlipped true
        (other locked_session)
        (set_agent_locked 1000 true other other unlocked_runtime)
    × IsFlipped false unlocked_runtime (set_agent_locked 1000 false other other unlocked_runtime)
set_agent_locked_lem_example = set_agent_locked_lem 1000 other other unlocked_runtime

abbrev events : List Moment
events =
    whole unlock
    ∷ whole begin
    ∷ whole (finished environment token_unlock "1234" (ok (token_key ∷ [], "agent.sock")))
    ∷ whole (deletion "SHA256:token")
    ∷ whole (auto_lock 900001)
    ∷ pins_cleared
    ∷ whole dismiss
    ∷ session_locked 900002 manual true
    ∷ whole (agent_flipped 900003 true)
    ∷ []

abbrev launch : Launch
launch = record {
  activity_file = err "Activity log is invalid";
  host = record {
    now_ms = 1000;
    file_write = ok tt;
    keychain_write = ok tt;
    autostart_status = 0;
    set_autostart_answer = ok tt;
    authorization = ok tt;
  };
  disk = record { settings_file = unreadable "Settings are invalid"; policy_item = missing };
  registry = missing;
  preferences = missing;
  start_agent = ok "/tmp/agent";
}

abbrev encoding : Encoding
encoding = record { fingerprint = λ _. "SHA256:x"; public_line = λ _ _ comment. comment }

abbrev afterwards : RuntimeState
afterwards = run fido_device hardware same_text digits events (setup encoding launch).0.runtime

run-setup-Agree_example : Within afterwards × ((raced 0 events ≡ true) ⊎ Agree afterwards)
run-setup-Agree_example =
    run-setup-Agree encoding launch fido_device hardware same_text digits events refl

setup-Accounts_example :
    ((setup encoding launch).0.runtime.pins ≡ [])
    × ((setup encoding launch).0.runtime.app.unlocked_device_paths ≡ [])
    × Accounts encoding launch (loaded launch).1 (setup encoding launch).0
setup-Accounts_example = setup-Accounts encoding launch

tray_texts-IsTruthful_example : IsTruthful digits same_text unlocked_runtime
tray_texts-IsTruthful_example = tray_texts-IsTruthful digits same_text unlocked_runtime

abbrev user : User
user = record { pin_of = λ _. "1234"; now = 1000; disabled = []; socket = "/tmp/agent" }

accepted : Accepts fido_device digits user
unfolding validate_pin as_bytes
accepted = λ path. (refl, token_key ∷ [], refl)

-- The token was there, locked.
abbrev connected : RuntimeState
connected = record default_runtime {
  app = record default_app { yubikey_connected = true; devices = token ∷ [] };
}

unlock_returns : is_ok (request_unlock connected).1 ≡ true
unfolding request_unlock relock
unlock_returns = refl

enter_pins-request_unlock_example :
    IsDone
      (enter_pins fido_device digits user
        (locked_count (request_unlock connected).0.app)
        (request_unlock connected).0).app
enter_pins-request_unlock_example =
    enter_pins-request_unlock fido_device digits user connected accepted unlock_returns

creation_returns :
    is_ok (request_fido_key_creation same_text "work" none (some "hid:1") unlocked_runtime).1 ≡ true
unfolding request_fido_key_creation validate_key_name create_on as_bytes
creation_returns = refl

request_fido_key_creation-IsLocked_example :
    IsLocked fido_device digits environment
      (request_fido_key_creation same_text "work" none (some "hid:1") unlocked_runtime).0
request_fido_key_creation-IsLocked_example =
    request_fido_key_creation-IsLocked fido_device digits same_text environment "work" none
      (some "hid:1") unlocked_runtime refl creation_returns

deletion_returns : is_ok (request_fido_key_deletion "SHA256:token" unlocked_runtime).1 ≡ true
unfolding request_fido_key_deletion delete_on
deletion_returns = refl

abbrev disabled_at_once : Stored (List String) × (RuntimeState × Result AppState)
disabled_at_once = set_key_enabled 1000 (ok tt) "SHA256:laptop" false missing unlocked_runtime

laptop_disabled : is_ok disabled_at_once.1.1 ≡ true
unfolding set_key_enabled set_enabled with_fingerprint set_first
laptop_disabled = refl

set_key_enabled-IsOff_example : IsOff laptop_key disabled_at_once
set_key_enabled-IsOff_example =
    set_key_enabled-IsOff 1000 (ok tt) laptop_key missing unlocked_runtime (inl refl, (inr tt, tt))
      laptop_disabled
