-- ===== src/Tests/Devices.antt =====
-- Devices, the system's events, and the agent's connections.
use keynoxis.Base.{
  get_elem?, length, List, Result, as_bytes, false, true, [], ◌∷◌, some, ok, ◌≡◌, refl, contains,
  Nat_eq, none, arith, sort_by, insert_by,
}
use keynoxis.State.{RuntimeState, DeviceInfo, needs_pin, default_runtime}
use mathlib.Core.List.Memᴰ
use keynoxis.Fido.Device.{eddsa, es256}
use keynoxis.Device.Details.{Entry, Manifest, pos, negsuc, device_details, yubikey_local_id}
use keynoxis.Device.Detect.{yubikeys, detect_all, detect_entry, is_yubikey}
use keynoxis.Device.Detect.Found.{IsDetection, yubikeys-IsDetection}
use keynoxis.Device.Rounds.{RoundInput, IsSupported, run_rounds, run_rounds-IsSupported}
use keynoxis.Device.Round.{IsKept, watch_round, watch_round-IsKept}
use keynoxis.Device.Watcher.{Scan, begin_scan, end_scan}
use keynoxis.Device.Watcher.Connected.{IsPruned, end_scan-IsPruned}
use keynoxis.Device.Watcher.Stable.{IsSteady, end_scan-IsSteady}
use keynoxis.Lifecycle.{Recovery, handle_event}
use keynoxis.Lifecycle.Reasons.{Reasons, Moves, next}
use keynoxis.Lifecycle.Moves.{handle_event-Moves}
use keynoxis.Agent.Start.{start, accept, close}
use keynoxis.Agent.Start.Connections.{
  started, accepted, IsCounted, Reachable-IsCounted, accept-close,
}
use keynoxis.Settings.{missing}
use keynoxis.Settings.Labels.{
  LabelWrites, LabelStore, set_device_label, apply_device_labels, device_identity,
  fallback_device_identity,
}
use keynoxis.Settings.Labels.Kept.{apply_device_labels-set_device_label}
use keynoxis.Tests.Data.{digits, same_text, token, unlocked_runtime}

abbrev recovery : Recovery
recovery = record { is_healthy = true; start_agent = ok "/tmp/agent" }

abbrev present : Reasons
present = record { is_screen_locked = false; is_asleep = false; is_inactive = false }

-- Another thread, which ends the unlocking of all the devices.
abbrev dismiss_all : RuntimeState → RuntimeState
dismiss_all r = record r { app = record r.app { unlock_sequence = false } }

handle_event-Moves_example :
    Moves recovery dismiss_all present
      (next 1 present)
      unlocked_runtime
      (handle_event 1000 recovery dismiss_all 1 unlocked_runtime)
handle_event-Moves_example =
    handle_event-Moves 1000 recovery dismiss_all (λ r. refl) present unlocked_runtime refl 1

abbrev scan : Scan
scan = record { is_initial = false; previous = token ∷ [] }

end_scan-IsPruned_example :
    IsPruned [] unlocked_runtime (end_scan 1000 scan (ok []) unlocked_runtime)
end_scan-IsPruned_example = end_scan-IsPruned 1000 scan [] unlocked_runtime

abbrev waiting : RuntimeState
waiting = record unlocked_runtime {
  app = record unlocked_runtime.app { phase = needs_pin; active = some token };
}

end_scan-IsSteady_example : IsSteady waiting (end_scan 1000 scan (ok (token ∷ [])) waiting)
end_scan-IsSteady_example = end_scan-IsSteady 1000 scan (token ∷ []) waiting refl refl

Reachable-IsCounted_example : IsCounted (accept 7 start)
Reachable-IsCounted_example = Reachable-IsCounted (accept 7 start) (accepted 7 refl started)

is_served : contains (accept 7 start).served 7 ≡ true
unfolding accept keynoxis.Agent.Start.try_acquire
is_served = refl

accept-close_example : contains (accept 8 (close 7 (accept 7 start))).served 8 ≡ true
accept-close_example = accept-close (accept 7 start) 7 8 (accepted 7 refl started) is_served

abbrev writes : LabelWrites
writes = record { file_write = ok tt; keychain_write = ok tt }

abbrev nothing_stored : LabelStore
nothing_stored = record { labels_file = missing; policy_item = missing }

abbrev named : LabelStore × Result (Unit {0})
named = set_device_label (λ _. "0") digits same_text writes nothing_stored token (some "Work")

naming :
    set_device_label (λ _. "0") digits same_text writes nothing_stored token (some "Work")
    ≡ (named.0, ok tt)
unfolding set_device_label as_bytes device_identity fallback_device_identity
naming = refl

apply_device_labels-set_device_label_example :
    (named_devices : List DeviceInfo) × (apply_device_labels
        (λ _. "0")
        digits
        named.0
        (token ∷ token ∷ [])
      ≡ ok named_devices)
    × (get_elem? named_devices 1 ≡ some (record token { label = some "Work" }))
    × (length named_devices ≡ 2)
apply_device_labels-set_device_label_example =
    apply_device_labels-set_device_label (λ _. "0") digits same_text writes nothing_stored named.0
      token token "Work" "Work" (token ∷ token ∷ []) 1 refl refl naming refl refl

-- The token is busy: it cannot be opened.
abbrev busy_entry : Entry
busy_entry = record {
  vendor = pos 0x1050;
  product_code = pos 1031;
  path = some "hid:1";
  product_string = some "Token";
  manufacturer_string = some "Yubico";
  answers = some (record {
    open_code = 3;
    is_fido2 = false;
    supports_credman = false;
    has_pin = false;
    retry_count = (3, 0);
    allocates_info = true;
    cbor_info =
        (3, record { cose_algorithms = []; aaguid = []; fwversion = 0; rk_remaining = negsuc 0 });
  });
}

-- A key that is new.
abbrev new_entry : Entry
new_entry = record busy_entry {
  path = some "hid:0";
  answers = some (record {
    open_code = 0;
    is_fido2 = true;
    supports_credman = true;
    has_pin = true;
    retry_count = (0, 8);
    allocates_info = true;
    cbor_info = (
      0,
      record {
        cose_algorithms = eddsa ∷ es256 ∷ eddsa ∷ [];
        aaguid = 0x2f ∷ 0xc0 ∷ [];
        fwversion = 0x50403;
        rk_remaining = pos 20;
      },
    );
  });
}

abbrev manifest : Manifest
manifest = record {
  error_message = λ _. "FIDO error";
  allocates_list = true;
  entries = (0, some busy_entry ∷ none ∷ some new_entry ∷ []);
  keynoxis_yubikey_local_id = λ n. n;
  to_string = digits;
  to_hex = digits;
}

abbrev new_key : DeviceInfo
new_key = record {
  label = none;
  serial_number = none;
  local_id = none;
  product = some "Token";
  manufacturer = some "Yubico";
  path = "hid:0";
  vendor_id = 0x1050;
  product_id = 1031;
  is_fido2 = true;
  credential_management = true;
  pin_configured = true;
  algorithms = "ECDSA-SK" ∷ "ED25519-SK" ∷ [];
  aaguid = some "2fc0";
  firmware = some "1.1.1";
  resident_credentials_remaining = some 20;
  pin_retries = some 8;
}

-- The busy token is kept, and the new key goes before it.
abbrev detected : List DeviceInfo
detected = new_key ∷ record token { manufacturer = some "Yubico" } ∷ []

detects : yubikeys manifest (token ∷ []) ≡ ok detected
unfolding yubikeys detect_all detect_entry device_details yubikey_local_id is_yubikey sort_by
    insert_by as_bytes
detects = refl

yubikeys-IsDetection_example : IsDetection manifest detected
yubikeys-IsDetection_example =
    yubikeys-IsDetection manifest (token ∷ []) detected (omega arith) (refl, tt) detects

watch_round-IsKept_example :
    IsKept "hid:1"
      (begin_scan unlocked_runtime).0
      (watch_round manifest (λ _. "0") nothing_stored 1000 (λ r. r) unlocked_runtime)
watch_round-IsKept_example =
    watch_round-IsKept manifest (λ _. "0") nothing_stored 1000 (λ r. r) unlocked_runtime busy_entry
      token (Memᴰ.head refl) refl refl

abbrev round_input : RoundInput
round_input = record { now = 1000; manifest = manifest; store = nothing_stored; meanwhile = λ r. r }

run_rounds-IsSupported_example :
    IsSupported (run_rounds (λ _. "0") (round_input ∷ round_input ∷ []) default_runtime).app.devices
run_rounds-IsSupported_example =
    run_rounds-IsSupported (λ _. "0") (round_input ∷ round_input ∷ []) default_runtime
      ((omega arith, λ r s. s), ((omega arith, λ r s. s), tt)) refl
