-- ===== src/Ipc/Operation/Asked.antt =====
-- From `request_unlock` of src-tauri/src/ipc/commands.rs to the last device that it unlocks.
use keynoxis.Base.{
  ℕ, Bool, true, false, not, Option, none, some, String, if◌then◌else◌, Result, ok, err, is_ok,
  find, find_holds, ◌≡◌, refl, arith,
}
use keynoxis.State.{RuntimeState, AppState, DeviceInfo}
use keynoxis.Ipc.{is_locked_fido2, request_unlock, relock, unlock_target}
use keynoxis.Ipc.Operation.{FidoDevice}
use keynoxis.Ipc.Operation.Sequence.{User, enter_pins, locked_count, IsSequence, Accepts}
use keynoxis.Ipc.Operation.Unlocked.{IsDone, find-Mem, enter_pins-IsDone}

-- What `request_unlock` asks for.
OnAsked : RuntimeState × Result AppState → Type 0
OnAsked (r, ok s) = IsSequence r.app
OnAsked (r, err e) = Unit

unlock_target-OnAsked :
    (r : RuntimeState) (o : Option DeviceInfo)
    → find (is_locked_fido2 r.app) r.app.devices ≡ o
    → OnAsked (unlock_target r o)
unfolding OnAsked
unlock_target-OnAsked r none h = tt
unlock_target-OnAsked r (some d) h = record {
  target = d;
  is_active = refl;
  is_locked = find_holds (is_locked_fido2 r.app) r.app.devices h;
  is_listed = find-Mem (is_locked_fido2 r.app) r.app.devices h;
  in_sequence = refl;
  asks_pin = refl;
  no_creation = refl;
  no_deletion = refl;
  no_rename = refl;
}

if-OnAsked :
    (r : RuntimeState) (e : String) (b : Bool) (next : RuntimeState × Result AppState)
    → OnAsked next
    → OnAsked (if b then (r, err e) else next)
unfolding OnAsked
if-OnAsked r e true next h = tt
if-OnAsked r e false next h = h

request_unlock-OnAsked : (r : RuntimeState) → OnAsked (request_unlock r)
unfolding request_unlock OnAsked
request_unlock-OnAsked r =
    if-OnAsked r "No FIDO2 security key is connected" (not r.app.yubikey_connected) _
      (unlock_target-OnAsked (relock r) _ refl)

asked-IsSequence :
    (p : RuntimeState × Result AppState) → is_ok p.1 ≡ true → OnAsked p → IsSequence p.0.app
unfolding OnAsked
asked-IsSequence (r, ok s) h k = k
asked-IsSequence (r, err e) h k = cc

module _ (f : FidoDevice) (to_string : ℕ → String) (u : User) where
  -- Where each security key accepts its PIN and nothing else happens, once a request to unlock
  -- returned, the user enters at most as many PINs as there are locked FIDO2 devices, and then all of
  -- them are unlocked, the state says so, and no PIN is asked for.
  pub enter_pins-request_unlock :
      (r : RuntimeState)
      → Accepts f to_string u
      → is_ok (request_unlock r).1 ≡ true
      → IsDone
          (enter_pins f to_string u
            (locked_count (request_unlock r).0.app)
            (request_unlock r).0).app
  enter_pins-request_unlock r accepts h =
      enter_pins-IsDone f to_string u accepts (locked_count (request_unlock r).0.app)
        (request_unlock r).0 (asked-IsSequence (request_unlock r) h (request_unlock-OnAsked r))
        (omega arith)
