-- ===== src/Ipc/Sessions/Changes.antt =====
-- What each command of src-tauri/src/ipc/commands.rs and each lock does to the PINs in memory and to
-- the devices that count as unlocked.
use keynoxis.Base.{
  ℕ, Bool, true, false, not, ◌||◌, List, Option, none, some, String, ◌≡◌, refl, arith, String_eq,
  Nat_eq, Result, ok, err, is_some, is_ok, Bytes, inl, inr, ap, find, ◌∙◌,
}
use keynoxis.State.{RuntimeState, AppState, SshKey, DeviceInfo, Backend_eq, Phase_eq}
use keynoxis.Activity.{record_activity}
use keynoxis.Provider.{Hardware, HardwareSignature}
use keynoxis.Provider.Gate.{sign_frame}
use keynoxis.Provider
use keynoxis.Shell.{
  MenuEvent, open_main, reload, lock_or_unlock, open_settings, on_menu_event, reload_keys,
}
use keynoxis.Settings.Lock.{
  LockReason, manual, lock_fido_session, set_agent_locked, auto_lock_round, flip_agent_lock,
}
use keynoxis.Settings.Lock.Cleared.{lock_fido_session-IsEnded, auto_lock_round_lem}
use keynoxis.Settings.{mark_fido_activity}
use keynoxis.Agent.Session.{ConnectionContext}
use keynoxis.Agent.Server.{
  begin_sign, finish_sign, finish_other, finish_fido2, log_signature, prepare_key, prompt_for,
}
use keynoxis.Ipc.{
  request_unlock, request_device_unlock, dismiss_auth, relock, unlock_target, is_locked_fido2,
  stopped, device_target, is_fido2_at, forget_device, abandon, forget_active, settle, all_unlocked,
}
use keynoxis.Ipc.Requests.{
  request_rename, request_fido_key_creation, request_fido_key_deletion, create_on, creating,
  create_at, lock_for_creation, lock_for_deletion, delete_on, delete_at, delete_found,
  forget_session, go_on, creation_target, is_fido2_key, reuses,
}
use keynoxis.Ipc.Operation.{FidoDevice, Operation, begin_operation, operation_of, begun}
use keynoxis.Ipc.Operation.Finish.{Environment, finish, succeed, fail_with, with_keys}
use keynoxis.Ipc.Sessions.{
  menu, renaming, scanned, agent_flipped, left, noted, undisturbed, lifecycle, Event, unlock,
  dismiss, begin, device_unlock, deletion, creation, finished, lock_session, lock_agent, auto_lock,
  sign_begun, signed, sign_finished, step,
}
use keynoxis.Ipc.Sessions.Effects.{
  kept, cleared, forgot, added, Allowed, Change, Same, same-Change, then_same, if-Change,
  if_state-Change,
}
use Prim.Native.Nat.{bit_or}
use keynoxis.Lifecycle.{give_up, note_unlocked}
use keynoxis.Ipc.Sessions.Rounds.{end_scan-Change, handle_event-Change}

relock-Change : (r : RuntimeState) → Change r (relock r)
unfolding relock
relock-Change r = if_state-Change r (all_unlocked r.app) _ _ (cleared refl refl) (kept refl refl)

unlock_target-Same : (r : RuntimeState) (o : Option DeviceInfo) → Same r (unlock_target r o).0
unlock_target-Same r none = (refl, refl)
unlock_target-Same r (some d) = (refl, refl)

request_unlock-Change : (r : RuntimeState) → Change r (request_unlock r).0
unfolding request_unlock
request_unlock-Change r = if-Change r (not r.app.yubikey_connected) _ _ (kept refl refl) (
    then_same (relock-Change r) (
      unlock_target-Same (relock r) (find (is_locked_fido2 (relock r).app) (relock r).app.devices)))

device_target-Change :
    (path : String) (r : RuntimeState) (o : Option DeviceInfo) → Change r (device_target path r o).0
unfolding forget_device
device_target-Change path r none = kept refl refl
device_target-Change path r (some d) = forgot path refl refl

request_device_unlock-Change :
    (path : String) (r : RuntimeState) → Change r (request_device_unlock path r).0
unfolding request_device_unlock
request_device_unlock-Change path r =
    device_target-Change path r (find (is_fido2_at path) r.app.devices)

forget_active-Change : (o : Option DeviceInfo) (r : RuntimeState) → Change r (forget_active o r)
unfolding forget_device
forget_active-Change none r = kept refl refl
forget_active-Change (some d) r = forgot d.path refl refl

abandon-Change : (b : Bool) (r : RuntimeState) → Change r (abandon b r)
unfolding abandon
abandon-Change false r = kept refl refl
abandon-Change true r = then_same (forget_active-Change r.app.active r) (refl, refl)

settle-Same :
    (b : Bool) (s : AppState) → (settle b s).unlocked_device_paths ≡ s.unlocked_device_paths
settle-Same true s = refl
settle-Same false s = refl

dismiss_auth-Change : (r : RuntimeState) → Change r (dismiss_auth r).0
unfolding dismiss_auth
dismiss_auth-Change r =
    let s = r.app in
    let abandoned = is_some s.pending_key_deletion || is_some s.pending_key_rename in
    let r2 = abandon abandoned (stopped r) in
    then_same (abandon-Change abandoned (stopped r)) (refl, settle-Same _ r2.app)

lock_for_creation-Change :
    (b : Bool) (path : String) (r : RuntimeState) → Change r (lock_for_creation b path r)
unfolding forget_device
lock_for_creation-Change true path r = kept refl refl
lock_for_creation-Change false path r = forgot path refl refl

go_on-Change :
    (r r1 : RuntimeState) (o : Result (Unit {0})) (next : RuntimeState × Result AppState)
    → Change r r1
    → Change r next.0
    → Change r (go_on r1 o next).0
go_on-Change r r1 (ok u) next k c = c
go_on-Change r r1 (err e) next k c = k

create_on-Change :
    (name algorithm : String) (d : DeviceInfo) (r : RuntimeState)
    → Change r (create_on name algorithm d r).0
unfolding create_on
create_on-Change name algorithm d r = go_on-Change r _ _ _ (kept refl refl) (
    lock_for_creation-Change (reuses r.require_pin_for_create r d.path) d.path
      (creating name algorithm d r))

create_at-Change :
    (name algorithm : String) (o : Option DeviceInfo) (r : RuntimeState)
    → Change r (create_at name algorithm o r).0
create_at-Change name algorithm none r = kept refl refl
create_at-Change name algorithm (some d) r = create_on-Change name algorithm d r

request_fido_key_creation-Change :
    (trim : String → String) (name : String) (algorithm path : Option String) (r : RuntimeState)
    → Change r (request_fido_key_creation trim name algorithm path r).0
unfolding request_fido_key_creation
request_fido_key_creation-Change trim name algorithm path r =
    go_on-Change r _ _ _ (kept refl refl)
      (create_at-Change (trim name) _ (creation_target r.app path) r)

lock_for_deletion-Change :
    (b : Bool) (path : String) (r : RuntimeState) → Change r (lock_for_deletion b path r)
unfolding forget_session
lock_for_deletion-Change true path r = kept refl refl
lock_for_deletion-Change false path r = forgot path refl refl

delete_on-Change :
    (fingerprint path : String) (o : Option DeviceInfo) (r : RuntimeState)
    → Change r (delete_on fingerprint path o r).0
unfolding delete_on
delete_on-Change fingerprint path none r = kept refl refl
delete_on-Change fingerprint path (some d) r =
    lock_for_deletion-Change (reuses r.require_pin_for_delete r path) path _

delete_at-Change :
    (fingerprint : String) (o : Option String) (r : RuntimeState)
    → Change r (delete_at fingerprint o r).0
delete_at-Change fingerprint none r = kept refl refl
delete_at-Change fingerprint (some path) r = delete_on-Change fingerprint path _ r

delete_found-Change :
    (fingerprint : String) (o : Option SshKey) (r : RuntimeState)
    → Change r (delete_found fingerprint o r).0
delete_found-Change fingerprint none r = kept refl refl
delete_found-Change fingerprint (some k) r = delete_at-Change fingerprint k.device_path r

request_fido_key_deletion-Change :
    (fingerprint : String) (r : RuntimeState) → Change r (request_fido_key_deletion fingerprint r).0
unfolding request_fido_key_deletion
request_fido_key_deletion-Change fingerprint r =
    go_on-Change r _ _ _ (kept refl refl)
      (delete_found-Change fingerprint (find (is_fido2_key fingerprint) r.app.keys) r)

request_rename-Change :
    (fingerprint name path : String) (o : Option DeviceInfo) (r : RuntimeState)
    → Change r (request_rename fingerprint name path o r).0
unfolding request_rename forget_session
request_rename-Change fingerprint name path none r = kept refl refl
request_rename-Change fingerprint name path (some d) r = forgot path refl refl

begun-Same : (r : RuntimeState) (o : Result Operation) → Same r (begun r o).0
begun-Same r (err e) = (refl, refl)
begun-Same r (ok o) = ground arith

begin_operation-Same : (r : RuntimeState) → Same r (begin_operation r).0
unfolding begin_operation
begin_operation-Same r = begun-Same r (operation_of r.app)

finish-Change :
    (d : FidoDevice) (to_string : ℕ → String) (v : Environment) (o : Operation) (pin : String)
    (outcome : Result (List SshKey × String)) (r : RuntimeState)
    → Allowed (is_ok outcome) r (finish d to_string v o pin outcome r).0
unfolding succeed fail_with with_keys record_activity mark_fido_activity
finish-Change d to_string v o pin (ok (keys, socket)) r = added o.path pin refl refl refl
finish-Change d to_string v o pin (err e) r = forgot o.path refl (ground arith)

lock_fido_session-Change :
    (now : ℕ) (reason : LockReason) (r : RuntimeState)
    → Change r (lock_fido_session now reason undisturbed r).0
lock_fido_session-Change now reason r =
    let l = lock_fido_session-IsEnded now reason undisturbed r in
    cleared (l.cleared.same_pins ∙ l.no_pins) l.cleared.no_devices

flip_agent_lock-Same :
    (now : ℕ) (locked : Bool) (r : RuntimeState) → Same r (flip_agent_lock now locked r)
unfolding flip_agent_lock record_activity
flip_agent_lock-Same now locked r = ground arith

set_agent_locked-Change :
    (now : ℕ) (locked : Bool) (r : RuntimeState)
    → Change r (set_agent_locked now locked undisturbed undisturbed r)
unfolding set_agent_locked
set_agent_locked-Change now true r =
    then_same (lock_fido_session-Change now manual r) (flip_agent_lock-Same now true _)
set_agent_locked-Change now false r = same-Change (flip_agent_lock-Same now false r)

auto_lock_round-Change : (now : ℕ) (r : RuntimeState) → Change r (auto_lock_round now undisturbed r)
auto_lock_round-Change now r = elim (auto_lock_round_lem now undisturbed r) [
  | inl (l, _, _, _) ↦ cleared (l.cleared.same_pins ∙ l.no_pins) l.cleared.no_devices
  | inr (same, _) ↦ kept (ap (λ x. x.pins) same) (ap (λ x. x.app.unlocked_device_paths) same)
]

begin_sign-Same :
    (now : ℕ) (request : Bytes) (c : ConnectionContext) (r : RuntimeState)
    → Same r (begin_sign now request c r).0
unfolding begin_sign record_activity prepare_key prompt_for
begin_sign-Same now request c r = ground arith

finish_sign-Same :
    (now generation : ℕ) (k : SshKey) (o : Result HardwareSignature) (r : RuntimeState)
    → Same r (finish_sign now generation k o r)
unfolding finish_sign finish_other finish_fido2 log_signature record_activity mark_fido_activity
finish_sign-Same now generation k o r = ground arith

sign-Same :
    (h : Hardware) (k : SshKey) (message : Bytes) (r : RuntimeState)
    → Same r (Provider.sign h r k message).0
sign-Same h k message r =
    let (calls, same) = sign_frame h r k message in
    (ap (λ x. x.pins) same, ap (λ x. x.app.unlocked_device_paths) same)

on_menu_event-Change :
    (now : ℕ) (e : MenuEvent) (r : RuntimeState)
    → Change r (on_menu_event now e undisturbed undisturbed r)
unfolding on_menu_event reload_keys
on_menu_event-Change now open_main r = kept refl refl
on_menu_event-Change now reload r =
    if_state-Change r r.app.yubikey_connected _ r (kept refl refl) (kept refl refl)
on_menu_event-Change now lock_or_unlock r = set_agent_locked-Change now (not r.app.agent_locked) r
on_menu_event-Change now open_settings r = kept refl refl

give_up-Same :
    (r : RuntimeState) (flag : ℕ)
    → Same r (give_up (record r { lifecycle_flags = bit_or r.lifecycle_flags flag }))
unfolding give_up
give_up-Same r flag = (refl, refl)

note_unlocked-Same :
    (now : ℕ) (locked : Bool) (r : RuntimeState) → Same r (note_unlocked now (r, locked))
unfolding record_activity
note_unlocked-Same now true r = (refl, refl)
note_unlocked-Same now false r = (refl, refl)

-- The end of an operation that succeeded, which alone can add a PIN and an unlocked device.
abbrev pub adds_pin : Event → Bool
adds_pin (finished v o pin outcome) = is_ok outcome
adds_pin _ = false

module _ (d : FidoDevice) (h : Hardware) (trim : String → String) (to_string : ℕ → String) where
  pub step-Change :
      (e : Event) (r : RuntimeState) → Allowed (adds_pin e) r (step d h trim to_string e r)
  step-Change unlock r = request_unlock-Change r
  step-Change dismiss r = dismiss_auth-Change r
  step-Change begin r = same-Change (begin_operation-Same r)
  step-Change (device_unlock path) r = request_device_unlock-Change path r
  step-Change (deletion fingerprint) r = request_fido_key_deletion-Change fingerprint r
  step-Change (creation name algorithm path) r =
      request_fido_key_creation-Change trim name algorithm path r
  step-Change (renaming fingerprint name path) r = request_rename-Change fingerprint name path _ r
  step-Change (finished v o pin outcome) r = finish-Change d to_string v o pin outcome r
  step-Change (lock_session now reason) r = lock_fido_session-Change now reason r
  step-Change (lock_agent now locked) r = set_agent_locked-Change now locked r
  step-Change (auto_lock now) r = auto_lock_round-Change now r
  step-Change (agent_flipped now locked) r = same-Change (flip_agent_lock-Same now locked r)
  step-Change (left flag) r = same-Change (give_up-Same r flag)
  step-Change (noted now locked) r = same-Change (note_unlocked-Same now locked r)
  step-Change (sign_begun now request c) r = same-Change (begin_sign-Same now request c r)
  step-Change (signed k message) r = same-Change (sign-Same h k message r)
  step-Change (scanned now c detected) r = end_scan-Change now c detected r
  step-Change (lifecycle now x event) r = handle_event-Change now x event r
  step-Change (menu now event) r = on_menu_event-Change now event r
  step-Change (sign_finished now generation k o) r =
      same-Change (finish_sign-Same now generation k o r)
