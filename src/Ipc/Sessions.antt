-- ===== src/Ipc/Sessions.antt =====
-- What happens to the sessions of the security keys, one step at a time: the commands of
-- src-tauri/src/ipc/commands.rs, the locks of src-tauri/src/settings.rs, the steps of a signature
-- request, the rounds of src-tauri/src/device/watcher.rs and the events of src-tauri/src/lifecycle.rs, with
-- the menu of the tray (src-tauri/src/lib.rs), in any order. An operation on a device is two events, so that others come in
-- between, and so is a lock of the session (`Moment`).
pub mod Effects
pub mod Rounds
pub mod Changes
pub mod Agreement
pub mod Fresh
use keynoxis.Base.{find, ℕ, Bool, List, [], ◌∷◌, Option, String, Result, Bytes}
use keynoxis.State.{RuntimeState, SshKey, DeviceInfo}
use keynoxis.Device.Watcher.{Scan, end_scan}
use Prim.Native.Nat.{bit_or}
use keynoxis.Lifecycle.{Recovery, handle_event, give_up, note_unlocked}
use keynoxis.Shell.{MenuEvent, on_menu_event}
use keynoxis.Settings.Lock.{
  LockReason, lock_fido_session, set_agent_locked, auto_lock_round, flip_agent_lock, clear_pins,
  lock_state,
}
use keynoxis.Agent.Session.{ConnectionContext}
use keynoxis.Agent.Server.{begin_sign, finish_sign}
use keynoxis.Provider.{Hardware, HardwareSignature}
use keynoxis.Provider
use keynoxis.Ipc.{request_unlock, request_device_unlock, dismiss_auth}
use keynoxis.Ipc.Requests.{
  request_rename, is_at, request_fido_key_creation, request_fido_key_deletion,
}
use keynoxis.Ipc.Operation.{Operation, FidoDevice, begin_operation}
use keynoxis.Ipc.Operation.Finish.{Environment, finish}

pub data Event : Type 0 where
  unlock dismiss begin : Event
  device_unlock deletion : String → Event
  creation : String → Option String → Option String → Event
  renaming : String → String → String → Event
  finished : Environment → Operation → String → Result (List SshKey × String) → Event
  lock_session : ℕ → LockReason → Event
  lock_agent : ℕ → Bool → Event
  auto_lock : ℕ → Event
  agent_flipped noted : ℕ → Bool → Event
  left : ℕ → Event
  sign_begun : ℕ → Bytes → ConnectionContext → Event
  signed : SshKey → Bytes → Event
  scanned : ℕ → Scan → Result (List DeviceInfo) → Event
  lifecycle : ℕ → Recovery → ℕ → Event
  menu : ℕ → MenuEvent → Event
  sign_finished : ℕ → ℕ → SshKey → Result HardwareSignature → Event

-- Nothing comes in between.
abbrev pub undisturbed : RuntimeState → RuntimeState
undisturbed r = r

-- A lock of the session in the middle of which other threads come in is two moments, whoever asked
-- for it: the critical section on the PINs, and that on the state. What `set_agent_locked` and
-- `deactivate` do before and after it are the events `agent_flipped`, `left` and `noted`.
pub data Moment : Type 0 where
  whole : Event → Moment
  pins_cleared : Moment
  session_locked : ℕ → LockReason → Bool → Moment

module _ (d : FidoDevice) (h : Hardware) (trim : String → String) (to_string : ℕ → String) where
  abbrev pub step : Event → RuntimeState → RuntimeState
  step unlock r = (request_unlock r).0
  step dismiss r = (dismiss_auth r).0
  step begin r = (begin_operation r).0
  step (device_unlock path) r = (request_device_unlock path r).0
  step (deletion fingerprint) r = (request_fido_key_deletion fingerprint r).0
  step (creation name algorithm path) r = (request_fido_key_creation trim name algorithm path r).0
  step (renaming fingerprint name path) r =
      (request_rename fingerprint name path (find (is_at path) r.app.devices) r).0
  step (finished v o pin outcome) r = (finish d to_string v o pin outcome r).0
  step (lock_session now reason) r = (lock_fido_session now reason undisturbed r).0
  step (lock_agent now locked) r = set_agent_locked now locked undisturbed undisturbed r
  step (auto_lock now) r = auto_lock_round now undisturbed r
  step (agent_flipped now locked) r = flip_agent_lock now locked r
  step (left flag) r = give_up (record r { lifecycle_flags = bit_or r.lifecycle_flags flag })
  step (noted now locked) r = note_unlocked now (r, locked)
  step (sign_begun now request c) r = (begin_sign now request c r).0
  step (signed k message) r = (Provider.sign h r k message).0
  step (scanned now c detected) r = end_scan now c detected r
  step (lifecycle now x event) r = handle_event now x undisturbed event r
  step (menu now event) r = on_menu_event now event undisturbed undisturbed r
  step (sign_finished now generation k o) r = finish_sign now generation k o r

  abbrev pub step_at : Moment → RuntimeState → RuntimeState
  step_at (whole e) r = step e r
  step_at pins_cleared r = clear_pins r
  step_at (session_locked now reason was_unlocked) r = (lock_state now reason was_unlocked r).0

  abbrev pub run : List Moment → RuntimeState → RuntimeState
  run [] r = r
  run (e ∷ es) r = run es (step_at e r)
