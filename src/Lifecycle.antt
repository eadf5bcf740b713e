-- ===== src/Lifecycle.antt =====
-- src-tauri/src/lifecycle.rs: what the program does when the Mac is locked, sleeps or leaves the user's
-- session, and when it comes back. An event is one step but for the lock of the session, in the middle
-- of which other threads may do anything (`meanwhile`).
pub mod Reasons
pub mod Resumed
pub mod Moves
use Prim.Native.Nat.{bit_and, bit_or}
use Prim.Native.String.{◌++◌ as concat}
use keynoxis.Base.{
  ℕ, ◌-◌, Bool, true, false, not, ◌&&◌, ◌||◌, Option, none, some, String, if◌then◌else◌, ◌==◌,
  Nat_eq, Result, ok, err, is_empty, find,
}
use keynoxis.State.{
  RuntimeState, AppState, DeviceInfo, needs_pin, ready, error, agent, info, success, failure,
  hide_auth, show_auth, show_main,
}
use keynoxis.Activity.{publish, tell, record_activity, u64_mod, wrapping_suc}
use keynoxis.Settings.Lock.{LockReason, screen_locked, sleep, session_inactive, lock_fido_session}
use keynoxis.Ipc.{clear_pending}

abbrev pub screen_locked_flag : ℕ
screen_locked_flag = 1

abbrev pub sleeping_flag : ℕ
sleeping_flag = 2

abbrev pub session_inactive_flag : ℕ
session_inactive_flag = 4

-- `!flag` on 64 bits.
abbrev pub complement : ℕ → ℕ
complement flag = u64_mod - 1 - flag

-- What is pending is given up, and the window for the PIN is hidden.
unfoldable pub give_up : RuntimeState → RuntimeState
give_up r = tell hide_auth (record r {
  auth_dismiss_generation = wrapping_suc r.auth_dismiss_generation;
  app = record (clear_pending r.app) { last_error = none };
})

abbrev pub note_unlocked : ℕ → RuntimeState × Bool → RuntimeState
note_unlocked now (r, true) = r
note_unlocked now (r, false) =
    record_activity now agent info "macOS security state changed"
      (some "No unlocked FIDO2 session was present") r

-- The lock cannot fail, since no mutex of the model is poisoned.
unfoldable pub protect :
    ℕ → LockReason → (RuntimeState → RuntimeState) → RuntimeState → RuntimeState
protect now reason meanwhile r =
    note_unlocked now (lock_fido_session now reason meanwhile (give_up r))

unfoldable pub deactivate :
    ℕ → ℕ → LockReason → (RuntimeState → RuntimeState) → RuntimeState → RuntimeState
deactivate now flag reason meanwhile r =
    let previous = r.lifecycle_flags in
    let r1 = record r { lifecycle_flags = bit_or previous flag } in
    if not (bit_and previous flag == 0) || not (previous == 0)
    then r1
    else protect now reason meanwhile r1

-- What the system answers when the program comes back: the socket is healthy, and what starting the
-- agent again gives.
pub record Recovery : Type 0 where
  pub is_healthy : Bool
  pub start_agent : Result String

abbrev started : RuntimeState → Result String → RuntimeState × Result String
started r (ok socket) = (record r { agent_socket = some socket }, ok socket)
started r (err e) = (record r { agent_socket = none }, err e)

-- The agent that runs is kept if it is healthy, and else started again.
abbrev pub recover_agent : Recovery → Option String → RuntimeState → RuntimeState × Result String
recover_agent v (some socket) r = if v.is_healthy then (r, ok socket) else started r v.start_agent
recover_agent v none r = started r v.start_agent

abbrev is_fido2_device : DeviceInfo → Bool
is_fido2_device d = d.is_fido2

unfoldable pub resumed_app : Bool → String → AppState → AppState
resumed_app prompts socket s0 =
    let s = record s0 { agent_running = true; ssh_socket = some socket; last_error = none } in
    if s.yubikey_connected && not s.fido_session_unlocked
    then record s {
      active = find is_fido2_device s.devices;
      phase = needs_pin;
      unlock_sequence = prompts || s.unlock_sequence;
    }
    else if not (is_empty s.keys)
    then record s { phase = ready }
    else s

abbrev pub show_if : Bool → RuntimeState → RuntimeState
show_if true r = tell show_auth r
show_if false r = r

abbrev pub resume : ℕ → String → RuntimeState × Result String → RuntimeState
resume now event_name (r, ok socket) =
    let s = resumed_app r.prompt_pin_after_mac_unlock socket r.app in
    show_if (s.yubikey_connected && r.prompt_pin_after_mac_unlock) (
      record_activity now agent success "SSH Agent recovered"
        (some (concat event_name " · Agent socket verified")) (publish (record r { app = s })))
resume now event_name (r, err e) = tell show_main (
    record_activity now agent failure "SSH Agent recovery failed" (some e) (
      publish (record r {
        app = record r.app {
          agent_running = false;
          phase = error;
          last_error = some e;
          security_notice = some "Keynoxis could not restore its SSH Agent after macOS resumed.";
        };
      })))

unfoldable pub reactivate : ℕ → ℕ → String → Recovery → RuntimeState → RuntimeState
reactivate now flag event_name v r =
    let previous = r.lifecycle_flags in
    let r1 = record r { lifecycle_flags = bit_and previous (complement flag) } in
    if bit_and previous flag == 0 || not (bit_and previous (complement flag) == 0)
    then r1
    else resume now event_name (recover_agent v r1.agent_socket r1)

-- The events that the system reports; other numbers do nothing.
unfoldable pub handle_event :
    ℕ → Recovery → (RuntimeState → RuntimeState) → ℕ → RuntimeState → RuntimeState
handle_event now v meanwhile event r =
    if event == 1
    then deactivate now screen_locked_flag screen_locked meanwhile r
    else if event == 2
    then reactivate now screen_locked_flag "Screen unlocked" v r
    else if event == 3
    then deactivate now sleeping_flag sleep meanwhile r
    else if event == 4
    then reactivate now sleeping_flag "Mac woke from sleep" v r
    else if event == 5
    then deactivate now session_inactive_flag session_inactive meanwhile r
    else if event == 6
    then reactivate now session_inactive_flag "User session became active" v r
    else r
