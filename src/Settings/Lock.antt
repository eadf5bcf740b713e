-- ===== src/Settings/Lock.antt =====
-- src-tauri/src/settings.rs: the lock of the FIDO2 session, the lock of the agent and the automatic
-- lock.
pub mod Cleared
use keynoxis.Base.{
  ℕ, ◌-◌, ◌*◌, Bool, true, false, not, ◌&&◌, ◌||◌, [], Option, none, some, String, if◌then◌else◌,
  leb, ltb, ◌==◌, Nat_eq, any, retain, is_empty, or_else,
}
use keynoxis.State.{
  RuntimeState, AppState, SshKey, fido2, Backend_eq, needs_pin, agent, info, warning,
  ActivityStatus,
}
use keynoxis.Activity.{publish, record_activity}

pub data LockReason : Type 0 where
  manual inactivity screen_locked sleep session_inactive : LockReason

abbrev pub is_fido2 : SshKey → Bool
is_fido2 k = k.backend == fido2

abbrev pub is_not_fido2 : SshKey → Bool
is_not_fido2 k = not (k.backend == fido2)

abbrev pub system_lock_notice : LockReason → Option String
system_lock_notice screen_locked =
    some
      "FIDO2 identities were locked because this Mac was locked. Unlock the security key to restore them."
system_lock_notice sleep =
    some
      "FIDO2 identities were locked before this Mac went to sleep. Unlock the security key to restore them."
system_lock_notice session_inactive =
    some
      "FIDO2 identities were locked because the macOS user session became inactive. Unlock the security key to restore them."
system_lock_notice manual = none
system_lock_notice inactivity = none

abbrev lock_status : LockReason → ActivityStatus
lock_status screen_locked = warning
lock_status sleep = warning
lock_status session_inactive = warning
lock_status _ = info

abbrev lock_title : LockReason → String
lock_title manual = "FIDO2 session locked"
lock_title inactivity = "FIDO2 session locked automatically"
lock_title screen_locked = "FIDO2 session locked with macOS"
lock_title sleep = "FIDO2 session locked before sleep"
lock_title session_inactive = "FIDO2 session locked for inactive user session"

-- The critical section on the state; `protected` says that there was something to lock.
unfoldable pub lock_app : LockReason → Bool → AppState → AppState
lock_app reason protected s = record s {
  fido_session_unlocked = false;
  unlocked_device_paths = [];
  unlock_sequence = false;
  keys = retain is_not_fido2 s.keys;
  security_notice =
      if protected
      then or_else (system_lock_notice reason) s.security_notice
      else s.security_notice;
  phase = if s.yubikey_connected then needs_pin else s.phase;
}

-- The critical section on the PINs.
unfoldable pub clear_pins : RuntimeState → RuntimeState
clear_pins r = record r { pins = [] }

-- The critical section on the state, and what follows it; `was_unlocked` says whether a PIN was in
-- memory.
unfoldable pub lock_state : ℕ → LockReason → Bool → RuntimeState → RuntimeState × Bool
unfolding lock_app record_activity
lock_state now reason was_unlocked r =
    let protected = was_unlocked || any is_fido2 r.app.keys in
    let locked = record r { app = lock_app reason protected r.app } in
    if not protected then (locked, false) else (
      record_activity now agent (lock_status reason) (lock_title reason) (system_lock_notice reason)
          (publish locked),
      true,
    )

-- Between the two critical sections other threads may do anything (`meanwhile`).
unfoldable pub lock_fido_session :
    ℕ → LockReason → (RuntimeState → RuntimeState) → RuntimeState → RuntimeState × Bool
lock_fido_session now reason meanwhile r =
    lock_state now reason (not (is_empty r.pins)) (meanwhile (clear_pins r))

abbrev agent_lock_title : Bool → String
agent_lock_title true = "SSH agent locked"
agent_lock_title false = "SSH agent unlocked"

abbrev agent_lock_detail : Bool → String
agent_lock_detail true = "All identities are unavailable to SSH clients"
agent_lock_detail false = "Enabled identities are available to SSH clients"

-- The rest of `set_agent_locked`, behind the lock of the session.
unfoldable pub flip_agent_lock : ℕ → Bool → RuntimeState → RuntimeState
unfolding record_activity
flip_agent_lock now locked r =
    if (if r.app.agent_locked then locked else not locked)
    then r
    else record_activity now agent info (agent_lock_title locked) (some (agent_lock_detail locked))
        (publish (record r { app = record r.app { agent_locked = locked } }))

-- Under the signing gate: no signature is in progress. Other threads come in during the lock of the
-- session (`meanwhile`) and after it (`later`).
unfoldable pub set_agent_locked :
    ℕ
    → Bool
    → (RuntimeState → RuntimeState)
    → (RuntimeState → RuntimeState)
    → RuntimeState
    → RuntimeState
set_agent_locked now locked meanwhile later r =
    flip_agent_lock now locked
      (if locked then later (lock_fido_session now manual meanwhile r).0 else r)

-- One round of the watcher. `-` on the numbers is `saturating_sub`; the product is taken not to
-- overflow, since the timeouts that can be set are an hour at most.
unfoldable pub auto_lock_round : ℕ → (RuntimeState → RuntimeState) → RuntimeState → RuntimeState
auto_lock_round now meanwhile r =
    if r.auto_lock_minutes == 0
    then r
    else if ltb 0 r.last_fido_activity_ms
        && leb (r.auto_lock_minutes * 60000) (now - r.last_fido_activity_ms)
    then (lock_fido_session now inactivity meanwhile r).0
    else r
