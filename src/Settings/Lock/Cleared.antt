-- ===== src/Settings/Lock/Cleared.antt =====
-- What the locks of src-tauri/src/settings.rs leave of the session.
use keynoxis.Base.{
  ℕ, ◌+◌, ◌-◌, ◌*◌, ◌≤◌, ◌<◌, Bool, true, false, not, ◌||◌, ◌&&◌, ltb, leb, Nat_eq, List, [], ◌∷◌,
  ◌≡◌, refl, ap, if◌then◌else◌, ◌⊎◌, inl, inr, arith, any, retain, is_empty, ◌==◌, Bool-cases,
}
use keynoxis.State.{RuntimeState, SshKey, Backend_eq}
use keynoxis.Activity.{record_activity}
use keynoxis.Settings.Lock.{
  LockReason, inactivity, manual, is_fido2, is_not_fido2, lock_fido_session, lock_state, clear_pins,
  set_agent_locked, auto_lock_round, flip_agent_lock,
}

-- What the lock makes of a session, by the state at its second critical section: no unlocked device,
-- no FIDO2 key, the other keys as they were then, and no PIN but those that came in since the first
-- one, which clears them.
pub record IsCleared (r r' : RuntimeState) : Type 0 where
  pub same_pins : r'.pins ≡ r.pins
  pub no_devices : r'.app.unlocked_device_paths ≡ []
  pub session_ended : r'.app.fido_session_unlocked ≡ false
  pub no_fido2 : any is_fido2 r'.app.keys ≡ false
  pub others : r'.app.keys ≡ retain is_not_fido2 r.app.keys

-- The whole lock: the PINs are cleared before other threads come in, and the session after.
pub record IsEnded (meanwhile : RuntimeState → RuntimeState) (r r' : RuntimeState) : Type 0 where
  pub no_pins : (clear_pins r).pins ≡ []
  pub same_app : (clear_pins r).app ≡ r.app
  pub cleared : IsCleared (meanwhile (clear_pins r)) r'

any-retain_not : (ks : List SshKey) → any is_fido2 (retain is_not_fido2 ks) ≡ false
any-retain_not [] = refl
any-retain_not (k ∷ ks) = ground (arith, any-retain_not ks)

pub lock_state-IsCleared :
    (now : ℕ) (reason : LockReason) (b : Bool) (r : RuntimeState)
    → IsCleared r (lock_state now reason b r).0
unfolding lock_state
lock_state-IsCleared now reason b r = elim (Bool-cases (b || any is_fido2 r.app.keys)) [
  | inl e ↦ rw e (record {
    same_pins = refl;
    no_devices = refl;
    session_ended = refl;
    no_fido2 = any-retain_not r.app.keys;
    others = refl;
  })
  | inr e ↦ rw e (record {
    same_pins = refl;
    no_devices = refl;
    session_ended = refl;
    no_fido2 = any-retain_not r.app.keys;
    others = refl;
  })
]

pub lock_fido_session-IsEnded :
    (now : ℕ) (reason : LockReason) (meanwhile : RuntimeState → RuntimeState) (r : RuntimeState)
    → IsEnded meanwhile r (lock_fido_session now reason meanwhile r).0
unfolding lock_fido_session clear_pins
lock_fido_session-IsEnded now reason meanwhile r = record {
  no_pins = refl;
  same_app = refl;
  cleared = lock_state-IsCleared now reason (not (is_empty r.pins)) (meanwhile (clear_pins r));
}

abbrev is_idle : ℕ → RuntimeState → Bool
is_idle now r =
    ltb 0 r.last_fido_activity_ms
    && leb (r.auto_lock_minutes * 60000) (now - r.last_fido_activity_ms)

-- One round of the automatic lock at a time: either the session is locked, and then a timeout is
-- set, there was an activity, and the last one lies that many minutes back; or nothing changes, and
-- then no timeout is set, there was no activity yet, or it is more recent. What other threads do in
-- the middle of the lock is any function.
pub auto_lock_round_lem :
    (now : ℕ) (meanwhile : RuntimeState → RuntimeState) (r : RuntimeState)
    → (IsEnded meanwhile r (auto_lock_round now meanwhile r)
        × (0 < r.auto_lock_minutes)
        × (0 < r.last_fido_activity_ms)
        × (r.last_fido_activity_ms + r.auto_lock_minutes * 60000 ≤ now))
      ⊎ ((auto_lock_round now meanwhile r ≡ r)
          × ((r.auto_lock_minutes ≡ 0)
              ⊎ ((r.last_fido_activity_ms ≡ 0)
                  ⊎ (now < r.last_fido_activity_ms + r.auto_lock_minutes * 60000))))
unfolding auto_lock_round
auto_lock_round_lem now meanwhile r = elim (Bool-cases (r.auto_lock_minutes == 0)) [
  | inl never ↦ rw never (inr (refl, inl (ground arith)))
  | inr timed ↦ elim (Bool-cases (is_idle now r)) [
    | inl idle ↦
        rw (timed, idle)
          (inl (
            lock_fido_session-IsEnded now inactivity meanwhile r,
            ground arith,
            ground arith,
            ground arith,
          ))
    | inr busy ↦ rw (timed, busy) (inr (refl, inr (ground arith)))
  ]
]

-- The agent is locked or unlocked, and nothing else of the state, of the PINs and of what the locks
-- read has changed.
pub record IsFlipped (locked : Bool) (r r' : RuntimeState) : Type 0 where
  pub app_flipped : r'.app ≡ record r.app { agent_locked = locked }
  pub same_pins : r'.pins ≡ r.pins
  pub same_activity : r'.last_fido_activity_ms ≡ r.last_fido_activity_ms
  pub same_flags : r'.lifecycle_flags ≡ r.lifecycle_flags

same_lock : (a b : Bool) → (if a then b else not b) ≡ true → a ≡ b
same_lock a b h = ground (arith, h)

flip_agent_lock-IsFlipped :
    (now : ℕ) (locked : Bool) (r : RuntimeState) → IsFlipped locked r (flip_agent_lock now locked r)
unfolding flip_agent_lock record_activity
flip_agent_lock-IsFlipped now locked r =
    elim (Bool-cases (if r.app.agent_locked then locked else not locked)) [
      | inl e ↦ rw e (record {
        app_flipped =
            ap (λ b. record r.app { agent_locked = b }) (same_lock r.app.agent_locked locked e);
        same_pins = refl;
        same_activity = refl;
        same_flags = refl;
      })
      | inr e ↦
          rw e (record {
            app_flipped = refl;
            same_pins = refl;
            same_activity = refl;
            same_flags = refl;
          })
    ]

-- The lock of the agent locks the session, and then the agent; unlocking leaves the session, the PINs
-- and the keys as they are and changes only the lock. What other threads do in the middle of the lock
-- and before its last step is any function.
pub set_agent_locked_lem :
    (now : ℕ) (meanwhile later : RuntimeState → RuntimeState) (r : RuntimeState)
    → IsEnded meanwhile r (lock_fido_session now manual meanwhile r).0
      × IsFlipped true
          (later (lock_fido_session now manual meanwhile r).0)
          (set_agent_locked now true meanwhile later r)
      × IsFlipped false r (set_agent_locked now false meanwhile later r)
unfolding set_agent_locked
set_agent_locked_lem now meanwhile later r = (
  lock_fido_session-IsEnded now manual meanwhile r,
  flip_agent_lock-IsFlipped now true (later (lock_fido_session now manual meanwhile r).0),
  flip_agent_lock-IsFlipped now false r,
)
