-- ===== src/Ipc/Operation/Sequence.antt =====
-- The unlocking of all the security keys, src-tauri/src/ipc/commands.rs: each success goes on to the
-- next device that is locked, until there is none.
use mathlib.Core.List.{Memᴰ}
use keynoxis.Base.{
  ℕ, zero, suc, true, List, ◌∷◌, Option, none, some, String, if◌then◌else◌, ◌==◌, Nat_eq, String_eq,
  Result, ok, err, retain, length, Option-cases, inl, inr, ◌≡◌, refl, ap, ◌∙◌, sym, subst,
  unwrap_or,
}
use keynoxis.State.{
  RuntimeState, AppState, SshKey, DeviceInfo, Phase_eq, needs_pin, loading, load_resident,
}
use keynoxis.Activity.{record_activity}
use keynoxis.Settings.{mark_fido_activity}
use keynoxis.Fido.Credentials.{validate_pin, ed25519_sk}
use keynoxis.Ipc.{is_locked_fido2}
use keynoxis.Ipc.Operation.{
  Operation, FidoDevice, begin_operation, operation_of, begun, run_operation,
}
use keynoxis.Ipc.Operation.Finish.{
  Environment, with_keys, is_unlock, next_locked, move_on, load_keys, succeed, apply_preferences,
  perform_fido_operation, complete, finish, outcome_of, keep_agent, run_begun, with_valid_pin,
}

-- The PINs that the user enters, by the path of the device; nothing else happens meanwhile.
pub record User : Type 0 where
  pub pin_of : String → String
  pub now : ℕ
  pub disabled : List String
  pub socket : String

abbrev pub alone : User → Environment
alone u = record {
  now_ms = u.now;
  disabled = ok u.disabled;
  start_agent = ok u.socket;
  before = λ r. r;
  after = λ r. r;
}

module _ (f : FidoDevice) (to_string : ℕ → String) (u : User) where
  abbrev pub enter_pin : Option DeviceInfo → RuntimeState → RuntimeState
  enter_pin none r = r
  enter_pin (some d) r = (load_keys f to_string (alone u) (u.pin_of d.path) r).0

  -- The user enters PINs while one is asked for, so many times at most.
  unfoldable pub enter_pins : ℕ → RuntimeState → RuntimeState
  enter_pins zero r = r
  enter_pins (suc n) r =
      let rest = enter_pins n (enter_pin r.app.active r) in
      if r.app.phase == needs_pin then rest else r

-- The FIDO2 devices that are not unlocked.
abbrev pub locked_count : AppState → ℕ
locked_count s = length (retain (is_locked_fido2 s) s.devices)

abbrev pub unlock_of : DeviceInfo → Option String → Operation
unlock_of d algorithm = record {
  path = d.path;
  creation = none;
  algorithm = unwrap_or algorithm ed25519_sk;
  deletion = none;
  renaming = none;
}

-- A PIN is asked for in a sequence: the active device is locked, and there is no other request.
pub record IsSequence (s : AppState) : Type 0 where
  pub target : DeviceInfo
  pub is_active : s.active ≡ some target
  pub is_locked : is_locked_fido2 s target ≡ true
  pub is_listed : Memᴰ target s.devices
  pub in_sequence : s.unlock_sequence ≡ true
  pub asks_pin : s.phase ≡ needs_pin
  pub no_creation : s.pending_key_creation ≡ none
  pub no_deletion : s.pending_key_deletion ≡ none
  pub no_rename : s.pending_key_rename ≡ none

abbrev pub begun_app : AppState → AppState
begun_app s = record s { phase = loading; last_error = none }

-- The state once the keys of the device are there.
abbrev pub loaded_app : Operation → List SshKey → String → AppState → AppState
loaded_app o keys socket s = with_keys o keys socket (begun_app s)

abbrev pub IsUnlocked : DeviceInfo → AppState → AppState → Type 0
IsUnlocked d s s' =
    (o : Operation) × (keys : List SshKey) × (socket : String) × (o.path ≡ d.path)
    × (is_unlock o ≡ true)
    × (s' ≡ move_on o (next_locked o (loaded_app o keys socket s)) (loaded_app o keys socket s))

module _ (f : FidoDevice) (to_string : ℕ → String) (u : User) where
  operation-lem :
      (s : AppState) (q : IsSequence s)
      → operation_of s ≡ ok (unlock_of q.target s.pending_key_algorithm)
  unfolding operation_of
  operation-lem s q = rw (q.is_active, q.no_creation, q.no_deletion, q.no_rename) refl

  -- Each device accepts the PIN that the user enters for it.
  abbrev pub Accepts : Type 0
  Accepts =
      (path : String)
      → (validate_pin (u.pin_of path) ≡ ok tt)
        × (keys : List SshKey) × (f.resident path (u.pin_of path) ≡ ok keys)

  outcome-ok :
      (r : RuntimeState) (keys : List SshKey)
      → (p : List SshKey × String) × (outcome_of (alone u) r (ok keys) ≡ ok p)
  outcome-ok r keys = elim (Option-cases r.agent_socket) [
    | inl e ↦ ((apply_preferences u.disabled keys, u.socket), rw e refl)
    | inr (socket, e) ↦ ((apply_preferences u.disabled keys, socket), rw e refl)
  ]

  finish-IsUnlocked :
      (d : DeviceInfo) (algorithm : Option String) (pin : String) (r : RuntimeState) (s : AppState)
      (outcome : Result (List SshKey × String)) (p : List SshKey × String)
      → outcome ≡ ok p
      → r.app ≡ begun_app s
      → IsUnlocked d s
          (finish f to_string
            (alone u)
            (unlock_of d algorithm)
            pin
            outcome
            (keep_agent outcome r)).0.app
  unfolding succeed record_activity mark_fido_activity
  finish-IsUnlocked d algorithm pin r s (err x) p h e = cc
  finish-IsUnlocked d algorithm pin r s (ok (keys, socket)) p h e =
      let o = unlock_of d algorithm in
      (
        o,
        keys,
        socket,
        refl,
        refl,
        ap (λ a. move_on o (next_locked o (with_keys o keys socket a)) (with_keys o keys socket a))
            e,
      )

  completed :
      (d : DeviceInfo) (algorithm : Option String) (r : RuntimeState) (s : AppState)
      → Accepts
      → r.app ≡ begun_app s
      → IsUnlocked d s
          (complete f to_string (alone u) (u.pin_of d.path) (unlock_of d algorithm) r).0.app
  unfolding complete run_operation
  completed d algorithm r s accepts e =
      let (_, keys, k) = accepts d.path in
      let r1 = record r { device_calls = load_resident d.path ∷ r.device_calls } in
      let (p, h) = outcome-ok r1 keys in
      finish-IsUnlocked d algorithm (u.pin_of d.path) r1 s _ p (ap (outcome_of (alone u) r1) k ∙ h)
        e

  valid-IsUnlocked :
      (d : DeviceInfo) (s : AppState) (pin : String) (o : Result (Unit {0})) (r : RuntimeState)
      → o ≡ ok tt
      → IsUnlocked d s (perform_fido_operation f to_string (alone u) pin r).0.app
      → IsUnlocked d s (with_valid_pin f to_string (alone u) pin o r).0.app
  valid-IsUnlocked d s pin (ok _) r e k = k
  valid-IsUnlocked d s pin (err x) r e k = cc

  begun-IsUnlocked :
      (d : DeviceInfo) (algorithm : Option String) (r : RuntimeState)
      → Accepts
      → IsUnlocked d r.app
          (run_begun f to_string
            (alone u)
            (u.pin_of d.path)
            (begun r (ok (unlock_of d algorithm)))).0.app
  begun-IsUnlocked d algorithm r accepts = completed d algorithm _ r.app accepts refl

  pub enter_pin-IsUnlocked :
      (r : RuntimeState) (q : IsSequence r.app)
      → Accepts
      → IsUnlocked q.target r.app (enter_pin f to_string u r.app.active r).app
  unfolding load_keys perform_fido_operation begin_operation
  enter_pin-IsUnlocked r q accepts =
      let d = q.target in
      subst (λ a. IsUnlocked d r.app (enter_pin f to_string u a r).app) (sym q.is_active)
        (valid-IsUnlocked d r.app (u.pin_of d.path) (validate_pin (u.pin_of d.path)) r
          (accepts d.path).0
          (subst
            (λ o.
              IsUnlocked d r.app
                (run_begun f to_string (alone u) (u.pin_of d.path) (begun r o)).0.app)
            (sym (operation-lem r.app q))
            (begun-IsUnlocked d r.app.pending_key_algorithm r accepts)))
