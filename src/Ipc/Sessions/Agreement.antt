-- ===== src/Ipc/Sessions/Agreement.antt =====
-- The PINs in memory and the devices that the window shows as unlocked, over the commands of
-- src-tauri/src/ipc/commands.rs and the locks of src-tauri/src/settings.rs.
use keynoxis.Base.{
  Bool, true, false, Option, none, if◌then◌else◌, ℕ, zero, suc, Nat_eq, subst, ◌⊎◌, not, ◌||◌, ◌&&◌,
  List, [], ◌∷◌, ◌++◌, String, ◌≡◌, refl, arith, ◌==◌, String_eq, is_some, contains, retain, inl,
  inr, Bool-cases, ap, sym, ◌∙◌, eq_left, eq_right,
}
use keynoxis.State.{RuntimeState}
use keynoxis.Provider.{get_pin, Hardware}
use keynoxis.Ipc.Operation.{FidoDevice}
use keynoxis.Ipc.Sessions.Effects.{Allowed, kept, cleared, forgot, added, restricted}
use keynoxis.Ipc.Sessions.Changes.{step-Change, adds_pin}
use keynoxis.Device.Watcher.{retain_pins}
use keynoxis.Device.Watcher.Connected.{contains-retain, get_pin-retain_pins}
use keynoxis.Ipc.Sessions.{Moment, whole, pins_cleared, session_locked, step, run}
use keynoxis.Settings.Lock.{LockReason, clear_pins, lock_state}
use keynoxis.Settings.Lock.Cleared.{lock_state-IsCleared}
use keynoxis.Ipc.{remove_pin, is_not_path}
use keynoxis.Ipc.Operation.Finish.{insert_pin, add_path}

-- A device counts as unlocked exactly while its PIN is in memory.
abbrev pub Agree : RuntimeState → Type 0
Agree r =
    (path : String) → is_some (get_pin path r.pins) ≡ contains r.app.unlocked_device_paths path

get_pin-remove_pin :
    (path other : String) (pins : List (String × String))
    → is_some (get_pin path (remove_pin other pins))
      ≡ not (other == path) && is_some (get_pin path pins)
get_pin-remove_pin path other [] = ground arith
get_pin-remove_pin path other ((p, pin) ∷ pins) =
    ground (arith, get_pin-remove_pin path other pins, eq_left p other path, eq_right p other path)

contains-is_not_path :
    (path other : String) (paths : List String)
    → contains (retain (is_not_path other) paths) path ≡ not (other == path) && contains paths path
contains-is_not_path path other [] = ground arith
contains-is_not_path path other (p ∷ paths) =
    ground
      (arith, contains-is_not_path path other paths, eq_left p other path, eq_right p other path)

contains-append :
    (path other : String) (paths : List String)
    → contains (paths ++ (other ∷ [])) path ≡ (other == path || contains paths path)
contains-append path other [] = ground arith
contains-append path other (p ∷ paths) = ground (arith, contains-append path other paths)

pub contains-add_path :
    (path other : String) (paths : List String)
    → contains (add_path other paths) path ≡ (other == path || contains paths path)
contains-add_path path other paths = elim (Bool-cases (contains paths other)) [
  | inl known ↦ elim (Bool-cases (other == path)) [
    | inl same ↦
        rw known (
          ground (arith, known, same, ap (contains paths) ((String_eq.test_iff other path).0 same)))
    | inr differs ↦ rw known (ground (arith, differs))
  ]
  | inr new ↦ rw new (contains-append path other paths)
]

get_pin-insert_pin :
    (path other pin : String) (pins : List (String × String))
    → is_some (get_pin path (insert_pin other pin pins))
      ≡ (other == path || is_some (get_pin path pins))
get_pin-insert_pin path other pin pins = ground (arith, get_pin-remove_pin path other pins)

get_pin-restricted :
    (keep : String → Bool) (path : String) (pins : List (String × String))
    → is_some (get_pin path (retain_pins keep pins)) ≡ (keep path && is_some (get_pin path pins))
get_pin-restricted keep path pins =
    ap is_some (get_pin-retain_pins keep path pins) ∙ if_some (keep path) (get_pin path pins)
  where
    if_some : (b : Bool) (o : Option String) → is_some (if b then o else none) ≡ (b && is_some o)
    if_some true o = refl
    if_some false o = refl

-- No device counts as unlocked whose PIN is not in memory.
abbrev pub Within : RuntimeState → Type 0
Within r =
    (path : String)
    → (contains r.app.unlocked_device_paths path && not (is_some (get_pin path r.pins))) ≡ false

Agree-Within : (r : RuntimeState) → Agree r → Within r
Agree-Within r a path = ground (arith, a path)

module _ (adds : Bool) (r r' : RuntimeState) where
  Allowed-Agree : Allowed adds r r' → Agree r → Agree r'
  Allowed-Agree (kept p q) a path = rw (p, q) (a path)
  Allowed-Agree (cleared p q) a path = rw (p, q) refl
  Allowed-Agree (forgot other p q) a path =
      rw (p, q)
        (get_pin-remove_pin path other r.pins
          ∙ ap (λ b. not (other == path) && b) (a path)
          ∙ sym (contains-is_not_path path other r.app.unlocked_device_paths))
  Allowed-Agree (restricted keep p q) a path =
      rw (p, q)
        (get_pin-restricted keep path r.pins
          ∙ ap (λ b. keep path && b) (a path)
          ∙ sym (contains-retain keep path r.app.unlocked_device_paths))
  Allowed-Agree (added other pin p q c) a path =
      rw (p, q)
        (get_pin-insert_pin path other pin r.pins
          ∙ ap (λ b. other == path || b) (a path)
          ∙ sym (contains-add_path path other r.app.unlocked_device_paths))

  Allowed-Within : Allowed adds r r' → Within r → Within r'
  Allowed-Within (kept p q) a path = rw (p, q) (a path)
  Allowed-Within (cleared p q) a path = rw (p, q) refl
  Allowed-Within (forgot other p q) a path =
      rw
        (
          p,
          q,
          get_pin-remove_pin path other r.pins,
          contains-is_not_path path other r.app.unlocked_device_paths,
        )
        (ground (arith, a path))
  Allowed-Within (restricted keep p q) a path =
      rw
        (
          p,
          q,
          get_pin-restricted keep path r.pins,
          contains-retain keep path r.app.unlocked_device_paths,
        )
        (ground (arith, a path))
  Allowed-Within (added other pin p q c) a path =
      rw
        (
          p,
          q,
          get_pin-insert_pin path other pin r.pins,
          contains-add_path path other r.app.unlocked_device_paths,
        )
        (ground (arith, a path))

  -- Where nothing is added, no PIN comes into an empty memory.
  Allowed-empty : Allowed adds r r' → adds ≡ false → r.pins ≡ [] → r'.pins ≡ []
  Allowed-empty (kept p q) n h = p ∙ h
  Allowed-empty (cleared p q) n h = p
  Allowed-empty (forgot other p q) n h = p ∙ ap (remove_pin other) h
  Allowed-empty (restricted keep p q) n h = p ∙ ap (retain_pins keep) h
  Allowed-empty (added other pin p q c) n h = cc

abbrev fewer : ℕ → ℕ
fewer zero = zero
fewer (suc n) = n

-- How many locks have begun and not ended.
abbrev pub pending_locks : ℕ → List Moment → ℕ
pending_locks n [] = n
pending_locks n (whole e ∷ es) = pending_locks n es
pending_locks n (pins_cleared ∷ es) = pending_locks (suc n) es
pending_locks n (session_locked now reason was_unlocked ∷ es) = pending_locks (fewer n) es

-- An operation succeeds in the middle of a lock. A lock that ends without a beginning, which the code
-- has not, counts as well.
abbrev pub raced : ℕ → List Moment → Bool
raced n [] = false
raced n (whole e ∷ es) = (not (n == 0) && adds_pin e) || raced n es
raced n (pins_cleared ∷ es) = raced (suc n) es
raced n (session_locked now reason was_unlocked ∷ es) = n == 0 || raced (fewer n) es

-- What holds outside of a lock and in the middle of one.
abbrev Exact : ℕ → RuntimeState → Type 0
Exact zero r = Agree r
Exact (suc n) r = r.pins ≡ []

abbrev Bounded : ℕ → RuntimeState → Type 0
Bounded zero r = Within r
Bounded (suc n) r = Unit

session_locked-Agree :
    (now : ℕ) (reason : LockReason) (was_unlocked : Bool) (r : RuntimeState)
    → r.pins ≡ []
    → Agree (lock_state now reason was_unlocked r).0
session_locked-Agree now reason was_unlocked r h path =
    let c = lock_state-IsCleared now reason was_unlocked r in rw (c.same_pins, c.no_devices, h) refl

session_locked-Within :
    (now : ℕ) (reason : LockReason) (was_unlocked : Bool) (r : RuntimeState)
    → Within (lock_state now reason was_unlocked r).0
session_locked-Within now reason was_unlocked r path =
    let c = lock_state-IsCleared now reason was_unlocked r in rw c.no_devices refl

session_locked-Exact :
    (n now : ℕ) (reason : LockReason) (was_unlocked : Bool) (r : RuntimeState)
    → r.pins ≡ []
    → Exact n (lock_state now reason was_unlocked r).0
session_locked-Exact zero now reason was_unlocked r h =
    session_locked-Agree now reason was_unlocked r h
session_locked-Exact (suc n) now reason was_unlocked r h =
    (lock_state-IsCleared now reason was_unlocked r).same_pins ∙ h

session_locked-Bounded :
    (n now : ℕ) (reason : LockReason) (was_unlocked : Bool) (r : RuntimeState)
    → Bounded n (lock_state now reason was_unlocked r).0
session_locked-Bounded zero now reason was_unlocked r =
    session_locked-Within now reason was_unlocked r
session_locked-Bounded (suc n) now reason was_unlocked r = tt

module _ (d : FidoDevice) (h : Hardware) (trim : String → String) (to_string : ℕ → String) where
  run-Bounded :
      (n : ℕ) (es : List Moment) (r : RuntimeState)
      → Bounded n r
      → Bounded (pending_locks n es) (run d h trim to_string es r)
  run-Bounded n [] r a = a
  run-Bounded (suc n) (whole e ∷ es) r a = run-Bounded (suc n) es (step d h trim to_string e r) tt
  run-Bounded zero (whole e ∷ es) r a = run-Bounded zero es (step d h trim to_string e r) (
      Allowed-Within (adds_pin e) r (step d h trim to_string e r)
        (step-Change d h trim to_string e r) a)
  run-Bounded n (pins_cleared ∷ es) r a = run-Bounded (suc n) es (clear_pins r) tt
  run-Bounded n (session_locked now reason was_unlocked ∷ es) r a =
      run-Bounded (fewer n) es (lock_state now reason was_unlocked r).0
        (session_locked-Bounded (fewer n) now reason was_unlocked r)

  run-Exact :
      (n : ℕ) (es : List Moment) (r : RuntimeState)
      → raced n es ≡ false
      → Exact n r
      → Exact (pending_locks n es) (run d h trim to_string es r)
  unfolding clear_pins
  run-Exact n [] r q a = a
  run-Exact (suc n) (whole e ∷ es) r q a =
      run-Exact (suc n) es (step d h trim to_string e r) (ground (arith, q)) (
        Allowed-empty (adds_pin e) r (step d h trim to_string e r)
          (step-Change d h trim to_string e r) (ground (arith, q)) a)
  run-Exact zero (whole e ∷ es) r q a = run-Exact zero es (step d h trim to_string e r) q (
      Allowed-Agree (adds_pin e) r (step d h trim to_string e r)
        (step-Change d h trim to_string e r) a)
  run-Exact n (pins_cleared ∷ es) r q a = run-Exact (suc n) es (clear_pins r) q refl
  run-Exact zero (session_locked now reason was_unlocked ∷ es) r q a = cc
  run-Exact (suc n) (session_locked now reason was_unlocked ∷ es) r q a =
      run-Exact n es (lock_state now reason was_unlocked r).0 (ground (arith, q))
        (session_locked-Exact n now reason was_unlocked r a)

  -- Where no lock is in progress at the end, no device counts as unlocked whose PIN is not in memory;
  -- and the two agree, unless an operation succeeded in the middle of a lock.
  pub run-Agree :
      (es : List Moment) (r : RuntimeState)
      → pending_locks 0 es ≡ 0
      → Agree r
      → Within (run d h trim to_string es r)
        × ((raced 0 es ≡ true) ⊎ Agree (run d h trim to_string es r))
  run-Agree es r ended a = (
    subst (λ n. Bounded n (run d h trim to_string es r)) ended
        (run-Bounded 0 es r (Agree-Within r a)),
    elim (Bool-cases (raced 0 es)) [
      | inl e ↦ inl e
      | inr e ↦
          inr (subst (λ n. Exact n (run d h trim to_string es r)) ended (run-Exact 0 es r e a))
    ],
  )
