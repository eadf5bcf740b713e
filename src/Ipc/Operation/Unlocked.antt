-- ===== src/Ipc/Operation/Unlocked.antt =====
-- The sequence of unlocks of src-tauri/src/ipc/commands.rs ends, with all the security keys unlocked.
use mathlib.Core.List.{Memᴰ}
use keynoxis.Base.{
  ℕ, zero, suc, ◌<◌, ◌≤◌, Bool, true, false, not, ◌&&◌, ◌||◌, List, [], ◌∷◌, Option, none, some,
  String, if◌then◌else◌, Nat_eq, String_eq, find, retain, all, length, inl, inr, ◌≡◌, ◌⊎◌, refl,
  arith, ap, ◌∙◌, sym, subst, find_holds,
}
use keynoxis.State.{RuntimeState, AppState, SshKey, DeviceInfo, Phase_eq, needs_pin, ready}
use keynoxis.Ipc.{is_locked_fido2, is_unlocked, all_unlocked}
use keynoxis.Ipc.Operation.{Operation, FidoDevice}
use keynoxis.Ipc.Operation.Finish.{is_unlock, next_locked, move_on, add_path}
use keynoxis.Ipc.Operation.Sequence.{
  User, enter_pin, enter_pins, locked_count, IsSequence, Accepts, IsUnlocked, loaded_app,
  enter_pin-IsUnlocked,
}
use keynoxis.Ipc.Sessions.Agreement.{contains-add_path}

module _ (p q : DeviceInfo → Bool) (narrower : (d : DeviceInfo) → q d ≡ true → p d ≡ true) where
  retain-shrinks : (ds : List DeviceInfo) → length (retain q ds) ≤ length (retain p ds)
  retain-shrinks [] = omega arith
  retain-shrinks (d ∷ ds) = ground (arith, narrower d, retain-shrinks ds)

  retain-loses :
      (t : DeviceInfo) (ds : List DeviceInfo)
      → Memᴰ t ds
      → p t ≡ true
      → q t ≡ false
      → length (retain q ds) < length (retain p ds)
  retain-loses t [] m h k = elim m [ ]
  retain-loses t (d ∷ ds) (Memᴰ.head e) h k =
      ground (arith, retain-shrinks ds, ap p (sym e) ∙ h, ap q (sym e) ∙ k)
  retain-loses t (d ∷ ds) (Memᴰ.tail m) h k = ground (arith, narrower d, retain-loses t ds m h k)

pub find-Mem :
    (p : DeviceInfo → Bool) (ds : List DeviceInfo) {d : DeviceInfo} → find p ds ≡ some d → Memᴰ d ds
find-Mem p [] h = cc
find-Mem p (c ∷ ds) {d} h = go (p c) h (find-Mem p ds)
  where
    go :
        (b : Bool)
        → (if b then some c else find p ds) ≡ some d
        → (find p ds ≡ some d → Memᴰ d ds)
        → Memᴰ d (c ∷ ds)
    go true k f = Memᴰ.head (ap (λ o. elim o [ some x ↦ x | none ↦ d ]) (sym k))
    go false k f = Memᴰ.tail (f k)

all-find :
    (p q : DeviceInfo → Bool) (ds : List DeviceInfo)
    → ((d : DeviceInfo) → p d ≡ false → q d ≡ true)
    → find p ds ≡ none
    → all q ds ≡ true
all-find p q [] f h = refl
all-find p q (d ∷ ds) f h = ground (arith, f d, all-find p q ds f)

-- Every FIDO2 device is unlocked, and no PIN is asked for.
pub record IsDone (s : AppState) : Type 0 where
  pub is_ready : s.phase ≡ ready
  pub each_unlocked : all_unlocked s ≡ true
  pub says_so : s.fido_session_unlocked ≡ true

abbrev Advanced : AppState → AppState → Type 0
Advanced s s' = IsDone s' ⊎ (IsSequence s' × (locked_count s' < locked_count s))

pick : {A : Type 0} (b c : Bool) (x y : A) → b ≡ true → c ≡ true → (if b && c then x else y) ≡ x
pick true true x y h k = refl
pick true false x y h k = cc
pick false c x y h k = cc

module _ (s : AppState) (q : IsSequence s) (o : Operation) (keys : List SshKey) (socket : String)
    (at : o.path ≡ q.target.path) (unlocks : is_unlock o ≡ true) where
  abbrev after : AppState
  after = loaded_app o keys socket s

  narrower : (d : DeviceInfo) → is_locked_fido2 after d ≡ true → is_locked_fido2 s d ≡ true
  unfolding keynoxis.Ipc.Operation.Finish.with_keys
  narrower d h = ground (arith, contains-add_path d.path o.path s.unlocked_device_paths)

  target_unlocked : is_locked_fido2 after q.target ≡ false
  unfolding keynoxis.Ipc.Operation.Finish.with_keys
  target_unlocked = ground (
    arith,
    contains-add_path q.target.path o.path s.unlocked_device_paths,
    (String_eq.test_iff o.path q.target.path).1 at,
  )

  moved :
      (next : Option DeviceInfo)
      → find (is_locked_fido2 after) after.devices ≡ next
      → Advanced s (move_on o next after)
  unfolding keynoxis.Ipc.Operation.Finish.with_keys
  moved none h =
      let each =
        all-find (is_locked_fido2 after) (λ d. not d.is_fido2 || is_unlocked after d) after.devices
          (λ d k. ground (arith, k)) h in
      inl (record { is_ready = refl; each_unlocked = each; says_so = each })
  moved (some d) h = inr (
    record {
      target = d;
      is_active = refl;
      is_locked = find_holds (is_locked_fido2 after) after.devices h;
      is_listed = find-Mem (is_locked_fido2 after) after.devices h;
      in_sequence = q.in_sequence;
      asks_pin = refl;
      no_creation = refl;
      no_deletion = refl;
      no_rename = refl;
    },
    retain-loses (is_locked_fido2 s) (is_locked_fido2 after) narrower q.target s.devices q.is_listed
        q.is_locked target_unlocked,
  )

  next_found : next_locked o after ≡ find (is_locked_fido2 after) after.devices
  unfolding keynoxis.Ipc.Operation.Finish.with_keys
  next_found = pick (is_unlock o) s.unlock_sequence _ none unlocks q.in_sequence

  advanced : Advanced s (move_on o (next_locked o after) after)
  advanced = moved (next_locked o after) (sym next_found)

IsUnlocked-Advanced :
    (s s' : AppState) (q : IsSequence s) → IsUnlocked q.target s s' → Advanced s s'
IsUnlocked-Advanced s s' q (o, keys, socket, at, unlocks, e) =
    subst (Advanced s) (sym e) (advanced s q o keys socket at unlocks)

module _ (f : FidoDevice) (to_string : ℕ → String) (u : User)
    (accepts : Accepts f to_string u) where
  done_stays : (n : ℕ) (r : RuntimeState) → IsDone r.app → enter_pins f to_string u n r ≡ r
  unfolding enter_pins
  done_stays zero r d = refl
  done_stays (suc n) r d = ground (arith, d.is_ready)

  asks :
      (n : ℕ) (r : RuntimeState)
      → r.app.phase ≡ needs_pin
      → enter_pins f to_string u (suc n) r
        ≡ enter_pins f to_string u n (enter_pin f to_string u r.app.active r)
  unfolding enter_pins
  asks n r h = ground (arith, h)

  pub enter_pins-IsDone :
      (n : ℕ) (r : RuntimeState)
      → IsSequence r.app
      → locked_count r.app ≤ n
      → IsDone (enter_pins f to_string u n r).app
  enter_pins-IsDone zero r q h =
      let some_locked =
        retain-loses (is_locked_fido2 r.app) (λ _. false) (λ d k. cc) q.target r.app.devices
          q.is_listed q.is_locked refl in
      absurd (omega (arith, h, some_locked))
  enter_pins-IsDone (suc n) r q h =
      let r' = enter_pin f to_string u r.app.active r in
      subst (λ x. IsDone x.app) (sym (asks n r q.asks_pin))
        (elim (IsUnlocked-Advanced r.app r'.app q
          (enter_pin-IsUnlocked f to_string u r q accepts)) [
            | inl d ↦ subst (λ x. IsDone x.app) (sym (done_stays n r' d)) d
            | inr (q', less) ↦ enter_pins-IsDone n r' q' (omega (arith, h, less))
          ])
