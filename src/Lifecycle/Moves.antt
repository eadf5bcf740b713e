-- ===== src/Lifecycle/Moves.antt =====
-- The steps of src-tauri/src/lifecycle.rs as moves between sets of reasons to be away.
use Prim.Native.Nat.{bit_and, bit_or}
use keynoxis.Base.{
  ℕ, Bool, true, false, not, ◌||◌, ◌≡◌, refl, arith, if◌then◌else◌, ◌==◌, Nat_eq, inl, inr, ap, ◌∙◌,
  sym, is_empty, any, String,
}
use keynoxis.State.{RuntimeState, AppState}
use keynoxis.Activity.{record_activity}
use keynoxis.Settings.Lock.{LockReason, lock_fido_session, lock_state, clear_pins, is_fido2}
use keynoxis.Settings.Lock.Cleared.{IsCleared, lock_state-IsCleared}
use keynoxis.Lifecycle.{
  screen_locked_flag, sleeping_flag, session_inactive_flag, Recovery, handle_event, deactivate,
  reactivate, protect, give_up, note_unlocked, recover_agent, complement,
}
use keynoxis.Lifecycle.Reasons.{Reasons, flags_of, is_away, next, HasLeft, Moves, stays}
use keynoxis.Lifecycle.Resumed.{recover_agent_lem, resume_lem}

module _ (x : Recovery) (w : RuntimeState → RuntimeState) (v v' : Reasons) (r : RuntimeState) where
  cases-Moves :
      (b : Bool) (s t : RuntimeState)
      → (b ≡ true → Moves x w v v' r s)
      → (b ≡ false → Moves x w v v' r t)
      → Moves x w v v' r (if b then s else t)
  cases-Moves true s t p q = p refl
  cases-Moves false s t p q = q refl

stays-same : (v v' : Reasons) → stays v v' ≡ true → is_away v ≡ is_away v'
stays-same v v' h = ground arith

lock_state_flags :
    (now : ℕ) (reason : LockReason) (b : Bool) (r : RuntimeState)
    → (lock_state now reason b r).0.lifecycle_flags ≡ r.lifecycle_flags
unfolding lock_state record_activity
lock_state_flags now reason b r = ground arith

module _ (now : ℕ) where
  note_unlocked_frame :
      (p : RuntimeState × Bool)
      → ((note_unlocked now p).app ≡ p.0.app)
        × ((note_unlocked now p).pins ≡ p.0.pins)
        × ((note_unlocked now p).lifecycle_flags ≡ p.0.lifecycle_flags)
  unfolding record_activity
  note_unlocked_frame (r, true) = (refl, refl, refl)
  note_unlocked_frame (r, false) = (refl, refl, refl)

  pub noted-IsCleared :
      (m : RuntimeState) (p : RuntimeState × Bool)
      → IsCleared m p.0
      → IsCleared m (note_unlocked now p)
  noted-IsCleared m p c =
      let (a, q, _) = note_unlocked_frame p in
      record {
        same_pins = q ∙ c.same_pins;
        no_devices = ap (λ (s : AppState). s.unlocked_device_paths) a ∙ c.no_devices;
        session_ended = ap (λ (s : AppState). s.fido_session_unlocked) a ∙ c.session_ended;
        no_fido2 = ap (λ (s : AppState). any is_fido2 s.keys) a ∙ c.no_fido2;
        others = ap (λ (s : AppState). s.keys) a ∙ c.others;
      }

module _ (now : ℕ) (x : Recovery) (w : RuntimeState → RuntimeState)
    (keeps : (r : RuntimeState) → (w r).lifecycle_flags ≡ r.lifecycle_flags) where
  protect_lem :
      (reason : LockReason) (r : RuntimeState)
      → HasLeft w r (protect now reason w r)
        × ((protect now reason w r).lifecycle_flags ≡ r.lifecycle_flags)
  unfolding protect give_up lock_fido_session clear_pins
  protect_lem reason r =
      let h = clear_pins (give_up r) in
      let b = not (is_empty (give_up r).pins) in
      let (_, _, f) = note_unlocked_frame now (lock_state now reason b (w h)) in
      (
        record {
          handed_over = h;
          no_creation = refl;
          no_algorithm = refl;
          no_deletion = refl;
          no_rename = refl;
          told = refl;
          no_pins = refl;
          same_keys = refl;
          cleared =
              noted-IsCleared now (w h) (lock_state now reason b (w h))
                (lock_state-IsCleared now reason b (w h));
        },
        f ∙ (lock_state_flags now reason b (w h) ∙ keeps h),
      )

  deactivate-Moves :
      (flag : ℕ) (reason : LockReason) (r : RuntimeState) (v v' : Reasons)
      → bit_or r.lifecycle_flags flag ≡ flags_of v'
      → not (bit_and r.lifecycle_flags flag == 0) || not (r.lifecycle_flags == 0) ≡ stays v v'
      → is_away v' ≡ true
      → Moves x w v v' r (deactivate now flag reason w r)
  unfolding deactivate
  deactivate-Moves flag reason r v v' f s away =
      cases-Moves x w v v' r _ _ _
        (λ t. record {
          flags = f;
          change = inl (stays-same v v' (sym s ∙ t), ap (λ n. record r { lifecycle_flags = n }) f);
        })
        λ t.
          let (l, k) =
            protect_lem reason (record r { lifecycle_flags = bit_or r.lifecycle_flags flag }) in
          record {
            flags = k ∙ f;
            change = inr (
                inl (
                  begins (sym s ∙ t),
                  away,
                  record {
                    handed_over = l.handed_over;
                    no_creation = l.no_creation;
                    no_algorithm = l.no_algorithm;
                    no_deletion = l.no_deletion;
                    no_rename = l.no_rename;
                    told = l.told;
                    no_pins = l.no_pins;
                    same_keys = l.same_keys;
                    cleared = l.cleared;
                  },
                ));
          }
    where
      begins : stays v v' ≡ false → is_away v ≡ false
      begins h = ground arith

  reactivate-Moves :
      (flag : ℕ) (event_name : String) (r : RuntimeState) (v v' : Reasons)
      → bit_and r.lifecycle_flags (complement flag) ≡ flags_of v'
      → bit_and r.lifecycle_flags flag == 0
          || not (bit_and r.lifecycle_flags (complement flag) == 0)
        ≡ stays v v'
      → (stays v v' ≡ false → is_away v' ≡ false)
      → Moves x w v v' r (reactivate now flag event_name x r)
  unfolding reactivate
  reactivate-Moves flag event_name r v v' f s back =
      cases-Moves x w v v' r _ _ _
        (λ t. record {
          flags = f;
          change = inl (stays-same v v' (sym s ∙ t), ap (λ n. record r { lifecycle_flags = n }) f);
        })
        λ t.
          let r1 = record r { lifecycle_flags = bit_and r.lifecycle_flags (complement flag) } in
          let (i, a, p, g, q) = recover_agent_lem now x r1.agent_socket r1 refl in
          let l = resume_lem now event_name (recover_agent x r1.agent_socket r1) i in
          record {
            flags = l.same_flags ∙ (g ∙ f);
            change = inr (
                inr (
                  ends (sym s ∙ t),
                  back (sym s ∙ t),
                  record {
                    socket = l.socket ∙ q;
                    shown = l.shown;
                    same_pins = l.same_pins ∙ p;
                    same_paths = l.same_paths ∙ ap (λ (s : AppState). s.unlocked_device_paths) a;
                    same_keys = l.same_keys ∙ ap (λ (s : AppState). s.keys) a;
                    running = l.running;
                  },
                ));
          }
    where
      ends : stays v v' ≡ false → is_away v ≡ true
      ends h = ground (arith, back h)

both-Moves :
    (x : Recovery) (w : RuntimeState → RuntimeState) (v v1 v2 : Reasons) (r : RuntimeState)
    (b : Bool) (s t : RuntimeState)
    → Moves x w v v1 r s
    → Moves x w v v2 r t
    → Moves x w v (if b then v1 else v2) r (if b then s else t)
both-Moves x w v v1 v2 r true s t p q = p
both-Moves x w v v1 v2 r false s t p q = q

-- The flags of a set of reasons, and how the bit operations change them.
abbrev Adds : ℕ → Reasons → Reasons → Type 0
Adds flag v v' =
    (bit_or (flags_of v) flag ≡ flags_of v')
    × (not (bit_and (flags_of v) flag == 0) || not (flags_of v == 0) ≡ stays v v')
    × (is_away v' ≡ true)

abbrev Removes : ℕ → Reasons → Reasons → Type 0
Removes flag v v' =
    (bit_and (flags_of v) (complement flag) ≡ flags_of v')
    × (bit_and (flags_of v) flag == 0 || not (bit_and (flags_of v) (complement flag) == 0)
        ≡ stays v v')
    × (stays v v' ≡ false → is_away v' ≡ false)

Adds-lock : (v : Reasons) → Adds 1 v (record v { is_screen_locked = true })
Adds-lock v = ground arith

Removes-lock : (v : Reasons) → Removes 1 v (record v { is_screen_locked = false })
Removes-lock v = ground arith

Adds-sleep : (v : Reasons) → Adds 2 v (record v { is_asleep = true })
Adds-sleep v = ground arith

Removes-sleep : (v : Reasons) → Removes 2 v (record v { is_asleep = false })
Removes-sleep v = ground arith

Adds-inactive : (v : Reasons) → Adds 4 v (record v { is_inactive = true })
Adds-inactive v = ground arith

Removes-inactive : (v : Reasons) → Removes 4 v (record v { is_inactive = false })
Removes-inactive v = ground arith

module _ (now : ℕ) (x : Recovery) (w : RuntimeState → RuntimeState)
    (keeps : (r : RuntimeState) → (w r).lifecycle_flags ≡ r.lifecycle_flags) (v : Reasons)
    (r : RuntimeState) (f : r.lifecycle_flags ≡ flags_of v) where
  begins :
      (flag : ℕ) (reason : LockReason) (v' : Reasons)
      → Adds flag v v'
      → Moves x w v v' r (deactivate now flag reason w r)
  begins flag reason v' (a, s, away) =
      deactivate-Moves now x w keeps flag reason r v v' (ap (λ n. bit_or n flag) f ∙ a)
        (ap (λ n. not (bit_and n flag == 0) || not (n == 0)) f ∙ s) away

  ends :
      (flag : ℕ) (event_name : String) (v' : Reasons)
      → Removes flag v v'
      → Moves x w v v' r (reactivate now flag event_name x r)
  ends flag event_name v' (a, s, back) =
      reactivate-Moves now x w keeps flag event_name r v v'
        (ap (λ n. bit_and n (complement flag)) f ∙ a)
        (ap (λ n. bit_and n flag == 0 || not (bit_and n (complement flag) == 0)) f ∙ s) back

  unknown : Moves x w v v r r
  unknown = record { flags = f; change = inl (refl, ap (λ n. record r { lifecycle_flags = n }) f) }

  -- Whatever the event, the flags are the set of reasons to be away, by what the event means. Exactly
  -- if the first reason begins, what was pending is given up and the PINs are cleared, and then the
  -- session. Exactly if the last one ends, the agent is recovered: one that is healthy keeps its
  -- socket, and else it is started again; and the session stays as it was. Otherwise only the flags
  -- change. In the middle of the lock other threads may do anything but change the flags.
  pub handle_event-Moves : (event : ℕ) → Moves x w v (next event v) r (handle_event now x w event r)
  unfolding handle_event
  handle_event-Moves event =
      both-Moves x w v _ _ r (event == 1) _ _ (begins screen_locked_flag _ _ (Adds-lock v)) (
        both-Moves x w v _ _ r (event == 2) _ _ (ends screen_locked_flag _ _ (Removes-lock v)) (
          both-Moves x w v _ _ r (event == 3) _ _ (begins sleeping_flag _ _ (Adds-sleep v)) (
            both-Moves x w v _ _ r (event == 4) _ _ (ends sleeping_flag _ _ (Removes-sleep v)) (
              both-Moves x w v _ _ r (event == 5) _ _
                (begins session_inactive_flag _ _ (Adds-inactive v))
                (both-Moves x w v _ _ r (event == 6) _ _
                  (ends session_inactive_flag _ _ (Removes-inactive v)) unknown)))))
