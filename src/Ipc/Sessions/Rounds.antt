-- ===== src/Ipc/Sessions/Rounds.antt =====
-- What the rounds of src-tauri/src/device/watcher.rs and the events of src-tauri/src/lifecycle.rs do to
-- the PINs in memory and to the devices that count as unlocked.
use keynoxis.Base.{
  ◌==◌, Nat_eq, ℕ, Bool, List, String, refl, String_eq, Nat_eq, Result, ok, err, ap, ◌∙◌,
}
use keynoxis.State.{RuntimeState, AppState, DeviceInfo, Backend_eq, Phase_eq}
use keynoxis.Settings.Lock.{LockReason, clear_pins}
use keynoxis.Settings.Lock.Cleared.{lock_fido_session-IsEnded}
use keynoxis.Ipc.Sessions.{undisturbed}
use keynoxis.Ipc.Sessions.Effects.{kept, cleared, restricted, Change, then_same, if_state-Change}
use Prim.Native.Nat.{bit_and, bit_or}
use keynoxis.Device.Watcher.{
  disconnect_others, Scan, has_path, end_scan, announce_if, apply_devices,
}
use keynoxis.Device.Watcher.Connected.{announce-SameSession, apply_devices-SameSession}
use keynoxis.Lifecycle.{Recovery, handle_event, deactivate, reactivate}
use keynoxis.Lifecycle.{recover_agent, complement, give_up, protect}
use keynoxis.Lifecycle.Moves.{noted-IsCleared}
use keynoxis.Lifecycle.Resumed.{recover_agent_lem, resume_lem}

announced-Change :
    (now : ℕ) (c : Scan) (w : Bool) (r : RuntimeState) (p : RuntimeState × Bool)
    → Change r p.0
    → Change r (announce_if now c w p)
announced-Change now c w r p k =
    let (a, b, _) = announce-SameSession now c w p in then_same k (a, b)

pub end_scan-Change :
    (now : ℕ) (c : Scan) (o : Result (List DeviceInfo)) (r : RuntimeState)
    → Change r (end_scan now c o r)
unfolding end_scan disconnect_others
end_scan-Change now c (ok devices) r =
    let (p, u, _) = apply_devices-SameSession c.previous devices r in
    announced-Change now c _ r (apply_devices c.previous devices r)
      (restricted (has_path devices) p u)
end_scan-Change now c (err e) r =
    if_state-Change r r.app.yubikey_connected _ _ (kept refl refl)
      (announced-Change now c _ r _ (kept refl refl))

deactivate-Change :
    (now flag : ℕ) (reason : LockReason) (r : RuntimeState)
    → Change r (deactivate now flag reason undisturbed r)
unfolding deactivate protect
deactivate-Change now flag reason r = if_state-Change r _ _ _ (kept refl refl) (
    let r1 = record r { lifecycle_flags = bit_or r.lifecycle_flags flag } in
    let l = lock_fido_session-IsEnded now reason undisturbed (give_up r1) in
    let c = noted-IsCleared now (clear_pins (give_up r1)) _ l.cleared in
    cleared (c.same_pins ∙ l.no_pins) c.no_devices)

reactivate-Change :
    (now flag : ℕ) (event_name : String) (x : Recovery) (r : RuntimeState)
    → Change r (reactivate now flag event_name x r)
unfolding reactivate
reactivate-Change now flag event_name x r = if_state-Change r _ _ _ (kept refl refl) (
    let r1 = record r { lifecycle_flags = bit_and r.lifecycle_flags (complement flag) } in
    let (i, a, p, _, _) = recover_agent_lem now x r1.agent_socket r1 refl in
    let l = resume_lem now event_name (recover_agent x r1.agent_socket r1) i in
    kept (l.same_pins ∙ p) (l.same_paths ∙ ap (λ (s : AppState). s.unlocked_device_paths) a))

pub handle_event-Change :
    (now : ℕ) (x : Recovery) (event : ℕ) (r : RuntimeState)
    → Change r (handle_event now x undisturbed event r)
unfolding handle_event
handle_event-Change now x event r =
    if_state-Change r (event == 1) _ _ (deactivate-Change now _ _ r) (
      if_state-Change r (event == 2) _ _ (reactivate-Change now _ _ x r) (
        if_state-Change r (event == 3) _ _ (deactivate-Change now _ _ r) (
          if_state-Change r (event == 4) _ _ (reactivate-Change now _ _ x r) (
            if_state-Change r (event == 5) _ _ (deactivate-Change now _ _ r) (
              if_state-Change r (event == 6) _ _ (reactivate-Change now _ _ x r)
                (kept refl refl))))))
