-- ===== src/Tests/Protections.antt =====
-- Changes of the settings.
use keynoxis.Base.{refl, ◌≡◌, ok, err}
use keynoxis.State.{default_runtime}
use keynoxis.Settings.{
  load, set_pin_settings, set_touch_id_settings, set_auto_lock, Host, World, stored,
  default_settings, default_policy, default_pin, default_touch_id,
}
use keynoxis.Settings.Policy.{KeepsPin, KeepsTouchId, KeepsAutoLock}
use keynoxis.Settings.Asks.{IsJudged, set_pin_settings-IsJudged}
use keynoxis.Settings.Gate.{Guarded, call, sets_auto_lock, call-Guarded}

abbrev refusing : Host
refusing = record {
  now_ms = 1000;
  file_write = ok tt;
  keychain_write = ok tt;
  autostart_status = 0;
  set_autostart_answer = ok tt;
  authorization = err "Authorization was cancelled";
}

abbrev world : World
world = record {
  disk = record { settings_file = stored default_settings; policy_item = stored default_policy };
  runtime = default_runtime;
}

call-Guarded_example : Guarded default_runtime (call refusing (sets_auto_lock 60) world)
call-Guarded_example =
    call-Guarded refusing "Authorization was cancelled" world refl refl refl (sets_auto_lock 60)

abbrev read_world : World
read_world = (load refusing world).0

loading : load refusing world ≡ (read_world, ok default_settings)
unfolding load
loading = refl

set_pin_settings-IsJudged_example :
    IsJudged
      (KeepsPin default_pin default_pin)
      (λ k. set_pin_settings k default_pin)
      refusing
      world
      read_world
    × IsJudged
        (KeepsTouchId default_touch_id default_touch_id)
        (λ k. set_touch_id_settings k default_touch_id)
        refusing
        world
        read_world
    × IsJudged (KeepsAutoLock 15 60) (λ k. set_auto_lock k 60) refusing world read_world
set_pin_settings-IsJudged_example =
    set_pin_settings-IsJudged refusing world read_world default_settings loading default_pin
      default_touch_id 60 refl
