-- ===== src/Shell.antt =====
-- src-tauri/src/lib.rs: the texts of the tray, the events of its menu, and the end of the process.
-- The printing of a number is a parameter.
pub mod Tray
pub mod Exit
pub mod Startup
pub mod Life
use Prim.Native.String.{◌++◌ as concat}
use keynoxis.Base.{
  ℕ, Bool, not, ◌&&◌, List, [], ◌∷◌, Option, none, some, String, if◌then◌else◌, ltb, length, take,
  retain, is_empty, chars, join_texts, or_else, unwrap_or,
}
use keynoxis.State.{
  RuntimeState, AppState, SshKey, DeviceInfo, Phase, waiting_for_device, needs_pin, loading,
  waiting_for_touch, ready, error, show_auth, show_main, navigate,
}
use keynoxis.Activity.{publish, tell}
use keynoxis.Settings.Lock.{set_agent_locked}

pub record TrayTexts : Type 0 where
  pub overall : String
  pub device : String
  pub agent : String
  pub lock : String
  pub keys : String

abbrev phase_name : Phase → String
phase_name ready = "Ready"
phase_name waiting_for_touch = "Touch Required"
phase_name needs_pin = "PIN Required"
phase_name error = "Attention Required"
phase_name loading = "Active"
phase_name waiting_for_device = "Active"

abbrev name_of : Option DeviceInfo → String
name_of none = "FIDO2 Security Key"
name_of (some d) = unwrap_or (or_else d.label d.product) "FIDO2 Security Key"

abbrev pub is_shown : AppState → SshKey → Bool
is_shown s k = not s.agent_locked && k.enabled

abbrev pub is_enabled : SshKey → Bool
is_enabled k = k.enabled

-- `filter_map` on the comments.
abbrev pub with_comment : Option String → List String → List String
with_comment none names = names
with_comment (some name) names = name ∷ names

abbrev pub comments : List SshKey → List String
comments [] = []
comments (k ∷ ks) = with_comment k.comment (comments ks)

unfoldable pub tray_names : AppState → List String
tray_names s = take 3 (comments (retain (is_shown s) s.keys))

abbrev pub enabled_count : AppState → ℕ
enabled_count s = length (retain is_enabled s.keys)

module _ (to_string : ℕ → String) where
  abbrev device_text : AppState → String
  device_text s =
      if ltb 1 (length s.devices)
      then concat "● " (concat (to_string (length s.devices)) " Security Keys — Connected")
      else if s.yubikey_connected
      then concat "● " (concat (name_of s.active) " — Connected")
      else "○ No Security Key"

  abbrev agent_text : AppState → String
  agent_text s =
      if s.agent_locked
      then "○ SSH Agent Locked"
      else if s.agent_running
      then "● SSH Agent Running"
      else "○ SSH Agent Not Running"

  abbrev pub keys_text : Bool → ℕ → String → String
  keys_text locked enabled names =
      if is_empty (chars names)
      then concat (to_string (if locked then 0 else enabled)) " identities"
      else concat (to_string enabled) (concat " identities · " names)

  -- What `update_tray` sets.
  unfoldable pub tray_texts : AppState → TrayTexts
  tray_texts s = record {
    overall = concat "Keynoxis — " (phase_name s.phase);
    device = device_text s;
    agent = agent_text s;
    lock = if s.agent_locked then "Unlock SSH Agent" else "Lock SSH Agent";
    keys = keys_text s.agent_locked (enabled_count s) (join_texts ", " (tray_names s));
  }

-- The items of the menu that do something here; `quit` ends the process.
pub data MenuEvent : Type 0 where
  open_main reload lock_or_unlock open_settings : MenuEvent

unfoldable pub reload_keys : RuntimeState → RuntimeState
reload_keys r =
    if r.app.yubikey_connected
    then tell show_auth
        (publish (record r { app = record r.app { phase = needs_pin; last_error = none } }))
    else r

-- Other threads come in while the agent is being locked (`meanwhile`, `later`).
unfoldable pub on_menu_event :
    ℕ
    → MenuEvent
    → (RuntimeState → RuntimeState)
    → (RuntimeState → RuntimeState)
    → RuntimeState
    → RuntimeState
on_menu_event now open_main meanwhile later r = tell show_main r
on_menu_event now reload meanwhile later r = reload_keys r
on_menu_event now lock_or_unlock meanwhile later r =
    set_agent_locked now (not r.app.agent_locked) meanwhile later r
on_menu_event now open_settings meanwhile later r = tell (navigate "settings") (tell show_main r)

-- The process ends: the PINs are forgotten, and the agent is dropped.
unfoldable pub exit : RuntimeState → RuntimeState
exit r = record r { pins = []; agent_socket = none }
