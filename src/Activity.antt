-- ===== src/Activity.antt =====
-- src-tauri/src/activity.rs: the activity log, newest entry first. Its file is a file of Stores; here it
-- is what `initialize` reads of it. `publish` is the pair of `update_tray` and `emit("state-changed")`
-- that ends most operations (src-tauri/src/lib.rs).
pub mod Bounds
use keynoxis.Base.{
  ℕ, suc, ◌+◌, ◌^◌, ◌-◌, Bool, List, [], ◌∷◌, Option, none, some, String, take, if◌then◌else◌, ltb,
  Result, ok, err, first,
}
use keynoxis.State.{
  RuntimeState, AppState, ActivityCategory, ActivityStatus, ActivityEntry, UiCall, update_tray,
  state_changed, activity_added, show_auth, hide_auth, show_main,
}

abbrev pub max_activity_entries : ℕ
max_activity_entries = 2000

abbrev pub u64_mod : ℕ
u64_mod = 2 ^ 64

-- The window and tray calls.
abbrev pub tell : UiCall → RuntimeState → RuntimeState
tell c r = record r { ui = c ∷ r.ui }

abbrev pub publish : RuntimeState → RuntimeState
publish r = record r { ui = state_changed r.app ∷ update_tray r.app ∷ r.ui }

-- `id.saturating_add(1)`.
abbrev saturating_suc : ℕ → ℕ
saturating_suc n = if ltb (n + 1) u64_mod then n + 1 else u64_mod - 1

abbrev next_id_after : Option ActivityEntry → ℕ
next_id_after none = 1
next_id_after (some e) = saturating_suc e.id

-- The log as its file gives it: an error of `initialize` leaves the state alone.
unfoldable pub initialize : Result (List ActivityEntry) → RuntimeState → RuntimeState
initialize (ok entries) r = record r {
  next_activity_id = next_id_after (first entries);
  activity = entries;
}
initialize (err e) r = r

-- `fetch_add` wraps around.
abbrev pub wrapping_suc : ℕ → ℕ
wrapping_suc n = if ltb (n + 1) u64_mod then n + 1 else 0

abbrev pub entry_of :
    ℕ → ℕ → ActivityCategory → ActivityStatus → String → Option String → ActivityEntry
entry_of id now category status title detail = record {
  id = id;
  timestamp_ms = now;
  category = category;
  status = status;
  title = title;
  detail = detail;
}

unfoldable pub record_activity :
    ℕ → ActivityCategory → ActivityStatus → String → Option String → RuntimeState → RuntimeState
record_activity now category status title detail r =
    let entry = entry_of r.next_activity_id now category status title detail in
    record r {
      next_activity_id = wrapping_suc r.next_activity_id;
      activity = take max_activity_entries (entry ∷ r.activity);
      ui = activity_added entry ∷ r.ui;
    }

unfoldable pub list_activity : RuntimeState → List ActivityEntry
list_activity r = r.activity

unfoldable pub clear_activity : RuntimeState → RuntimeState
clear_activity r = record r { activity = [] }
