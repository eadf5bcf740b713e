-- ===== src/Ipc/Keys.antt =====
-- src-tauri/src/ipc/commands.rs: `set_key_enabled`; and src-tauri/src/key_preferences.rs. The set of
-- disabled fingerprints is a list; a write replaces the whole file or leaves it as it is.
pub mod Disabled
use keynoxis.Base.{
  ℕ, Bool, true, false, not, List, [], ◌∷◌, Option, none, some, String, if◌then◌else◌, ◌==◌,
  String_eq, Result, ok, err, contains, retain, find,
}
use keynoxis.State.{RuntimeState, AppState, SshKey, key, info}
use keynoxis.Activity.{publish, record_activity}
use keynoxis.Settings.{Stored, missing, unreadable, stored}

abbrev pub is_other : String → String → Bool
is_other fingerprint other = not (other == fingerprint)

-- `read`.
abbrev pub read_preferences : Stored (List String) → Result (List String)
read_preferences missing = ok []
read_preferences (unreadable e) = err e
read_preferences (stored l) = ok l

unfoldable pub with_fingerprint : String → Bool → List String → List String
with_fingerprint fingerprint true l = retain (is_other fingerprint) l
with_fingerprint fingerprint false l = if contains l fingerprint then l else fingerprint ∷ l

abbrev written :
    Stored (List String)
    → Result (Unit {0})
    → List String
    → Stored (List String) × Result (Unit {0})
written p (ok _) l = (stored l, ok tt)
written p (err e) l = (p, err e)

abbrev pub change_preferences :
    Result (Unit {0})
    → String
    → Bool
    → Stored (List String)
    → Result (List String)
    → Stored (List String) × Result (Unit {0})
change_preferences write fingerprint enabled p (ok l) =
    written p write (with_fingerprint fingerprint enabled l)
change_preferences write fingerprint enabled p (err e) = (p, err e)

-- `set_enabled`, with the answer of the write.
unfoldable pub set_enabled :
    Result (Unit {0})
    → String
    → Bool
    → Stored (List String)
    → Stored (List String) × Result (Unit {0})
set_enabled write fingerprint enabled p =
    change_preferences write fingerprint enabled p (read_preferences p)

abbrev pub behind : SshKey → Option (List SshKey) → Option (List SshKey)
behind k none = none
behind k (some ks) = some (k ∷ ks)

-- The first key with the fingerprint.
unfoldable pub set_first : String → Bool → List SshKey → Option (List SshKey)
set_first fingerprint enabled [] = none
set_first fingerprint enabled (k ∷ ks) =
    let rest = set_first fingerprint enabled ks in
    if k.fingerprint == fingerprint
    then some (record k { enabled = enabled } ∷ ks)
    else behind k rest

abbrev has_fingerprint : String → SshKey → Bool
has_fingerprint fingerprint k = k.fingerprint == fingerprint

abbrev comment_in : Option SshKey → Option String
comment_in none = none
comment_in (some k) = k.comment

abbrev title : Bool → String
title true = "SSH identity enabled"
title false = "SSH identity disabled"

-- The identity's part, once the preferences are written.
abbrev pub mark :
    ℕ → String → Bool → RuntimeState → Option (List SshKey) → RuntimeState × Result AppState
mark now fingerprint enabled r none = (r, err "SSH identity was not found")
mark now fingerprint enabled r (some keys) =
    let s = record r.app { keys = keys } in
    (
      record_activity now key info (title enabled)
          (comment_in (find (has_fingerprint fingerprint) keys)) (publish (record r { app = s })),
      ok s,
    )

abbrev pub mark_if :
    ℕ → String → Bool → RuntimeState → Result (Unit {0}) → RuntimeState × Result AppState
mark_if now fingerprint enabled r (ok _) =
    mark now fingerprint enabled r (set_first fingerprint enabled r.app.keys)
mark_if now fingerprint enabled r (err e) = (r, err e)

-- Under the signing gate: the preferences, then the identity.
unfoldable pub set_key_enabled :
    ℕ
    → Result (Unit {0})
    → String
    → Bool
    → Stored (List String)
    → RuntimeState
    → Stored (List String) × (RuntimeState × Result AppState)
set_key_enabled now write fingerprint enabled p r =
    let (p', o) = set_enabled write fingerprint enabled p in
    (p', mark_if now fingerprint enabled r o)
