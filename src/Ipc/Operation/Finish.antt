-- ===== src/Ipc/Operation/Finish.antt =====
-- src-tauri/src/ipc/commands.rs: the end of `perform_fido_operation`, and the two commands that
-- run it; and `apply` of src-tauri/src/key_preferences.rs.
use Prim.Native.String.{◌++◌ as concat}
use keynoxis.Base.{
  ℕ, Bool, true, false, not, ◌&&◌, List, [], ◌∷◌, ◌++◌, Option, none, some, String, if◌then◌else◌,
  ◌==◌, String_eq, Option_eq, Result, ok, err, is_some, unwrap_or, or_else, find, retain, contains,
  length, map,
}
use keynoxis.State.{
  RuntimeState, AppState, SshKey, fido2, Backend_eq, Phase_eq, needs_pin, ready, error, DeviceInfo,
  show_auth, hide_auth, key, success, failure,
}
use keynoxis.Activity.{publish, tell, record_activity}
use keynoxis.Settings.{mark_fido_activity}
use keynoxis.Provider.{get_pin}
use keynoxis.Fido.Credentials.{validate_pin}
use keynoxis.Ipc.{
  all_unlocked, is_locked_fido2, is_of_other_device, is_not_path, remove_pin, clear_pending,
}
use keynoxis.Ipc.Operation.{Operation, FidoDevice, begin_operation, run_operation}

-- What `apply` reads: the fingerprints that are disabled.
abbrev apply_preference : List String → SshKey → SshKey
apply_preference disabled k = record k { enabled = not (contains disabled k.fingerprint) }

abbrev pub apply_preferences : List String → List SshKey → List SshKey
apply_preferences disabled keys = map (apply_preference disabled) keys

-- `HashMap::insert`.
abbrev pub insert_pin : String → String → List (String × String) → List (String × String)
insert_pin path pin pins = (path, pin) ∷ remove_pin path pins

abbrev pub add_path : String → List String → List String
add_path path paths = if contains paths path then paths else paths ++ (path ∷ [])

abbrev is_at : String → DeviceInfo → Bool
is_at path d = d.path == path

abbrev is_of_device : String → SshKey → Bool
is_of_device path k = k.backend == fido2 && k.device_path == some path

-- No creation, deletion or renaming: the operation unlocks.
abbrev pub is_unlock : Operation → Bool
is_unlock o = not (is_some o.creation) && not (is_some o.deletion) && not (is_some o.renaming)

-- The state with the keys of the device replaced by those that it holds.
unfoldable pub with_keys : Operation → List SshKey → String → AppState → AppState
with_keys o keys socket s = record s {
  keys = retain (is_of_other_device o.path) s.keys ++ keys;
  unlocked_device_paths = add_path o.path s.unlocked_device_paths;
  agent_running = true;
  ssh_socket = some socket;
}

-- The next device to unlock, in a sequence of unlocks.
abbrev pub next_locked : Operation → AppState → Option DeviceInfo
next_locked o s =
    if is_unlock o && s.unlock_sequence then find (is_locked_fido2 s) s.devices else none

abbrev pub move_on : Operation → Option DeviceInfo → AppState → AppState
move_on o next s = record (clear_pending s) {
  active = or_else next (find (is_at o.path) s.devices);
  phase = if is_some next then needs_pin else ready;
  unlock_sequence = is_some next && s.unlock_sequence;
  last_error = none;
  fido_session_unlocked = all_unlocked s;
  security_notice = none;
}

module _ (to_string : ℕ → String) where
  abbrev success_title : Operation → String
  success_title o =
      if is_some o.renaming
      then "SSH identity renamed"
      else if is_some o.deletion
      then "SSH identity deleted"
      else if is_some o.creation
      then "Security key created"
      else "Security key unlocked"

  abbrev comment_of : Option SshKey → String
  comment_of none = "Unnamed SSH identity"
  comment_of (some k) = unwrap_or k.comment "Unnamed SSH identity"

  abbrev renamed_to : Option (SshKey × String) → Option String
  renamed_to none = none
  renamed_to (some (k, name)) = some name

  abbrev success_detail : Operation → AppState → Option String
  success_detail o s =
      if is_some o.renaming
      then renamed_to o.renaming
      else if is_some o.deletion
      then some (concat (comment_of o.deletion) " · FIDO2")
      else if is_some o.creation
      then some (concat (unwrap_or o.creation "") " · FIDO2")
      else some (
          concat (to_string (length (retain (is_of_device o.path) s.keys)))
            " resident identities loaded")

  unfoldable pub succeed :
      ℕ → Operation → String → List SshKey → String → RuntimeState → RuntimeState × Result AppState
  succeed now o pin keys socket r =
      let loaded = with_keys o keys socket r.app in
      let s = move_on o (next_locked o loaded) loaded in
      let r1 =
        record_activity now key success (success_title o) (success_detail o s)
          (mark_fido_activity now (record r { app = s; pins = insert_pin o.path pin r.pins })) in
      (tell (if s.phase == needs_pin then show_auth else hide_auth) (publish r1), ok s)

-- After an invalid PIN the request is kept, for another attempt.
abbrev pub forget_request : Operation → AppState → AppState
forget_request o s = record s {
  pending_key_creation = none;
  pending_key_algorithm = none;
  pending_key_rename = if is_some o.renaming then s.pending_key_rename else none;
  pending_key_deletion = if is_some o.deletion then s.pending_key_deletion else none;
}

abbrev failure_title : Operation → String
failure_title o =
    if is_some o.renaming
    then "SSH identity rename failed"
    else if is_some o.deletion
    then "SSH identity deletion failed"
    else if is_some o.creation
    then "Security key creation failed"
    else "Security key unlock failed"

unfoldable pub fail_with : ℕ → Operation → String → RuntimeState → RuntimeState × Result AppState
fail_with now o e r =
    let retry = e == "Invalid PIN" in
    let s = record r.app {
      phase = if retry then needs_pin else error;
      last_error = some e;
      unlocked_device_paths = retain (is_not_path o.path) r.app.unlocked_device_paths;
      fido_session_unlocked = false;
    } in
    (
      record_activity now key failure (failure_title o) (some e) (
          publish (record r {
            app = if retry then s else forget_request o s;
            pins = remove_pin o.path r.pins;
          })),
      err e,
    )

-- What an operation meets: the time; what is read of the preferences; the socket, where the agent
-- starts only now; and what other threads do before the calls of the device and after them.
pub record Environment : Type 0 where
  pub now_ms : ℕ
  pub disabled : Result (List String)
  pub start_agent : Result String
  pub before : RuntimeState → RuntimeState
  pub after : RuntimeState → RuntimeState

infixl 5 ◌>>=◌
abbrev ◌>>=◌ : {A B : Type 0} → Result A → (A → Result B) → Result B
ok a >>= f = f a
err e >>= f = err e

-- The keys and the socket, or an error.
abbrev pub outcome_of :
    Environment → RuntimeState → Result (List SshKey) → Result (List SshKey × String)
outcome_of v r keys = do
  loaded ← keys
  disabled ← v.disabled
  socket ← elim r.agent_socket [ some socket ↦ ok socket | none ↦ v.start_agent ]
  ok (apply_preferences disabled loaded, socket)

-- The agent is kept once it started.
abbrev pub keep_agent : Result (List SshKey × String) → RuntimeState → RuntimeState
keep_agent (ok (keys, socket)) r = record r { agent_socket = some socket }
keep_agent (err e) r = r

module _ (d : FidoDevice) (to_string : ℕ → String) where
  abbrev pub finish :
      Environment
      → Operation
      → String
      → Result (List SshKey × String)
      → RuntimeState
      → RuntimeState × Result AppState
  finish v o pin (ok (keys, socket)) r = succeed to_string v.now_ms o pin keys socket r
  finish v o pin (err e) r = fail_with v.now_ms o e r

  unfoldable pub complete :
      Environment → String → Operation → RuntimeState → RuntimeState × Result AppState
  complete v pin o r =
      let (calls, keys) = run_operation d o pin in
      let r1 = v.after (record r { device_calls = calls ++ r.device_calls }) in
      let outcome = outcome_of v r1 keys in finish v o pin outcome (keep_agent outcome r1)

  abbrev pub run_begun :
      Environment → String → RuntimeState × Result Operation → RuntimeState × Result AppState
  run_begun v pin (r, err e) = (r, err e)
  run_begun v pin (r, ok o) = complete v pin o (v.before r)

  unfoldable pub perform_fido_operation :
      Environment → String → RuntimeState → RuntimeState × Result AppState
  perform_fido_operation v pin r = run_begun v pin (begin_operation r)

  abbrev pub with_valid_pin :
      Environment → String → Result (Unit {0}) → RuntimeState → RuntimeState × Result AppState
  with_valid_pin v pin (ok _) r = perform_fido_operation v pin r
  with_valid_pin v pin (err e) r = (r, err e)

  unfoldable pub load_keys : Environment → String → RuntimeState → RuntimeState × Result AppState
  load_keys v pin r = with_valid_pin v pin (validate_pin pin) r

  abbrev pub with_cached_pin :
      Environment → Option String → RuntimeState → RuntimeState × Result AppState
  with_cached_pin v (some pin) r = perform_fido_operation v pin r
  with_cached_pin v none r = (r, err "The FIDO2 session is locked")

  abbrev pub on_active :
      Environment → Option DeviceInfo → RuntimeState → RuntimeState × Result AppState
  on_active v none r = (r, err "YubiKey was removed")
  on_active v (some a) r = with_cached_pin v (get_pin a.path r.pins) r

  unfoldable pub continue_fido_operation :
      Environment → RuntimeState → RuntimeState × Result AppState
  continue_fido_operation v r = on_active v r.app.active r
