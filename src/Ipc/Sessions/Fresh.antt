-- ===== src/Ipc/Sessions/Fresh.antt =====
-- The settings that ask for a fresh PIN, in the requests of src-tauri/src/ipc/commands.rs.
use keynoxis.Base.{
  ℕ, Bool, true, false, List, [], ◌∷◌, Option, none, some, String, ◌≡◌, refl, arith, String_eq,
  Result, ok, err, is_ok, find_holds, find, ◌∙◌, ap,
}
use keynoxis.State.{RuntimeState, AppState, SshKey, DeviceInfo}
use keynoxis.Provider.{get_pin}
use keynoxis.Ipc.{remove_pin, forget_device}
use keynoxis.Ipc.Requests.{
  request_fido_key_creation, request_fido_key_deletion, create_on, create_at, delete_on, delete_at,
  delete_found, is_at, forget_session, go_on, creation_target, is_fido2_key, reuses,
  lock_for_creation, deleting, lock_for_deletion, check_target, creating,
}
use keynoxis.Ipc.Operation.{FidoDevice}
use keynoxis.Ipc.Operation.Finish.{Environment, continue_fido_operation, on_active, with_cached_pin}

-- The active device, with no PIN of it in memory.
abbrev Forgotten : DeviceInfo → RuntimeState → Type 0
Forgotten d r = (r.app.active ≡ some d) × (get_pin d.path r.pins ≡ none)

-- A command that returned has an active device, and its PIN is not in memory.
abbrev IsFresh : RuntimeState × Result AppState → Type 0
IsFresh (r, o) = is_ok o ≡ true → (d : DeviceInfo) × Forgotten d r

get_pin-removed :
    (path : String) (pins : List (String × String)) → get_pin path (remove_pin path pins) ≡ none
get_pin-removed path [] = refl
get_pin-removed path ((p, pin) ∷ pins) = ground (arith, get_pin-removed path pins)

go_on-IsFresh :
    (r : RuntimeState) (o : Result (Unit {0})) (next : RuntimeState × Result AppState)
    → IsFresh next
    → IsFresh (go_on r o next)
go_on-IsFresh r (ok u) next f = f
go_on-IsFresh r (err e) next f = λ p. cc

lock_for_creation-Forgotten :
    (b : Bool) (d : DeviceInfo) (r : RuntimeState)
    → b ≡ false
    → r.app.active ≡ some d
    → Forgotten d (lock_for_creation b d.path r)
unfolding forget_device
lock_for_creation-Forgotten true d r b a = cc
lock_for_creation-Forgotten false d r b a = (a, get_pin-removed d.path r.pins)

lock_for_deletion-Forgotten :
    (b : Bool) (path : String) (d : DeviceInfo) (r : RuntimeState)
    → b ≡ false
    → d.path ≡ path
    → r.app.active ≡ some d
    → Forgotten d (lock_for_deletion b path r)
unfolding forget_session
lock_for_deletion-Forgotten true path d r b e a = cc
lock_for_deletion-Forgotten false path d r b e a =
    (a, ap (λ p. get_pin p (remove_pin path r.pins)) e ∙ get_pin-removed path r.pins)

required-reuses :
    (required : Bool) (r : RuntimeState) (path : String)
    → required ≡ true
    → reuses required r path ≡ false
required-reuses true r path q = refl
required-reuses false r path q = cc

create_on-IsFresh :
    (name algorithm : String) (d : DeviceInfo) (r : RuntimeState)
    → r.require_pin_for_create ≡ true
    → IsFresh (create_on name algorithm d r)
unfolding create_on
create_on-IsFresh name algorithm d r q = go_on-IsFresh _ (check_target name algorithm d r) _ λ _. (
  d,
  lock_for_creation-Forgotten _ d (creating name algorithm d r)
      (required-reuses r.require_pin_for_create r d.path q) refl,
)

create_at-IsFresh :
    (name algorithm : String) (o : Option DeviceInfo) (r : RuntimeState)
    → r.require_pin_for_create ≡ true
    → IsFresh (create_at name algorithm o r)
create_at-IsFresh name algorithm none r q = λ p. cc
create_at-IsFresh name algorithm (some d) r q = create_on-IsFresh name algorithm d r q

delete_on-IsFresh :
    (fingerprint path : String) (o : Option DeviceInfo) (r : RuntimeState)
    → find (is_at path) r.app.devices ≡ o
    → r.require_pin_for_delete ≡ true
    → IsFresh (delete_on fingerprint path o r)
unfolding delete_on
delete_on-IsFresh fingerprint path none r e q = λ p. cc
delete_on-IsFresh fingerprint path (some d) r e q = λ _. (
  d,
  lock_for_deletion-Forgotten _ path d (deleting fingerprint path d r)
      (required-reuses r.require_pin_for_delete r path q)
      ((String_eq.test_iff d.path path).0 (find_holds (is_at path) r.app.devices e)) refl,
)

delete_at-IsFresh :
    (fingerprint : String) (o : Option String) (r : RuntimeState)
    → r.require_pin_for_delete ≡ true
    → IsFresh (delete_at fingerprint o r)
delete_at-IsFresh fingerprint none r q = λ p. cc
delete_at-IsFresh fingerprint (some path) r q = delete_on-IsFresh fingerprint path _ r refl q

delete_found-IsFresh :
    (fingerprint : String) (o : Option SshKey) (r : RuntimeState)
    → r.require_pin_for_delete ≡ true
    → IsFresh (delete_found fingerprint o r)
delete_found-IsFresh fingerprint none r q = λ p. cc
delete_found-IsFresh fingerprint (some k) r q = delete_at-IsFresh fingerprint k.device_path r q

request_fido_key_deletion-IsFresh :
    (fingerprint : String) (r : RuntimeState)
    → r.require_pin_for_delete ≡ true
    → IsFresh (request_fido_key_deletion fingerprint r)
unfolding request_fido_key_deletion
request_fido_key_deletion-IsFresh fingerprint r q =
    go_on-IsFresh r _ _
      (delete_found-IsFresh fingerprint (find (is_fido2_key fingerprint) r.app.keys) r q)

request_fido_key_creation-IsFresh :
    (trim : String → String) (name : String) (algorithm path : Option String) (r : RuntimeState)
    → r.require_pin_for_create ≡ true
    → IsFresh (request_fido_key_creation trim name algorithm path r)
unfolding request_fido_key_creation
request_fido_key_creation-IsFresh trim name algorithm path r q =
    go_on-IsFresh r _ _ (create_at-IsFresh (trim name) _ (creation_target r.app path) r q)

module _ (f : FidoDevice) (to_string : ℕ → String) where
  -- Going on with the operation fails and leaves the state as it is.
  abbrev pub IsLocked : Environment → RuntimeState → Type 0
  IsLocked v r = continue_fido_operation f to_string v r ≡ (r, err "The FIDO2 session is locked")

  fresh-IsLocked :
      (v : Environment) (p : RuntimeState × Result AppState)
      → IsFresh p
      → is_ok p.1 ≡ true
      → IsLocked v p.0
  unfolding continue_fido_operation
  fresh-IsLocked v (r, o) fresh done =
      let (d, forgotten) = fresh done in
      let (a, n) = forgotten in
      ap (λ x. on_active f to_string v x r) a ∙ ap (λ x. with_cached_pin f to_string v x r) n

  -- Where the settings ask for a PIN at each creation, once a request to create a key returned, the
  -- operation cannot go on with a PIN in memory: that fails and leaves the state as it is.
  pub request_fido_key_creation-IsLocked :
      (trim : String → String) (v : Environment) (name : String) (algorithm path : Option String)
      (r : RuntimeState)
      → r.require_pin_for_create ≡ true
      → is_ok (request_fido_key_creation trim name algorithm path r).1 ≡ true
      → IsLocked v (request_fido_key_creation trim name algorithm path r).0
  request_fido_key_creation-IsLocked trim v name algorithm path r q done =
      fresh-IsLocked v (request_fido_key_creation trim name algorithm path r)
        (request_fido_key_creation-IsFresh trim name algorithm path r q) done

  -- Where the settings ask for a PIN at each deletion, once a request to delete a key returned, the
  -- operation cannot go on with a PIN in memory: that fails and leaves the state as it is.
  request_fido_key_deletion-IsLocked :
      (v : Environment) (fingerprint : String) (r : RuntimeState)
      → r.require_pin_for_delete ≡ true
      → is_ok (request_fido_key_deletion fingerprint r).1 ≡ true
      → IsLocked v (request_fido_key_deletion fingerprint r).0
  request_fido_key_deletion-IsLocked v fingerprint r q done =
      fresh-IsLocked v (request_fido_key_deletion fingerprint r)
        (request_fido_key_deletion-IsFresh fingerprint r q) done
