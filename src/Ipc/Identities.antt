-- ===== src/Ipc/Identities.antt =====
-- src-tauri/src/ipc/commands.rs: `rename_key`, `delete_key` and `create_secure_enclave_key`. Where a
-- command leaves the state's lock, other commands can come in between, so `rename_key` is three steps.
-- The registry of the Secure Enclave is a value that goes through the commands.
pub mod Authorized
use Prim.Native.String.{◌++◌ as concat}
use keynoxis.Base.{
  ℕ, Bool, true, false, not, ◌||◌, List, [], ◌∷◌, ◌++◌, Option, none, some, String, if◌then◌else◌,
  ◌==◌, String_eq, Result, ok, err, and_then, unwrap_or, find, retain, Bytes,
}
use keynoxis.State.{
  RuntimeState, AppState, SshKey, KeyBackend, fido2, secure_enclave, tpm, Backend_eq, loading,
  ready, key, success, failure, show_main, DeviceCall, rename_credential,
}
use keynoxis.Activity.{publish, tell, record_activity}
use keynoxis.Settings.{mark_fido_activity}
use keynoxis.Provider.{get_pin}
use keynoxis.Fido.Credentials.{Encoding}
use keynoxis.Fido.Credentials as Credentials
use keynoxis.Enclave.{Registry}
use keynoxis.Enclave as Enclave
use keynoxis.Ipc.Operation.{FidoDevice}
use keynoxis.Ipc.Requests.{validate_key_name, has_pin, request_rename, is_at}

abbrev pub has_fingerprint : String → SshKey → Bool
has_fingerprint fingerprint k = k.fingerprint == fingerprint

-- A command has ended, or it goes on with a key.
pub data Begun : Type 0 where
  ended : Result AppState → Begun
  going : SshKey → Begun

abbrev pub ended_with : RuntimeState × Result AppState → RuntimeState × Begun
ended_with (r, o) = (r, ended o)

abbrev pub start_loading : SshKey → RuntimeState → RuntimeState × Begun
start_loading k r =
    (publish (record r { app = record r.app { phase = loading; last_error = none } }), going k)

abbrev pub rename_at :
    String → String → SshKey → Option String → RuntimeState → RuntimeState × Begun
rename_at fingerprint name k none r = (r, ended (err "The source security key is unknown"))
rename_at fingerprint name k (some path) r =
    if r.require_pin_for_rename || not (has_pin r path)
    then ended_with (request_rename fingerprint name path (find (is_at path) r.app.devices) r)
    else start_loading k r

abbrev pub rename_found : String → String → Option SshKey → RuntimeState → RuntimeState × Begun
rename_found fingerprint name none r = (r, ended (err "SSH key was not found"))
rename_found fingerprint name (some k) r =
    if k.backend == fido2 then rename_at fingerprint name k k.device_path r else start_loading k r

abbrev pub rename_valid : String → String → Result (Unit {0}) → RuntimeState → RuntimeState × Begun
rename_valid fingerprint name (ok u) r =
    rename_found fingerprint name (find (has_fingerprint fingerprint) r.app.keys) r
rename_valid fingerprint name (err e) r = (r, ended (err e))

-- The name is already trimmed.
unfoldable pub begin_rename : String → String → RuntimeState → RuntimeState × Begun
begin_rename fingerprint name r = rename_valid fingerprint name (validate_key_name name) r

-- What the system answers during a command: Touch ID, the write of the registry, and a new key.
pub record EnclaveAnswers : Type 0 where
  pub authorized : Result (Unit {0})
  pub write : Result (Unit {0})
  pub made : Result (Bytes × Bytes)

-- The state, the registry and the outcome.
abbrev pub Work : Type 0 → Type 0
Work A = RuntimeState × (Registry × Result A)

module _ (x : Encoding) (d : FidoDevice) (v : EnclaveAnswers) where
  abbrev pub rename_with :
      SshKey → String → String → Option String → Registry → RuntimeState → Work SshKey
  rename_with k name path none registry r =
      (r, (registry, err "Unlock the YubiKey before renaming a key"))
  rename_with k name path (some pin) registry r = (
    record r { device_calls = rename_credential path k ∷ r.device_calls },
    (
      registry,
      and_then (d.rename path k name pin)
          λ _. Credentials.finish x (record k { comment = some name }),
    ),
  )

  abbrev pub rename_on_device :
      SshKey → String → Option String → Registry → RuntimeState → Work SshKey
  rename_on_device k name none registry r =
      (r, (registry, err "The source security key is unknown"))
  rename_on_device k name (some path) registry r =
      rename_with k name path (get_pin path r.pins) registry r

  abbrev pub if_authorized :
      {A : Type 0} → Result (Unit {0}) → Registry → Registry × Result A → Registry × Result A
  if_authorized (ok u) registry next = next
  if_authorized (err e) registry next = (registry, err e)

  -- Touch ID takes the focus, so the window is shown again.
  abbrev pub with_touch :
      {A : Type 0} → Bool → Registry → Registry × Result A → RuntimeState → Work A
  with_touch true registry next r = (tell show_main r, if_authorized v.authorized registry next)
  with_touch false registry next r = (r, next)

  abbrev pub rename_by : KeyBackend → SshKey → String → Registry → RuntimeState → Work SshKey
  rename_by fido2 k name registry r = rename_on_device k name k.device_path registry r
  rename_by secure_enclave k name registry r =
      with_touch r.require_touch_id_for_rename registry (Enclave.rename x v.write k name registry) r
  rename_by tpm k name registry r = (r, (registry, err "TPM provider is not implemented yet"))

  unfoldable pub perform_rename : SshKey → String → Registry → RuntimeState → Work SshKey
  perform_rename k name registry r = rename_by k.backend k name registry r

-- The first key with the fingerprint is the updated one.
abbrev pub replace_key : String → SshKey → List SshKey → List SshKey
replace_key fingerprint updated [] = []
replace_key fingerprint updated (k ∷ ks) =
    if has_fingerprint fingerprint k then updated ∷ ks else k ∷ replace_key fingerprint updated ks

abbrev marked : ℕ → SshKey → RuntimeState → RuntimeState
marked now k r = if k.backend == fido2 then mark_fido_activity now r else r

abbrev shown : RuntimeState → RuntimeState × Result AppState
shown r = (publish r, ok r.app)

abbrev pub replace_found :
    ℕ
    → String
    → String
    → SshKey
    → SshKey
    → Option SshKey
    → RuntimeState
    → RuntimeState × Result AppState
replace_found now fingerprint name k updated none r =
    (r, err "Resident key disappeared while it was being renamed")
replace_found now fingerprint name k updated (some existing) r = shown (
    record_activity now key success "SSH identity renamed" (some name) (
      marked now k (record r {
        app = record r.app {
          keys = replace_key fingerprint updated r.app.keys;
          phase = ready;
          last_error = none;
        };
      })))

unfoldable pub finish_rename :
    ℕ → String → String → SshKey → Result SshKey → RuntimeState → RuntimeState × Result AppState
finish_rename now fingerprint name k (ok updated) r =
    replace_found now fingerprint name k updated (find (has_fingerprint fingerprint) r.app.keys) r
finish_rename now fingerprint name k (err e) r =
    (publish (record r { app = record r.app { phase = ready; last_error = some e } }), err e)

module _ (x : Encoding) (d : FidoDevice) (v : EnclaveAnswers) (trim : String → String) where
  abbrev pub finished :
      ℕ → String → String → SshKey → Work SshKey → RuntimeState × (Registry × Result AppState)
  finished now fingerprint name k (r, (registry, o)) =
      let (r', o') = finish_rename now fingerprint name k o r in (r', (registry, o'))

  abbrev pub go_on :
      ℕ
      → String
      → String
      → Registry
      → RuntimeState × Begun
      → RuntimeState × (Registry × Result AppState)
  go_on now fingerprint name registry (r, ended o) = (r, (registry, o))
  go_on now fingerprint name registry (r, going k) =
      finished now fingerprint name k (perform_rename x d v k name registry r)

  -- With nothing in between.
  unfoldable pub rename_key :
      ℕ → String → String → Registry → RuntimeState → RuntimeState × (Registry × Result AppState)
  rename_key now fingerprint name registry r =
      go_on now fingerprint (trim name) registry (begin_rename fingerprint (trim name) r)

  abbrev is_other : String → SshKey → Bool
  is_other fingerprint k = not (k.fingerprint == fingerprint)

  abbrev key_name : SshKey → String
  key_name k = unwrap_or k.comment "Unnamed SSH identity"

  abbrev with_detail : String → String → Option String
  with_detail name what = some (concat name (concat " · " what))

  abbrev pub delete_done :
      ℕ
      → String
      → SshKey
      → RuntimeState
      → Registry × Result (Unit {0})
      → RuntimeState × (Registry × Result AppState)
  delete_done now fingerprint k r (registry, err e) = (
    record_activity now key failure "SSH identity deletion failed" (with_detail (key_name k) e) r,
    (registry, err e),
  )
  delete_done now fingerprint k r (registry, ok u) =
      let s = record r.app {
        keys = retain (is_other fingerprint) r.app.keys;
        phase = ready;
        last_error = none;
      } in
      (
        record_activity now key success "SSH identity deleted"
            (with_detail (key_name k) "Secure Enclave") (publish (record r { app = s })),
        (registry, ok s),
      )

  abbrev pub delete_by : KeyBackend → SshKey → Registry → Registry × Result (Unit {0})
  delete_by fido2 k registry =
      (registry, err "FIDO2 deletion requires fresh PIN and touch authorization")
  delete_by secure_enclave k registry = Enclave.delete v.authorized v.write k registry
  delete_by tpm k registry = (registry, err "TPM provider is not implemented yet")

  abbrev pub delete_found :
      ℕ
      → String
      → Option SshKey
      → Registry
      → RuntimeState
      → RuntimeState × (Registry × Result AppState)
  delete_found now fingerprint none registry r = (r, (registry, err "SSH key was not found"))
  delete_found now fingerprint (some k) registry r =
      if k.backend == fido2
      then (r, (registry, err "FIDO2 deletion requires fresh PIN and touch authorization"))
      else delete_done now fingerprint k (tell show_main r) (delete_by k.backend k registry)

  unfoldable pub delete_key :
      ℕ → String → Registry → RuntimeState → RuntimeState × (Registry × Result AppState)
  delete_key now fingerprint registry r =
      delete_found now fingerprint (find (has_fingerprint fingerprint) r.app.keys) registry r

  abbrev pub create_done : ℕ → String → Work SshKey → RuntimeState × (Registry × Result AppState)
  create_done now name (r, (registry, err e)) = (r, (registry, err e))
  create_done now name (r, (registry, ok k)) =
      let s = record r.app { keys = r.app.keys ++ (k ∷ []); phase = ready; last_error = none } in
      (
        record_activity now key success "Secure Enclave key created"
            (with_detail name "ECDSA P-256") (publish (record r { app = s })),
        (registry, ok s),
      )

  unfoldable pub create_secure_enclave_key :
      ℕ → String → Registry → RuntimeState → RuntimeState × (Registry × Result AppState)
  create_secure_enclave_key now name registry r = create_done now (trim name) (
      with_touch x d v r.require_touch_id_for_create registry
        (Enclave.create x v.made v.write (trim name) registry) r)
