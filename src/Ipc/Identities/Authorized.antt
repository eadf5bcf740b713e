-- ===== src/Ipc/Identities/Authorized.antt =====
-- Who may change the identities by the commands of src-tauri/src/ipc/commands.rs.
use keynoxis.Base.{
  ℕ, Bool, true, false, not, ◌||◌, Option, none, some, String, if◌then◌else◌, ◌==◌, String_eq,
  Result, ok, err, is_ok, find, ◌≡◌, refl, ap,
}
use keynoxis.State.{
  show_main, DeviceInfo, RuntimeState, AppState, SshKey, KeyBackend, fido2, secure_enclave, tpm,
  Backend_eq,
}
use keynoxis.Activity.{tell, record_activity}
use keynoxis.Fido.Credentials.{Encoding}
use keynoxis.Enclave.{Registry, commit, deleted}
use keynoxis.Enclave as Enclave
use keynoxis.Ipc.Operation.{FidoDevice}
use keynoxis.Ipc.Requests.{validate_key_name, has_pin, request_rename, forget_session, is_at}
use keynoxis.Ipc.Identities.{
  start_loading, ended_with, delete_by, delete_found, delete_done, create_done, go_on, with_touch,
  EnclaveAnswers, begin_rename, rename_valid, rename_at, rename_key, delete_key,
  create_secure_enclave_key, has_fingerprint,
}

-- A command that fails, with the registry and the state of the window as before.
abbrev pub IsRefused :
    RuntimeState → Registry → RuntimeState × (Registry × Result AppState) → Type 0
IsRefused r registry (r', (registry', o)) =
    (r'.app ≡ r.app) × (registry' ≡ registry) × (is_ok o ≡ false)

module _ (x : Encoding) (d : FidoDevice) (v : EnclaveAnswers) (trim : String → String) (now : ℕ)
    (registry : Registry) (r : RuntimeState) (e : String) (h : v.authorized ≡ err e) where
  denied :
      (k : SshKey) (b : KeyBackend)
      → ((delete_by x d v trim b k registry).0 ≡ registry)
        × (is_ok (delete_by x d v trim b k registry).1 ≡ false)
  unfolding Enclave.delete
  denied k fido2 = (refl, refl)
  denied k secure_enclave = rw h (refl, refl)
  denied k tpm = (refl, refl)

  done-IsRefused :
      (fingerprint : String) (k : SshKey) (p : Registry × Result (Unit {0}))
      → p.0 ≡ registry
      → is_ok p.1 ≡ false
      → IsRefused r registry (delete_done x d v trim now fingerprint k (tell show_main r) p)
  unfolding record_activity
  done-IsRefused fingerprint k (registry', err e) p q = (refl, p, refl)
  done-IsRefused fingerprint k (registry', ok u) p q = cc

  found-IsRefused :
      (fingerprint : String) (o : Option SshKey)
      → IsRefused r registry (delete_found x d v trim now fingerprint o registry r)
  found-IsRefused fingerprint none = (refl, refl, refl)
  found-IsRefused fingerprint (some k) = go (k.backend == fido2)
    where
      go :
          (b : Bool)
          → IsRefused r registry (
              if◌then◌else◌ {A = RuntimeState × (Registry × Result AppState)} b
                (r, (registry, err "FIDO2 deletion requires fresh PIN and touch authorization"))
                (delete_done x d v trim now fingerprint k
                  (tell show_main r)
                  (delete_by x d v trim k.backend k registry)))
      go true = (refl, refl, refl)
      go false = let (p, q) = denied k k.backend in done-IsRefused fingerprint k _ p q

  created-IsRefused :
      (name : String) (b : Bool)
      → b ≡ true
      → IsRefused r registry (
          create_done x d v trim now name
            (with_touch x d v b registry (Enclave.create x v.made v.write name registry) r))
  created-IsRefused name true t = rw h (refl, refl, refl)
  created-IsRefused name false t = cc

  -- Without the user's Touch ID, the command `delete_key`, by which the window deletes an identity of
  -- the Secure Enclave, always fails, and so does a creation in the Secure Enclave where the settings
  -- ask for Touch ID: the registry and the state that the window shows are as before. The deletion of
  -- an identity of a security key is another command.
  pub denied-IsRefused :
      (fingerprint name : String)
      → r.require_touch_id_for_create ≡ true
      → IsRefused r registry (delete_key x d v trim now fingerprint registry r)
        × IsRefused r registry (create_secure_enclave_key x d v trim now name registry r)
  unfolding delete_key create_secure_enclave_key
  denied-IsRefused fingerprint name t = (
    found-IsRefused fingerprint (find (has_fingerprint fingerprint) r.app.keys),
    created-IsRefused (trim name) r.require_touch_id_for_create t,
  )

-- The device is not called, and neither the registry nor the identities change.
abbrev pub IsAsked : RuntimeState → Registry → RuntimeState × (Registry × Result AppState) → Type 0
IsAsked r registry (r', (registry', o)) =
    (r'.device_calls ≡ r.device_calls) × (registry' ≡ registry) × (r'.app.keys ≡ r.app.keys)

module _ (x : Encoding) (d : FidoDevice) (v : EnclaveAnswers) (trim : String → String) (now : ℕ)
    (registry : Registry) (r : RuntimeState) where
  asked :
      (fingerprint name path : String) (o : Option DeviceInfo)
      → IsAsked r registry (
          go_on x d v trim now fingerprint name registry
            (ended_with (request_rename fingerprint name path o r)))
  unfolding request_rename forget_session
  asked fingerprint name path none = (refl, refl, refl)
  asked fingerprint name path (some device) = (refl, refl, refl)

  -- Where the settings ask for a fresh PIN, the command to rename an identity of a security key never
  -- reaches the device by itself, whatever PIN is in memory: at most it asks for the PIN.
  pub rename_key-IsAsked :
      (fingerprint name : String) (k : SshKey)
      → find (has_fingerprint fingerprint) r.app.keys ≡ some k
      → k.backend ≡ fido2
      → r.require_pin_for_rename ≡ true
      → IsAsked r registry (rename_key x d v trim now fingerprint name registry r)
  unfolding rename_key begin_rename
  rename_key-IsAsked fingerprint name k f b t = valid (validate_key_name (trim name))
    where
      at_if :
          (path : String) (z : Bool)
          → z ≡ true
          → IsAsked r registry (
              go_on x d v trim now fingerprint (trim name) registry (
                if z
                then ended_with (
                    request_rename fingerprint (trim name) path (find (is_at path) r.app.devices) r)
                else start_loading k r))
      at_if path true q = asked fingerprint (trim name) path (find (is_at path) r.app.devices)
      at_if path false q = cc

      at :
          (o : Option String)
          → IsAsked r registry (
              go_on x d v trim now fingerprint
                (trim name)
                registry
                (rename_at fingerprint (trim name) k o r))
      at none = (refl, refl, refl)
      at (some path) =
          at_if path (r.require_pin_for_rename || not (has_pin r path))
            (ap (λ z. z || not (has_pin r path)) t)

      found :
          (z : Bool)
          → z ≡ true
          → IsAsked r registry (
              go_on x d v trim now fingerprint (trim name) registry (
                if z
                then rename_at fingerprint (trim name) k k.device_path r
                else start_loading k r))
      found true q = at k.device_path
      found false q = cc

      valid :
          (o : Result (Unit {0}))
          → IsAsked r registry (
              go_on x d v trim now fingerprint
                (trim name)
                registry
                (rename_valid fingerprint (trim name) o r))
      valid (err e) = (refl, refl, refl)
      valid (ok u) = rw f (found (k.backend == fido2) (ap (λ z. z == fido2) b))
