-- ===== src/Ipc/Operation/Hardware.antt =====
-- src-tauri/src/ipc/commands.rs: the operations of src-tauri/src/fido that `perform_fido_operation` calls,
-- on a security key that libfido2 gives.
use keynoxis.Base.{List, [], String, Result, ok, err, map_ok, Bytes, All, ◌≡◌, ap}
use keynoxis.State.{SshKey, load_resident, DeviceCall}
use keynoxis.Fido.Credentials.{Encoding}
use keynoxis.Fido.Sign.{AssertionDevice}
use keynoxis.Fido.Sign as Sign
use keynoxis.Fido.Device.{Authenticator}
use keynoxis.Fido.Manage.{resident, delete_credential, rename_credential}
use keynoxis.Fido.Resident.{load}
use keynoxis.Fido.Resident.Listed.{IsListed, held_by, load-IsListed}
use keynoxis.Ipc.Operation.{
  Operation, FidoDevice, Calls, then_call, run_operation, run_creation, run_deletion, run_rename,
}

abbrev pub ignored : {A : Type 0} → Result A → Result (Unit {0})
ignored o = map_ok (λ _. tt) o

module _ (x : Encoding) (d : Authenticator) (a : AssertionDevice) (id hash : Result Bytes) where
  abbrev pub security_key : FidoDevice
  security_key = record {
    create = λ path name pin algorithm. ignored (resident x d id hash path name pin algorithm);
    confirm = λ path k data_ pin. ignored (Sign.sign a path k data_ pin);
    delete = λ path k pin. delete_credential d path k pin;
    rename = λ path k name pin. rename_credential d path k name pin;
    resident = λ path pin. load x d pin path;
  }

  last_answer :
      {A : Type 0} (c : Calls (Unit {0})) (call : DeviceCall) (answer : Result A)
      {calls : List DeviceCall} {value : A}
      → then_call c call answer ≡ (calls, ok value)
      → answer ≡ ok value
  last_answer (before, ok u) call answer h = ap (λ p. p.1) h
  last_answer (before, err e) call answer h = cc

  -- Whatever an operation on a security key does before, unlocking, creating, deleting or renaming,
  -- each key that it ends with is one of the credentials that the security key answers with for an SSH
  -- application: it has the credential's identifier, which is not empty, its user, its algorithm and
  -- its public key, and the fingerprint of that; it is enabled and asks for the user's presence.
  pub run_operation-IsListed :
      (o : Operation) (pin : String) (calls : List DeviceCall) (keys : List SshKey)
      → run_operation security_key o pin ≡ (calls, ok keys)
      → All (IsListed x (held_by d pin)) keys
  unfolding run_operation
  run_operation-IsListed o pin calls keys h = load-IsListed x d pin o.path keys (
      last_answer
        (run_rename security_key o o.renaming pin (
          run_deletion security_key o o.deletion pin
            (run_creation security_key o o.creation pin ([], ok tt))))
        (load_resident o.path) (load x d pin o.path) h)
