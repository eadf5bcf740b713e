-- ===== src/Tests/Tokens.antt =====
-- Operations on a security key that libfido2 gives.
use keynoxis.Base.{
  Result, err, [], ◌∷◌, none, some, ok, as_bytes, replicate, ◌≡◌, refl, All, List, true,
}
use keynoxis.State.{SshKey}
use keynoxis.Fido.Credentials.{Encoding, public_blob, finish}
use keynoxis.Fido.Sign.{c_string}
use keynoxis.Fido.Device.{Authenticator, Credential, eddsa}
use keynoxis.Fido.Resident.{load, enumerate, starts_with}
use keynoxis.Fido.Resident.Listed.{IsListed, held_by}
use keynoxis.Ipc.Operation.{Operation, Calls, run_operation}
use keynoxis.Ipc.Operation.Hardware.{security_key, run_operation-IsListed}
use keynoxis.Tests.Data.{hardware}

abbrev encoding : Encoding
encoding = record { fingerprint = λ _. "SHA256:x"; public_line = λ _ _ comment. comment }

abbrev credential : Credential
credential = record {
  cose_type = eddsa;
  public_key = replicate 32 7;
  id = 1 ∷ [];
  user_id = 2 ∷ [];
  display_name = some "work";
  user_name = none;
  flags = 4;
}

abbrev authenticator : Authenticator
authenticator = record {
  error_message = λ _. "FIDO error";
  allocates_device = true;
  allocates_credential = true;
  allocates_parties = true;
  allocates_keys = λ _. true;
  open_code = λ _. 0;
  is_fido2 = true;
  supports_credman = true;
  make_setup = λ _ _ _ _. none;
  make_cred = λ _ _ _ _ _. (0, credential);
  rename_setup = λ _ _ _. none;
  set_dev_rk = λ _ _ _ _. 0;
  del_dev_rk = λ _ _. 0;
  get_dev_rp = λ _. (0, some "example.com" ∷ some "ssh:" ∷ []);
  get_dev_rk = λ _ _. (0, some credential ∷ []);
}

abbrev unlock : Operation
unlock = record {
  path = "hid:1";
  creation = none;
  algorithm = "sk-ssh-ed25519@openssh.com";
  deletion = none;
  renaming = none;
}

abbrev value : Result (List SshKey) → List SshKey
value (ok ks) = ks
value (err e) = []

abbrev outcome : Calls (List SshKey)
outcome =
    run_operation (security_key encoding authenticator hardware.assertions (ok []) (ok [])) unlock
      "1234"

unlocked :
    run_operation
      (security_key encoding authenticator hardware.assertions (ok []) (ok []))
      unlock
      "1234"
    ≡ (outcome.0, ok (value outcome.1))
unfolding run_operation load enumerate starts_with c_string finish public_blob as_bytes
unlocked = refl

run_operation-IsListed_example :
    All (IsListed encoding (held_by authenticator "1234")) (value outcome.1)
run_operation-IsListed_example =
    run_operation-IsListed encoding authenticator hardware.assertions (ok []) (ok []) unlock "1234"
      outcome.0 (value outcome.1) unlocked
