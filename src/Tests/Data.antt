-- ===== src/Tests/Data.antt =====
-- A security key, two identities, and answers of the hardware and of the crates for the tests.
use keynoxis.Base.{ℕ, true, [], ◌∷◌, ◌++◌, none, some, String, ok, Bytes, ◌==◌, Nat_eq, List_eq}
use keynoxis.State.{
  RuntimeState, SshKey, DeviceInfo, fido2, secure_enclave, fido2_handle, secure_enclave_handle,
  default_app, default_runtime,
}
use keynoxis.Agent.Wire.{put_string}
use keynoxis.Agent.Session.{Crypto, session_bind_extension}
use keynoxis.Agent.Server.{Meanwhile}
use keynoxis.Provider.{Hardware}
use keynoxis.Ipc.Operation.{FidoDevice, Operation}
use keynoxis.Ipc.Operation.Finish.{Environment}

abbrev pub laptop_key : SshKey
laptop_key = record {
  algorithm = "ecdsa-sha2-nistp256";
  public_key = "ecdsa-sha2-nistp256 AAAA";
  fingerprint = "SHA256:laptop";
  comment = some "laptop";
  backend = secure_enclave;
  enabled = true;
  device_path = none;
  public_blob = 4 ∷ 5 ∷ [];
  handle = some (secure_enclave_handle (record { encrypted_key = 9 ∷ [] }));
}

abbrev pub token_key : SshKey
token_key = record {
  algorithm = "sk-ssh-ed25519@openssh.com";
  public_key = "sk-ssh-ed25519@openssh.com AAAA";
  fingerprint = "SHA256:token";
  comment = some "token";
  backend = fido2;
  enabled = true;
  device_path = some "hid:1";
  public_blob = 1 ∷ 2 ∷ 3 ∷ [];
  handle = some (
      fido2_handle (record {
        application = "ssh:";
        credential_id = 7 ∷ [];
        user_id = [];
        public_key_bytes = 8 ∷ [];
        flags = 1;
      }));
}

abbrev pub token : DeviceInfo
token = record {
  label = none;
  serial_number = none;
  local_id = none;
  product = some "Token";
  manufacturer = none;
  path = "hid:1";
  vendor_id = 4176;
  product_id = 1031;
  is_fido2 = true;
  credential_management = true;
  pin_configured = true;
  algorithms = "ED25519-SK" ∷ [];
  aaguid = none;
  firmware = none;
  resident_credentials_remaining = none;
  pin_retries = some 8;
}

abbrev pub unlocked_runtime : RuntimeState
unlocked_runtime = record default_runtime {
  app = record default_app {
    yubikey_connected = true;
    keys = token_key ∷ laptop_key ∷ [];
    active = some token;
    devices = token ∷ [];
    fido_session_unlocked = true;
    unlocked_device_paths = "hid:1" ∷ [];
  };
  pins = ("hid:1", "1234") ∷ [];
}

abbrev pub locked_runtime : RuntimeState
locked_runtime = record unlocked_runtime {
  app = record unlocked_runtime.app { agent_locked = true };
}

abbrev pub hardware : Hardware
hardware = record {
  assertions = record {
    error_message = λ _. "FIDO error";
    allocates_device = true;
    allocates_assertion = true;
    open_code = λ _. 0;
    setup_failure = λ _ _ _. none;
    get_assert = λ _ _ _ _ _ _. record { code = 0; sig = 6 ∷ []; assert_flags = 1; sigcount = 7 };
  };
  enclave_sign = λ _ _. ok (0x30 ∷ 6 ∷ 2 ∷ 1 ∷ 200 ∷ 2 ∷ 1 ∷ 3 ∷ []);
}

-- A signature is valid if it repeats the message.
abbrev pub crypto : Crypto
crypto = record {
  KeyData = Bytes;
  Signature = Bytes;
  public_key_from_bytes = λ b. some b;
  certificate_from_bytes = λ _. none;
  signature_from_bytes = λ b. some b;
  verify = λ _ message signature. signature == message;
}

abbrev pub quiet : Meanwhile
quiet = record { now_ms = 1000; before = λ r. r; after = λ r. r }

abbrev pub laptop_request : Bytes
laptop_request = 0 ∷ 0 ∷ 0 ∷ 2 ∷ 4 ∷ 5 ∷ 0 ∷ 0 ∷ 0 ∷ 1 ∷ 65 ∷ 0 ∷ 0 ∷ 0 ∷ 0 ∷ []

-- A binding of the session 5 to the host key 1, which forwards.
abbrev pub bind_request : Bytes
bind_request =
    put_string session_bind_extension
    ++ (put_string (1 ∷ []) ++ (put_string (5 ∷ []) ++ (put_string (5 ∷ []) ++ (1 ∷ []))))

abbrev pub same_text : String → String
same_text s = s

abbrev pub digits : ℕ → String
digits n = "1"

abbrev pub fido_device : FidoDevice
fido_device = record {
  create = λ _ _ _ _. ok tt;
  confirm = λ _ _ _ _. ok tt;
  delete = λ _ _ _. ok tt;
  rename = λ _ _ _ _. ok tt;
  resident = λ _ _. ok (token_key ∷ []);
}

abbrev pub environment : Environment
environment = record {
  now_ms = 1000;
  disabled = ok [];
  start_agent = ok "agent.sock";
  before = λ r. r;
  after = λ r. r;
}

abbrev pub token_unlock : Operation
token_unlock = record {
  path = "hid:1";
  creation = none;
  algorithm = "sk-ssh-ed25519@openssh.com";
  deletion = none;
  renaming = none;
}
