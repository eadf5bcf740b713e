-- ===== src/Tests/Registry.antt =====
-- The registry of the Secure Enclave, and the commands that change identities.
use keynoxis.Base.{as_bytes, List, [], ◌∷◌, String, ok, err, Bytes, replicate, ◌≡◌, refl}
use keynoxis.State.{SshKey, secure_enclave_of}
use keynoxis.Settings.{missing, stored}
use keynoxis.Ssh.{ecdsa_public_blob}
use keynoxis.Fido.Credentials.{Encoding}
use keynoxis.Enclave.{
  Registry, RegistryEntry, create, rename, list, validate_name, build_ssh_key, key_of,
}
use keynoxis.Enclave.Registry.{IsDistinct, begin, creation, Reached-IsDistinct}
use keynoxis.Enclave.Listing.{IsReplaced, rename-list}
use keynoxis.Ipc.Operation.{FidoDevice}
use keynoxis.Ipc.Identities.{EnclaveAnswers, rename_key, delete_key, create_secure_enclave_key}
use keynoxis.Ipc.Identities.Authorized.{IsRefused, IsAsked, denied-IsRefused, rename_key-IsAsked}
use keynoxis.Tests.Data.{laptop_key, token_key, unlocked_runtime, same_text}

abbrev encoding : Encoding
encoding = record { fingerprint = λ _. "SHA256:laptop"; public_line = λ _ _ comment. comment }

abbrev point : Bytes
point = 4 ∷ replicate 64 7

Reached-IsDistinct_example :
    IsDistinct (create encoding (ok (9 ∷ [], point)) (ok tt) "laptop" missing).0
Reached-IsDistinct_example =
    Reached-IsDistinct (create encoding (ok (9 ∷ [], point)) (ok tt) "laptop" missing).0
      (creation encoding (9 ∷ []) point (ok tt) "laptop" refl begin)

abbrev entry : String → RegistryEntry
entry name = record { name = name; public_point = point; encrypted_key = 9 ∷ [] }

abbrev key_named : String → SshKey
key_named name =
    key_of encoding (entry name) (elim (ecdsa_public_blob point) [ ok blob ↦ blob | err e ↦ [] ])

abbrev before : Registry
before = stored (entry "laptop" ∷ [])

renaming :
    rename encoding (ok tt) laptop_key "desk" before
    ≡ (stored (entry "desk" ∷ []), ok (key_named "desk"))
unfolding rename validate_name build_ssh_key ecdsa_public_blob as_bytes
renaming = refl

listing : list encoding before ≡ ok (key_named "laptop" ∷ [])
unfolding list build_ssh_key ecdsa_public_blob as_bytes
listing = refl

rename-list_example :
    (ks : List SshKey) × (list encoding (stored (entry "desk" ∷ [])) ≡ ok ks)
    × IsReplaced encoding
        (secure_enclave_of laptop_key)
        "desk"
        (key_named "desk")
        (key_named "laptop" ∷ [])
        ks
rename-list_example =
    rename-list encoding (ok tt) laptop_key "desk" before (stored (entry "desk" ∷ []))
      (key_named "desk") (key_named "laptop" ∷ []) renaming listing

abbrev token_answers : FidoDevice
token_answers = record {
  create = λ _ _ _ _. ok tt;
  confirm = λ _ _ _ _. ok tt;
  delete = λ _ _ _. ok tt;
  rename = λ _ _ _ _. ok tt;
  resident = λ _ _. ok (token_key ∷ []);
}

abbrev cancelled : EnclaveAnswers
cancelled = record { authorized = err "Cancelled"; write = ok tt; made = ok (9 ∷ [], point) }

denied-IsRefused_example :
    IsRefused unlocked_runtime before (
      delete_key encoding token_answers cancelled same_text 1000 "SHA256:laptop" before
        unlocked_runtime)
    × IsRefused unlocked_runtime before (
        create_secure_enclave_key encoding token_answers cancelled same_text 1000 "desk" before
          unlocked_runtime)
denied-IsRefused_example =
    denied-IsRefused encoding token_answers cancelled same_text 1000 before unlocked_runtime
      "Cancelled" refl "SHA256:laptop" "desk" refl

rename_key-IsAsked_example : IsAsked unlocked_runtime before (
    rename_key encoding token_answers cancelled same_text 1000 "SHA256:token" "desk" before
      unlocked_runtime)
rename_key-IsAsked_example =
    rename_key-IsAsked encoding token_answers cancelled same_text 1000 before unlocked_runtime
      "SHA256:token" "desk" token_key refl refl refl
