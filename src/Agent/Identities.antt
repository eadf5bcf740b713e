-- ===== src/Agent/Identities.antt =====
-- src-tauri/src/agent/server.rs: the answer to a request for the identities. The lower case of a
-- text (`str::to_lowercase`) is a parameter.
pub mod Order
pub mod Answer
use keynoxis.Base.{
  ℕ, Bool, true, false, not, ◌&&◌, ◌||◌, List, [], ◌∷◌, ◌++◌, Option, none, some, String,
  if◌then◌else◌, ltb, leb, nat_eq, ◌==◌, Nat_eq, length, retain, Bytes, as_bytes, unwrap_or,
  bytes_le, sort_by,
}
use keynoxis.State.{RuntimeState, AppState, SshKey, KeyBackend, fido2, secure_enclave, tpm}
use keynoxis.Agent.Wire.{u32_bytes, put_string}

abbrev pub identities_answer : ℕ
identities_answer = 12

unfoldable pub backend_priority : ℕ → KeyBackend → ℕ
backend_priority preferred secure_enclave = if preferred == 0 then 0 else 1
backend_priority preferred fido2 = if preferred == 1 then 0 else 1
backend_priority preferred tpm = 1

abbrev pub is_enabled : SshKey → Bool
is_enabled k = k.enabled

module _ (to_lowercase : String → String) where
  abbrev pub sort_name : SshKey → Bytes
  sort_name k = as_bytes (to_lowercase (unwrap_or k.comment ""))

  -- The comparator of `sort_by` says that `a` may stand before `b`.
  unfoldable pub key_le : ℕ → SshKey → SshKey → Bool
  key_le preferred a b =
      ltb (backend_priority preferred a.backend) (backend_priority preferred b.backend)
      || (backend_priority preferred a.backend == backend_priority preferred b.backend
          && bytes_le (sort_name a) (sort_name b))

  unfoldable pub sort_keys : ℕ → List SshKey → List SshKey
  sort_keys preferred ks = sort_by (key_le preferred) ks

  abbrev pub shown_comment : SshKey → Bytes
  shown_comment k = as_bytes (unwrap_or k.comment "Hardware-backed SSH key")

  unfoldable pub put_identities : List SshKey → Bytes
  put_identities [] = []
  put_identities (k ∷ ks) =
      put_string k.public_blob ++ (put_string (shown_comment k) ++ put_identities ks)

  -- The keys that a client is shown, in order.
  abbrev pub offered_keys : RuntimeState → List SshKey
  offered_keys r = sort_keys r.preferred_backend (retain is_enabled r.app.keys)

  unfoldable pub identities : RuntimeState → Bytes
  identities r =
      if r.app.agent_locked
      then identities_answer ∷ 0 ∷ 0 ∷ 0 ∷ 0 ∷ []
      else identities_answer
        ∷ (u32_bytes (length (offered_keys r)) ++ put_identities (offered_keys r))
