-- ===== src/Bridge.antt =====
-- The bridge to the Swift library: the modules `platform` of src-tauri/src/secure_enclave.rs and
-- src-tauri/src/settings.rs. Parameters: `String::from_utf8`, and those of the library.
pub mod Buffers
pub mod Answers
use keynoxis.Base.{
  ℕ, Bool, [], ◌∷◌, Option, none, some, String, if◌then◌else◌, ◌==◌, leb, Nat_eq, Result, ok, err,
  Bytes, length, take, unwrap_or,
}
use keynoxis.Swift.{
  Keychain, keynoxis_security_policy_write, Heap, Malloc, keynoxis_se_create, keynoxis_se_sign,
  attempted, keynoxis_security_policy_read, keynoxis_autostart_set, Slot, Reply, Attempt, LoginItem,
}

abbrev pub FromUtf8 : Type 0
FromUtf8 = Bytes → Option String

-- The modules `platform`. A read outside a block, or a free of what is no block, is undefined
-- behaviour: no result.
abbrev pub block_at : ℕ → Heap → Option Bytes
block_at address [] = none
block_at address ((a, b) ∷ blocks) = if a == address then some b else block_at address blocks

abbrev pub without_block : ℕ → Heap → Heap
without_block address [] = []
without_block address ((a, b) ∷ blocks) =
    if a == address then blocks else (a, b) ∷ without_block address blocks

-- `slice::from_raw_parts(pointer, length).to_vec()`, and `keynoxis_se_free`.
abbrev read_and_free : Slot → Heap → Option Bytes → Option (Bytes × Heap)
read_and_free slot heap none = none
read_and_free slot heap (some block) =
    if leb slot.length (length block)
    then some (take slot.length block, without_block slot.pointer heap)
    else none

abbrev pub take_buffer : Slot → Heap → Option (Bytes × Heap)
take_buffer slot heap =
    if slot.pointer == 0
    then some ([], heap)
    else read_and_free slot heap (block_at slot.pointer heap)

abbrev then_with : {A : Type 0} → Option (Bytes × Heap) → (Bytes → Heap → Option A) → Option A
then_with none k = none
then_with (some (contents, heap)) k = k contents heap

abbrev took_output : Reply → Option (Result Bytes × Heap)
took_output reply =
    then_with (take_buffer reply.output reply.heap) (λ contents rest. some (ok contents, rest))

abbrev pub took_key : Reply → Option (Result (Bytes × Bytes) × Heap)
took_key reply = then_with (take_buffer reply.output reply.heap) (λ key rest.
    then_with (take_buffer reply.public_key rest) (λ point after. some (ok (key, point), after)))

module _ (from_utf8 : FromUtf8) where
  abbrev take_error : {A : Type 0} → Slot → String → Heap → Option (Result A × Heap)
  take_error slot fallback heap =
      then_with (take_buffer slot heap)
        (λ text rest. some (err (unwrap_or (from_utf8 text) fallback), rest))

  -- `if status == 0 { Ok(()) } else { Err(take_error(..)) }`.
  abbrev pub completed : String → Reply → Option (Result (Unit {0}) × Heap)
  completed fallback reply =
      if reply.status == 0
      then some (ok tt, reply.heap)
      else take_error reply.error fallback reply.heap

  -- What `set_autostart` makes of the reply.
  abbrev pub login_answered : Reply → Option (Result (Unit {0}) × Heap)
  login_answered reply =
      if reply.status == 0
      then some (ok tt, reply.heap)
      else if reply.error.pointer == 0
      then some (err "macOS could not update the login item", reply.heap)
      else take_error reply.error "macOS rejected the login item" reply.heap

  -- What `read_security_policy` makes of the reply.
  abbrev pub policy_answered : Reply → Option (Result (Option Bytes) × Heap)
  policy_answered reply =
      if reply.status == 0
      then then_with (take_buffer reply.output reply.heap)
          (λ contents rest. some (ok (some contents), rest))
      else if reply.status == 2
      then some (ok none, reply.heap)
      else take_error reply.error "Could not read Keychain security policy" reply.heap

  module _ (malloc : Malloc) where
    unfoldable pub create :
        Bool → Attempt (Bytes × Bytes) → Heap → Option (Result (Bytes × Bytes) × Heap)
    create is_aarch64 attempt heap =
        let reply = keynoxis_se_create malloc attempt heap in
        if is_aarch64
        then if reply.status == 0
          then took_key reply
          else take_error reply.error "Secure Enclave could not create the SSH key" reply.heap
        else some (err "Secure Enclave SSH keys require an Apple Silicon Mac", heap)

    unfoldable pub sign : Attempt Bytes → Heap → Option (Result Bytes × Heap)
    sign attempt heap =
        let reply = keynoxis_se_sign malloc attempt heap in
        if reply.status == 0
        then took_output reply
        else take_error reply.error "Secure Enclave refused the SSH signature" reply.heap

    unfoldable pub authorize_touch_id :
        Attempt (Unit {0}) → Heap → Option (Result (Unit {0}) × Heap)
    authorize_touch_id attempt heap =
        completed "Touch ID authorization failed" (attempted malloc attempt heap)

    unfoldable pub read_security_policy : Keychain → Heap → Option (Result (Option Bytes) × Heap)
    read_security_policy k heap = policy_answered (keynoxis_security_policy_read malloc k heap)

    unfoldable pub write_security_policy :
        Keychain → Bytes → Heap → Option (Result (Unit {0}) × Heap)
    write_security_policy k contents heap =
        completed "Could not save Keychain security policy"
          (keynoxis_security_policy_write malloc k contents heap)

    unfoldable pub authorize_security_settings_change :
        Attempt (Unit {0}) → Heap → Option (Result (Unit {0}) × Heap)
    authorize_security_settings_change attempt heap =
        completed "Touch ID authorization failed" (attempted malloc attempt heap)

    unfoldable pub set_autostart :
        Bool → LoginItem → (Bool → Attempt (Unit {0})) → Heap → Option (Result (Unit {0}) × Heap)
    set_autostart enabled status ask heap =
        login_answered (keynoxis_autostart_set malloc enabled status ask heap)
