-- ===== src/Provider/Gate.antt =====
-- The gate of src-tauri/src/provider/mod.rs: what holds whenever the hardware signs.
use keynoxis.Base.{
  true, false, List, Option, none, some, String, ◌≡◌, refl, arith, any, String_eq, List_eq, Nat_eq,
  Result, ok, err, is_ok, Bytes, ◌⊎◌, inl, inr, Result-cases, is_some, ◌≢◌,
}
use keynoxis.State.{
  RuntimeState, AppState, SshKey, KeyBackend, fido2, secure_enclave, tpm, Backend_eq, DeviceCall,
}
use keynoxis.Provider.{
  Hardware, HardwareSignature, get_pin, is_same_key, authorize, sign_with_enclave, sign_on_device,
  sign_with_fido2, sign, sign_at, sign_with_pin, sign_by,
}

-- The agent is unlocked and lists the key as enabled.
abbrev pub IsAllowed : AppState → SshKey → Type 0
IsAllowed s k = (s.agent_locked ≡ false) × (any (is_same_key k) s.keys ≡ true)

pub authorize-IsAllowed : (s : AppState) (k : SshKey) → authorize s k ≡ ok tt → IsAllowed s k
unfolding authorize
authorize-IsAllowed s k h = ground arith

-- There is a signature, or the device was called.
abbrev pub HasActed : RuntimeState → RuntimeState × Result HardwareSignature → Type 0
HasActed r (r', o) = (is_ok o ≡ true) ⊎ (r'.device_calls ≢ r.device_calls)

-- The key is allowed; and it is not of FIDO2, or the PIN of its device is in memory.
abbrev pub Cleared : RuntimeState → SshKey → Type 0
Cleared r k =
    IsAllowed r.app k
    × ((k.backend ≢ fido2)
        ⊎ ((path : String) × (k.device_path ≡ some path) × (is_some (get_pin path r.pins) ≡ true)))

abbrev Gated : RuntimeState → SshKey → RuntimeState × Result HardwareSignature → Type 0
Gated r k p = HasActed r p → Cleared r k

-- Nothing was signed, and the device was not asked.
refused_Gated : (r : RuntimeState) (k : SshKey) (e : String) → Gated r k (r, err e)
refused_Gated r k e (inl p) = cc
refused_Gated r k e (inr p) = absurd (p refl)

module _ (h : Hardware) where
  sign_with_enclave-Gated :
      (r : RuntimeState) (k : SshKey) (m : Bytes)
      → k.backend ≡ secure_enclave
      → Gated r k (r, sign_with_enclave h r k m)
  unfolding sign_with_enclave
  sign_with_enclave-Gated r k m b = elim (Result-cases (authorize r.app k)) [
    | inr (e, q) ↦ rw q (refused_Gated r k e)
    | inl (u, q) ↦ λ _. (authorize-IsAllowed r.app k q, inl (λ f. cc))
  ]

  sign_on_device-Gated :
      (r : RuntimeState) (k : SshKey) (m : Bytes) (path pin : String)
      → k.device_path ≡ some path
      → is_some (get_pin path r.pins) ≡ true
      → Gated r k (sign_on_device h r k m path pin)
  unfolding sign_on_device
  sign_on_device-Gated r k m path pin p q = elim (Result-cases (authorize r.app k)) [
    | inr (e, a) ↦ rw (a, sign_on_device) (refused_Gated r k e)
    | inl (u, a) ↦ λ _. (authorize-IsAllowed r.app k a, inr (path, p, q))
  ]

  sign_with_pin-Gated :
      (r : RuntimeState) (k : SshKey) (m : Bytes) (path : String) (o : Option String)
      → k.device_path ≡ some path
      → get_pin path r.pins ≡ o
      → Gated r k (sign_with_pin h r k m path o)
  unfolding sign_with_pin
  sign_with_pin-Gated r k m path none p q = refused_Gated r k "Enter the FIDO2 PIN in Keynoxis"
  sign_with_pin-Gated r k m path (some pin) p q =
      sign_on_device-Gated r k m path pin p (ground arith)

  sign_at-Gated :
      (r : RuntimeState) (k : SshKey) (m : Bytes) (o : Option String)
      → k.device_path ≡ o
      → Gated r k (sign_at h r k m o)
  unfolding sign_at
  sign_at-Gated r k m none p = refused_Gated r k "FIDO2 security key was removed"
  sign_at-Gated r k m (some path) p = sign_with_pin-Gated r k m path (get_pin path r.pins) p refl

  sign_by-Gated :
      (b : KeyBackend) (r : RuntimeState) (k : SshKey) (m : Bytes)
      → k.backend ≡ b
      → Gated r k (sign_by h b r k m)
  unfolding sign_with_fido2
  sign_by-Gated fido2 r k m e = sign_at-Gated r k m k.device_path refl
  sign_by-Gated secure_enclave r k m e = sign_with_enclave-Gated r k m e
  sign_by-Gated tpm r k m e = refused_Gated r k "TPM provider is not implemented yet"

  -- Whenever `sign` returns a signature or has asked a security key for an assertion, the agent is
  -- unlocked and lists the key as enabled at that moment, and for a FIDO2 key the PIN of its device
  -- is in memory.
  pub sign-Cleared :
      (r : RuntimeState) (k : SshKey) (m : Bytes) → HasActed r (sign h r k m) → Cleared r k
  unfolding sign
  sign-Cleared r k m = sign_by-Gated k.backend r k m refl

  -- A signature leaves the state alone but for the record of the call.
  pub sign_frame :
      (r : RuntimeState) (k : SshKey) (m : Bytes)
      → (calls : List DeviceCall) × ((sign h r k m).0 ≡ record r { device_calls = calls })
  unfolding sign sign_with_fido2 sign_on_device
  sign_frame r k m = ((sign h r k m).0.device_calls, ground arith)
