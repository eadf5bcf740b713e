-- ===== src/Shell/Exit.antt =====
-- The end of the process and the item that reloads the keys, src-tauri/src/lib.rs, against the rest.
use keynoxis.Base.{false, [], Option, none, some, String, Result, is_ok, Bytes, ◌≡◌, refl, arith}
use keynoxis.State.{RuntimeState, SshKey, KeyBackend, fido2, secure_enclave, tpm}
use keynoxis.Provider.{
  Hardware, HardwareSignature, sign, sign_by, sign_at, sign_with_pin, sign_with_fido2,
}
use keynoxis.Ipc.Operation.{operation_of}
use keynoxis.Shell.{exit, reload_keys}

module _ (h : Hardware) where
  -- The state is as it was, and there is no signature.
  abbrev pub Refuses : RuntimeState → RuntimeState × Result HardwareSignature → Type 0
  Refuses r (r', o) = (r' ≡ r) × (is_ok o ≡ false)

  no_pin-Refuses :
      (r : RuntimeState) (k : SshKey) (m : Bytes) (o : Option String)
      → r.pins ≡ []
      → Refuses r (sign_at h r k m o)
  unfolding sign_at sign_with_pin
  no_pin-Refuses r k m none e = (refl, refl)
  no_pin-Refuses r k m (some path) e = rw e (refl, refl)

  by-Refuses :
      (b : KeyBackend) (r : RuntimeState) (k : SshKey) (m : Bytes)
      → b ≡ fido2
      → r.pins ≡ []
      → Refuses r (sign_by h b r k m)
  unfolding sign_with_fido2
  by-Refuses fido2 r k m e p = no_pin-Refuses r k m k.device_path p
  by-Refuses secure_enclave r k m e p = cc
  by-Refuses tpm r k m e p = cc

  -- Once the process ends, a signature by a security key is refused, and no device is asked.
  pub sign-exit :
      (r : RuntimeState) (k : SshKey) (m : Bytes)
      → k.backend ≡ fido2
      → Refuses (exit r) (sign h (exit r) k m)
  unfolding sign exit
  sign-exit r k m b = by-Refuses k.backend (exit r) k m b refl

-- The item of the tray that reloads the keys leaves what was asked for: the operation that the PIN
-- then starts is the one that would have been started before.
pub operation_of-reload_keys :
    (r : RuntimeState) → operation_of (reload_keys r).app ≡ operation_of r.app
unfolding reload_keys operation_of
operation_of-reload_keys r = ground arith
