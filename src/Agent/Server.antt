-- ===== src/Agent/Server.antt =====
-- src-tauri/src/agent/server.rs: signature requests, the dispatch of a request, and a connection.
-- A request is split where it waits for a lock: what other threads do meanwhile is a function on the
-- state, given with the request.
pub mod Refusal
pub mod Signing
use Prim.Native.String.{◌++◌ as concat}
use keynoxis.Base.{
  ℕ, Bool, true, false, not, ◌&&◌, ◌||◌, List, [], ◌∷◌, ◌++◌, Option, none, some, String,
  if◌then◌else◌, ◌==◌, Nat_eq, List_eq, String_eq, Result, ok, err, ok_or, is_ok, is_some, Bytes,
  as_bytes, unwrap_or, find,
}
use keynoxis.State.{
  RuntimeState, AppState, SshKey, KeyBackend, fido2, secure_enclave, tpm, Backend_eq, DeviceInfo,
  Phase, needs_pin, waiting_for_touch, ready, error, signing, success, warning, failure,
  ActivityStatus, show_auth, hide_auth,
}
use keynoxis.Activity.{publish, tell, record_activity}
use keynoxis.Settings.{mark_fido_activity}
use keynoxis.Agent.Wire.{
  Reader, new_reader, read_string, read_u32, at_end, put_string, read_message, write_message,
}
use keynoxis.Agent.Session.{ConnectionContext, Crypto, extension, ssh_agent_failure}
use keynoxis.Agent.Identities.{identities}
use keynoxis.Provider.{Hardware, HardwareSignature, get_pin}
use keynoxis.Provider

abbrev pub sign_response : ℕ
sign_response = 14

infixl 5 ◌>>=◌
abbrev ◌>>=◌ : {A B : Type 0} → Result A → (A → Result B) → Result B
ok a >>= f = f a
err e >>= f = err e

-- The two strings of a request; the flags are read and not used.
unfoldable pub parse_sign_request : Bytes → Result (Bytes × Bytes)
parse_sign_request request = do
  (blob, r1) ← read_string (new_reader request)
  (message, r2) ← read_string r1
  (_, r3) ← read_u32 r2
  if not (at_end r3) then err "Trailing data in SSH signature request" else ok (blob, message)

abbrev pub is_requested : Bytes → SshKey → Bool
is_requested blob k = k.enabled && k.public_blob == blob

unfoldable pub find_key : List SshKey → Bytes → Option SshKey
find_key keys blob = find (is_requested blob) keys

unfoldable pub signature_response : SshKey → HardwareSignature → Bytes
signature_response k s =
    sign_response
    ∷ put_string
        (put_string (as_bytes k.algorithm) ++ (put_string s.signature ++ s.provider_fields))

abbrev blocked_detail : Bool → String
blocked_detail true = "An SSH session binding failed authentication"
blocked_detail false = "Keynoxis does not allow agent forwarding"

abbrev pub blocked_error : Bool → String
blocked_error true = "SSH session binding failed authentication"
blocked_error false = "Agent forwarding is blocked by Keynoxis"

abbrev at_path : String → DeviceInfo → Bool
at_path path d = d.path == path

-- The prompt for a FIDO2 key: the window shows its device and asks for the PIN or a touch.
unfoldable pub prompt_for : RuntimeState → String → RuntimeState
prompt_for r path = tell show_auth (
    publish (record r {
      app = record r.app {
        active = find (at_path path) r.app.devices;
        phase = if is_some (get_pin path r.pins) then waiting_for_touch else needs_pin;
        last_error = none;
      };
    }))

-- Up to the call of the provider, on a key that was found.
unfoldable pub prepare_key : RuntimeState → SshKey → RuntimeState × Result SshKey
unfolding prompt_for
prepare_key r k =
    if k.backend == fido2
    then elim k.device_path [
      | none ↦ (r, err "FIDO2 security key was removed")
      | some path ↦ (prompt_for r path, ok k)
    ]
    else (r, ok k)

abbrev pub prepare_found : RuntimeState → Option SshKey → RuntimeState × Result SshKey
prepare_found r none = (r, err "Requested key is unavailable")
prepare_found r (some k) = prepare_key r k

abbrev pub with_message :
    Bytes → RuntimeState × Result SshKey → RuntimeState × Result (SshKey × Bytes)
with_message message (r, ok k) = (r, ok (k, message))
with_message message (r, err e) = (r, err e)

-- On what was read of the request.
abbrev pub begin_parsed :
    ℕ
    → ConnectionContext
    → RuntimeState
    → Result (Bytes × Bytes)
    → RuntimeState × Result (SshKey × Bytes)
begin_parsed now c r (err e) = (r, err e)
begin_parsed now c r (ok (blob, message)) =
    if c.binding_failed || c.forwarded
    then (
      record_activity now signing warning "Forwarded SSH signature blocked"
          (some (blocked_detail c.binding_failed)) r,
      err (blocked_error c.binding_failed),
    )
    else with_message message (prepare_found r (find_key r.app.keys blob))

-- `sign_request` up to the call of the provider: the key and the data to sign.
unfoldable pub begin_sign :
    ℕ → Bytes → ConnectionContext → RuntimeState → RuntimeState × Result (SshKey × Bytes)
begin_sign now request c r =
    if r.app.agent_locked
    then (r, err "Keynoxis SSH Agent is locked")
    else begin_parsed now c r (parse_sign_request request)

abbrev backend_name : KeyBackend → String
backend_name fido2 = "FIDO2"
backend_name secure_enclave = "Secure Enclave"
backend_name tpm = "TPM"

abbrev key_name : SshKey → String
key_name k = unwrap_or k.comment "Unnamed SSH identity"

abbrev sign_detail : SshKey → Result HardwareSignature → String
sign_detail k (ok _) = concat (key_name k) (concat " · " (backend_name k.backend))
sign_detail k (err e) = concat (key_name k) (concat " · " e)

-- The entry of the log, for either outcome, and the clock of the session for a FIDO2 signature.
unfoldable pub log_signature : ℕ → SshKey → Result HardwareSignature → RuntimeState → RuntimeState
log_signature now k o r =
    record_activity now signing (if is_ok o then success else failure)
      (if is_ok o then "SSH signature completed" else "SSH signature failed")
      (some (sign_detail k o))
      (if k.backend == fido2 && is_ok o then mark_fido_activity now r else r)

-- The end of a request for a key that is not of FIDO2.
unfoldable pub finish_other : Result HardwareSignature → RuntimeState → RuntimeState
finish_other (ok s) r = r
finish_other (err e) r =
    publish (record r { app = record r.app { phase = error; last_error = some e } })

-- What the state says after a FIDO2 signature; the error of an absent PIN is told by its text.
unfoldable pub needs_pin_after : Result HardwareSignature → Bool
needs_pin_after (ok s) = false
needs_pin_after (err e) = e == "Enter the FIDO2 PIN in Keynoxis"

abbrev error_of : Result HardwareSignature → Option String
error_of (ok s) = none
error_of (err e) = some e

-- The end for a FIDO2 key, if the window was dismissed meanwhile or not.
unfoldable pub finish_fido2 : Bool → Result HardwareSignature → RuntimeState → RuntimeState
unfolding needs_pin_after
finish_fido2 dismissed o r = tell (if is_ok o || dismissed then hide_auth else show_auth) (
    publish (record r {
      app = record r.app {
        phase =
            if needs_pin_after o then needs_pin else if is_ok o || dismissed then ready else error;
        last_error = if dismissed || needs_pin_after o then none else error_of o;
      };
    }))

unfoldable pub finish_sign : ℕ → ℕ → SshKey → Result HardwareSignature → RuntimeState → RuntimeState
finish_sign now generation k o r =
    let logged = log_signature now k o r in
    if not (k.backend == fido2)
    then finish_other o logged
    else finish_fido2 (not (logged.auth_dismiss_generation == generation)) o logged

-- What a request meets: the time, and what other threads do to the state before the provider has
-- its locks, and between the signature and the end of the request.
pub record Meanwhile : Type 0 where
  pub now_ms : ℕ
  pub before : RuntimeState → RuntimeState
  pub after : RuntimeState → RuntimeState

abbrev pub respond : SshKey → Result HardwareSignature → Result Bytes
respond k (ok s) = ok (signature_response k s)
respond k (err e) = err e

module _ (h : Hardware) where
  -- Where the provider has its locks: the signature, then the rest of the request.
  unfoldable pub complete_sign :
      Meanwhile → ℕ → SshKey → Bytes → RuntimeState → RuntimeState × Result Bytes
  complete_sign m generation k message r =
      let (signed, o) = Provider.sign h r k message in
      (finish_sign m.now_ms generation k o (m.after signed), respond k o)

  abbrev pub signing_step :
      Meanwhile → ℕ → RuntimeState × Result (SshKey × Bytes) → RuntimeState × Result Bytes
  signing_step m generation (r, err e) = (r, err e)
  signing_step m generation (r, ok (k, message)) = complete_sign m generation k message (m.before r)

  unfoldable pub sign_request :
      Meanwhile → Bytes → ConnectionContext → RuntimeState → RuntimeState × Result Bytes
  sign_request m request c r =
      signing_step m r.auth_dismiss_generation (begin_sign m.now_ms request c r)

-- The state of one connection and of the process, and the answer.
pub record Handled : Type 0 where
  pub runtime : RuntimeState
  pub context : ConnectionContext
  pub answer : Result Bytes

module _ (x : Crypto) (h : Hardware) (to_lowercase : String → String) where
  abbrev signed : ConnectionContext → RuntimeState × Result Bytes → Handled
  signed c (r, o) = record { runtime = r; context = c; answer = o }

  abbrev bound : RuntimeState → ConnectionContext × Result Bytes → Handled
  bound r (c, o) = record { runtime = r; context = c; answer = o }

  unfoldable pub handle : Meanwhile → Bytes → ConnectionContext → RuntimeState → Handled
  handle m [] c r = record { runtime = r; context = c; answer = ok (ssh_agent_failure ∷ []) }
  handle m (t ∷ request) c r =
      if t == 11
      then record { runtime = r; context = c; answer = ok (identities to_lowercase r) }
      else if t == 13
      then signed c (sign_request h m request c r)
      else if t == 27
      then bound r (extension x request c)
      else record { runtime = r; context = c; answer = ok (ssh_agent_failure ∷ []) }

  -- An error is answered by a failure.
  abbrev pub response : Result Bytes → Bytes
  response (ok b) = b
  response (err e) = ssh_agent_failure ∷ []

  -- `serve` on the requests of a connection, with what each of them meets: the responses written.
  unfoldable pub serve : List (Meanwhile × Bytes) → ConnectionContext → RuntimeState → List Bytes
  serve [] c r = []
  serve ((m, request) ∷ requests) c r =
      let d = handle m request c r in
      write_message (response d.answer) ∷ serve requests d.context d.runtime
