-- ===== src/Agent/Server/Signing.antt =====
-- What `sign_request` (src-tauri/src/agent/server.rs) returns a signature of.
use keynoxis.Base.{
  true, false, Option, none, some, ◌≡◌, refl, arith, Result, ok, err, is_ok, Bytes, Result-cases, ℕ,
  inl, inr, ap, List_eq, Nat_eq, ◌||◌, find_holds, list_eq_iff, Bool-cases, ◌∙◌, sym,
}
use keynoxis.State.{RuntimeState, SshKey}
use keynoxis.Agent.Session.{ConnectionContext}
use keynoxis.Provider.{Hardware, HardwareSignature}
use keynoxis.Provider.Gate.{IsAllowed, sign-Cleared}
use keynoxis.Provider
use keynoxis.Agent.Server.{
  Meanwhile, parse_sign_request, find_key, begin_sign, sign_request, signing_step, complete_sign,
  signature_response, prepare_found, with_message, begin_parsed, prepare_key, is_requested,
}

-- The key of a request: it is the first enabled one with the blob of the request, the agent is
-- unlocked, and the connection neither failed to bind nor is forwarded.
pub record IsRequest (request : Bytes) (c : ConnectionContext) (r : RuntimeState) (k : SshKey)
    (message : Bytes) : Type 0 where
  pub unlocked : r.app.agent_locked ≡ false
  pub trusted : c.binding_failed || c.forwarded ≡ false
  pub parsed : parse_sign_request request ≡ ok (k.public_blob, message)
  pub enabled : k.enabled ≡ true
  pub listed : find_key r.app.keys k.public_blob ≡ some k

prepare_found-ok :
    (r : RuntimeState) (o : Option SshKey) {k : SshKey} → (prepare_found r o).1 ≡ ok k → o ≡ some k
unfolding prepare_key
prepare_found-ok r none {k} h = cc
prepare_found-ok r (some l) {k} h = ground arith

find_key_holds :
    (r : RuntimeState) (blob : Bytes) {k : SshKey}
    → find_key r.app.keys blob ≡ some k
    → (k.enabled ≡ true) × (k.public_blob ≡ blob)
unfolding find_key
find_key_holds r blob {k} h =
    let p = find_holds (is_requested blob) r.app.keys h in
    (ground (arith, p), (list_eq_iff k.public_blob blob).0 (ground (arith, p)))

with_message-ok :
    (message : Bytes) (p : RuntimeState × Result SshKey) {k : SshKey} {data_ : Bytes}
    → (with_message message p).1 ≡ ok (k, data_)
    → (p.1 ≡ ok k) × (message ≡ data_)
with_message-ok message (r, ok l) {k} {data_} h = ground arith
with_message-ok message (r, err e) {k} {data_} h = ground arith

begin_parsed-ok :
    (now : ℕ) (c : ConnectionContext) (r : RuntimeState) (p : Result (Bytes × Bytes)) {k : SshKey}
    {message : Bytes}
    → (begin_parsed now c r p).1 ≡ ok (k, message)
    → (c.binding_failed || c.forwarded ≡ false)
      × (p ≡ ok (k.public_blob, message))
      × (k.enabled ≡ true)
      × (find_key r.app.keys k.public_blob ≡ some k)
begin_parsed-ok now c r (err e) {k} {message} h = ground arith
begin_parsed-ok now c r (ok (blob, data_)) {k} {message} h =
    elim (Bool-cases (c.binding_failed || c.forwarded)) [
      | inl b ↦ absurd (ground (arith, b))
      | inr b ↦
          let q =
            with_message-ok data_ (prepare_found r (find_key r.app.keys blob)) {k = k}
              {data_ = message} (ground (arith, b)) in
          let found = prepare_found-ok r (find_key r.app.keys blob) q.0 in
          let (e, same) = find_key_holds r blob found in
          (
            b,
            ap (λ x. ok (x, data_)) (sym same) ∙ ap (λ y. ok (k.public_blob, y)) q.1,
            e,
            ap (find_key r.app.keys) same ∙ found,
          )
    ]

begin_sign-ok :
    (now : ℕ) (request : Bytes) (c : ConnectionContext) (r : RuntimeState) {k : SshKey}
    {message : Bytes}
    → (begin_sign now request c r).1 ≡ ok (k, message)
    → IsRequest request c r k message
unfolding begin_sign
begin_sign-ok now request c r {k} {message} h = elim (Bool-cases r.app.agent_locked) [
  | inl l ↦ absurd (ground (arith, l))
  | inr l ↦
      let (t, p, e, f) =
        begin_parsed-ok now c r (parse_sign_request request) {k = k} {message = message}
          (ground (arith, l)) in
      record { unlocked = l; trusted = t; parsed = p; enabled = e; listed = f }
]

-- The state in which the provider has its locks.
abbrev pub at_signature : Meanwhile → Bytes → ConnectionContext → RuntimeState → RuntimeState
at_signature m request c r = m.before (begin_sign m.now_ms request c r).0

module _ (h : Hardware) where
  -- An answer is the one for a signature that the hardware made, with a key that was then allowed.
  abbrev pub IsSigned : RuntimeState → SshKey → Bytes → Bytes → Type 0
  IsSigned r k message b =
      IsAllowed r.app k
      × (s : HardwareSignature) × ((Provider.sign h r k message).1 ≡ ok s)
      × (b ≡ signature_response k s)

  signing_step-ok :
      (m : Meanwhile) (generation : ℕ) (p : RuntimeState × Result (SshKey × Bytes)) {b : Bytes}
      → (signing_step h m generation p).1 ≡ ok b
      → (k : SshKey) × (message : Bytes) × (p.1 ≡ ok (k, message))
        × IsSigned (m.before p.0) k message b
  unfolding complete_sign
  signing_step-ok m generation (r, err e) {b} q = absurd (ground arith)
  signing_step-ok m generation (r, ok (k, message)) {b} q =
      elim (Result-cases (Provider.sign h (m.before r) k message).1) [
        | inr (e, f) ↦ absurd (ground (arith, f))
        | inl (s, f) ↦ (
          k,
          message,
          refl,
          ((sign-Cleared h (m.before r) k message (inl (ap is_ok f))).0, s, f, ground (arith, f)),
        )
      ]

  -- If a signature request is answered, then the agent was unlocked and the connection trusted, the
  -- request carried the public blob of an enabled key, the first one listed with it, and some data;
  -- when the provider signed, whatever other threads did before that, the agent was still unlocked
  -- and that key still listed as enabled; and the answer holds what the hardware returned for
  -- that key and that data.
  pub sign_request-IsSigned :
      (m : Meanwhile) (request : Bytes) (c : ConnectionContext) (r : RuntimeState) {b : Bytes}
      → (sign_request h m request c r).1 ≡ ok b
      → (k : SshKey) × (message : Bytes) × IsRequest request c r k message
        × IsSigned (at_signature m request c r) k message b
  unfolding sign_request
  sign_request-IsSigned m request c r {b} q =
      let (k, message, p, s) =
        signing_step-ok m r.auth_dismiss_generation (begin_sign m.now_ms request c r) {b = b} q in
      (k, message, begin_sign-ok m.now_ms request c r {k = k} {message = message} p, s)
