-- ===== src/Agent/Server/Refusal.antt =====
-- Requests to src-tauri/src/agent/server.rs that get no signature.
use keynoxis.Base.{
  ℕ, Bool, true, false, List, [], ◌∷◌, Option, some, String, ◌≡◌, ◌≢◌, refl, ◌⊎◌, inl, inr, arith,
  Result, ok, err, is_ok, Bytes, All, get_elem?, Bool-cases, ◌==◌, Nat_eq, ◌∙◌, sym,
}
use keynoxis.State.{RuntimeState, SshKey}
use keynoxis.Activity.{record_activity}
use keynoxis.Agent.Wire.{u32_bytes, write_message}
use keynoxis.Agent.Session.{ConnectionContext, Crypto, extension}
use keynoxis.Agent.Session.Cases.{extension_cases, bind_session_cases, record_binding_cases}
use keynoxis.Agent.Session.Binding.{extension-Extends}
use keynoxis.Agent.Identities.{identities}
use keynoxis.Provider.{Hardware}
use keynoxis.Agent.Server.{
  Meanwhile, begin_sign, sign_request, signing_step, handle, Handled, response, serve,
  sign_response,
}

-- The agent is locked, or the connection failed to bind or is forwarded.
abbrev pub IsBlocked : ConnectionContext → RuntimeState → Type 0
IsBlocked c r = (r.app.agent_locked ≡ true) ⊎ ((c.binding_failed ≡ true) ⊎ (c.forwarded ≡ true))

-- The request ends with an error, with nothing asked of the hardware and the state of the
-- application and the PINs as they were.
abbrev pub Ends {ℓ} : {A : Type ℓ} → RuntimeState → RuntimeState × Result A → Type 0
Ends r (r', o) =
    (is_ok o ≡ false) × (r'.device_calls ≡ r.device_calls) × (r'.app ≡ r.app) × (r'.pins ≡ r.pins)

begin_sign-Ends :
    (now : ℕ) (request : Bytes) (c : ConnectionContext) (r : RuntimeState)
    → IsBlocked c r
    → Ends r (begin_sign now request c r)
unfolding begin_sign record_activity
begin_sign-Ends now request c r b = ground arith

signing_step-Ends :
    (h : Hardware) (m : Meanwhile) (generation : ℕ) (r : RuntimeState)
    (b : RuntimeState × Result (SshKey × Bytes))
    → Ends r b
    → Ends r (signing_step h m generation b)
signing_step-Ends h m generation r (r', err e) s = s
signing_step-Ends h m generation r (r', ok k) s = absurd (no_ok s.0)
  where
    no_ok : ◌≡◌ {A = Bool} true false → ⊥
    no_ok p = cc

-- While the agent is locked, or once the connection failed to bind or is forwarded, a signature
-- request ends with an error whatever its bytes: no security key is asked for anything, and the
-- state of the application and the PINs stay as they were.
pub sign_request-Ends :
    (h : Hardware) (m : Meanwhile) (request : Bytes) (c : ConnectionContext) (r : RuntimeState)
    → IsBlocked c r
    → Ends r (sign_request h m request c r)
unfolding sign_request
sign_request-Ends h m request c r b =
    signing_step-Ends h m r.auth_dismiss_generation r _ (begin_sign-Ends m.now_ms request c r b)

-- The type of the message in a frame, behind its length.
abbrev pub type_of : Bytes → Option ℕ
type_of frame = get_elem? frame 4

type_of-write_message : (b : Bytes) → type_of (write_message b) ≡ get_elem? b 0
unfolding write_message u32_bytes
type_of-write_message b = refl

module _ (x : Crypto) (h : Hardware) (to_lowercase : String → String) where
  -- A connection that is forwarded: what it stays, and what it is not told.
  abbrev Refuses : Handled → Type 0
  Refuses d =
      (d.context.forwarded ≡ true)
      × (get_elem? (response x h to_lowercase d.answer) 0 ≢ some sign_response)

  -- The extension answers no signature.
  extension_answers :
      (request : Bytes) (c : ConnectionContext)
      → get_elem? (response x h to_lowercase (extension x request c).1) 0 ≢ some sign_response
  extension_answers request c =
      extension_cases x NoSignature request c (λ _ _ e. ground arith) (λ _ _ _ _ e. ground arith)
        λ r _.
          bind_session_cases x NoSignature r c (λ _ e. ground arith)
            λ q _ _.
              record_binding_cases NoSignature q _ (λ _ e. ground arith) (λ _ e. ground arith)
                λ _ _ e. ground arith
    where
      NoSignature : ConnectionContext × Result Bytes → Type 0
      NoSignature p = get_elem? (response x h to_lowercase p.1) 0 ≢ some sign_response

  refused_response :
      (o : Result Bytes)
      → is_ok o ≡ false
      → get_elem? (response x h to_lowercase o) 0 ≢ some sign_response
  refused_response (ok b) p = cc
  refused_response (err e) p = λ q. ground arith

  handle-Refuses :
      (m : Meanwhile) (request : Bytes) (c : ConnectionContext) (r : RuntimeState)
      → c.forwarded ≡ true
      → Refuses (handle x h to_lowercase m request c r)
  unfolding handle identities
  handle-Refuses m [] c r f = (f, λ e. ground arith)
  handle-Refuses m (t ∷ request) c r f = elim (Bool-cases (t == 11)) [
    | inl ids ↦ rw ids (f, λ e. ground arith)
    | inr a ↦ elim (Bool-cases (t == 13)) [
      | inl sign ↦
          rw (a, sign)
            (
              f,
              refused_response (sign_request h m request c r).1
                  (sign_request-Ends h m request c r (inr (inr f))).0,
            )
      | inr b ↦ elim (Bool-cases (t == 27)) [
        | inl ext ↦
            rw (a, b, ext)
              (ground (arith, (extension-Extends x request c).0), extension_answers request c)
        | inr d ↦ rw (a, b, d) (f, λ e. ground arith)
      ]
    ]
  ]

  -- On a connection that is forwarded no frame that the agent ever writes is a signature, whatever
  -- the requests, the state of the process and the other threads.
  pub serve_forwarded :
      (requests : List (Meanwhile × Bytes)) (c : ConnectionContext) (r : RuntimeState)
      → c.forwarded ≡ true
      → All (λ frame. type_of frame ≢ some sign_response) (serve x h to_lowercase requests c r)
  unfolding serve
  serve_forwarded [] c r f = tt
  serve_forwarded ((m, request) ∷ requests) c r f =
      let d = handle x h to_lowercase m request c r in
      let (stays, silent) = handle-Refuses m request c r f in
      (
        (λ e. silent (sym (type_of-write_message (response x h to_lowercase d.answer)) ∙ e)),
        serve_forwarded requests d.context d.runtime stays,
      )
