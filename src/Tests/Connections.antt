-- ===== src/Tests/Connections.antt =====
-- Requests of SSH clients.
use keynoxis.Base.{
  ◌<◌, ◌^◌, true, [], ◌∷◌, some, ◌≡◌, ◌≢◌, refl, arith, inl, ok, is_ok, Bytes, All, length,
  as_bytes, sort_by, insert_by,
}
use keynoxis.State.{SshKey}
use keynoxis.Agent.Wire.{
  put_string, u32_bytes, u32_of_bytes, get_range, new_reader, read_string, read_u32, at_end, Reader,
}
use keynoxis.Agent.Session.{ConnectionContext, default_context, extension, session_bind_extension}
use keynoxis.Agent.Session.Invariant.{IsSound, bind_all, bind_all-IsSound}
use keynoxis.Agent.Session.Binding.{FailsClosed, extension-FailsClosed}
use keynoxis.Agent.Server.{
  parse_sign_request, find_key, signature_response, prepare_key, begin_sign, complete_sign,
  sign_request, sign_response, serve,
}
use keynoxis.Agent.Server.Refusal.{Ends, type_of, sign_request-Ends, serve_forwarded}
use keynoxis.Agent.Server.Signing.{IsRequest, IsSigned, at_signature, sign_request-IsSigned}
use keynoxis.Agent.Wire.Strings.{Short}
use keynoxis.Agent.Identities.{sort_keys, key_le, backend_priority}
use keynoxis.Agent.Identities.Answer.{decode_identities, rows, visible_keys, decode-identities}
use keynoxis.Agent.Identities.{identities}
use keynoxis.Provider.{
  HardwareSignature, authorize, enclave_signature, sign_with_enclave, sign, sign_with_fido2,
  sign_at, sign_with_pin, sign_on_device,
}
use keynoxis.Provider.Gate.{Cleared, sign-Cleared}
use keynoxis.Ssh.{
  expect_tag, be_number, long_len, read_der_len, mpint_content, put_mpint, read_integer,
  read_integers, der_ecdsa_to_ssh,
}
use keynoxis.Fido.Sign.{c_string, answer_signature, assert_on}
use keynoxis.Fido.Sign
use keynoxis.Tests.Data.{
  laptop_key, token_key, unlocked_runtime, locked_runtime, hardware, crypto, quiet, laptop_request,
  bind_request, same_text,
}

-- The hardware's signature of the tests, as the agent returns it.
abbrev laptop_signature : HardwareSignature
laptop_signature = record {
  signature = 0 ∷ 0 ∷ 0 ∷ 2 ∷ 0 ∷ 200 ∷ 0 ∷ 0 ∷ 0 ∷ 1 ∷ 3 ∷ [];
  provider_fields = [];
}

laptop_answer :
    (sign_request hardware quiet laptop_request default_context unlocked_runtime).1
    ≡ ok (signature_response laptop_key laptop_signature)
unfolding sign_request begin_sign parse_sign_request new_reader read_string read_u32 get_range
    u32_of_bytes at_end find_key prepare_key complete_sign sign sign_with_enclave enclave_signature
    authorize expect_tag be_number long_len read_der_len mpint_content put_mpint put_string
    u32_bytes read_integer read_integers der_ecdsa_to_ssh
laptop_answer = refl

sign_request-IsSigned_example :
    (k : SshKey) × (message : Bytes) × IsRequest laptop_request default_context unlocked_runtime k
      message
    × IsSigned hardware
        (at_signature quiet laptop_request default_context unlocked_runtime)
        k
        message
        (signature_response laptop_key laptop_signature)
sign_request-IsSigned_example =
    sign_request-IsSigned hardware quiet laptop_request default_context unlocked_runtime
      laptop_answer

token_signs : is_ok (sign hardware unlocked_runtime token_key (65 ∷ [])).1 ≡ true
unfolding sign sign_with_fido2 sign_at sign_with_pin sign_on_device authorize c_string
    answer_signature assert_on Sign.sign as_bytes
token_signs = refl

sign-Cleared_example : Cleared unlocked_runtime token_key
sign-Cleared_example = sign-Cleared hardware unlocked_runtime token_key (65 ∷ []) (inl token_signs)

bind_all-IsSound_example :
    IsSound crypto (bind_all crypto (bind_request ∷ bind_request ∷ []) default_context)
bind_all-IsSound_example = bind_all-IsSound crypto (bind_request ∷ bind_request ∷ [])

abbrev forwarded_context : ConnectionContext
forwarded_context = record default_context { forwarded = true }

serve_forwarded_example :
    All
      (λ frame. type_of frame ≢ some sign_response)
      (serve crypto hardware same_text
        ((quiet, 13 ∷ laptop_request) ∷ (quiet, 11 ∷ []) ∷ [])
        forwarded_context
        unlocked_runtime)
serve_forwarded_example =
    serve_forwarded crypto hardware same_text ((quiet, 13 ∷ laptop_request) ∷ (quiet, 11 ∷ []) ∷ [])
      forwarded_context unlocked_runtime refl

sign_request-Ends_example :
    Ends locked_runtime (sign_request hardware quiet laptop_request default_context locked_runtime)
sign_request-Ends_example =
    sign_request-Ends hardware quiet laptop_request default_context locked_runtime (inl refl)

abbrev behind_name : Reader
behind_name = record { value = bind_request; at = 28 }

reads_name : read_string (new_reader bind_request) ≡ ok (session_bind_extension, behind_name)
unfolding read_string new_reader read_u32 get_range u32_of_bytes put_string u32_bytes as_bytes
reads_name = refl

extension-FailsClosed_example :
    FailsClosed crypto default_context (extension crypto bind_request default_context)
extension-FailsClosed_example =
    extension-FailsClosed crypto bind_request behind_name default_context reads_name

length-visible_keys : length (visible_keys same_text unlocked_runtime) < 2 ^ 32
unfolding sort_keys sort_by insert_by key_le backend_priority as_bytes
length-visible_keys = omega arith

rows-Short : All Short (rows same_text (visible_keys same_text unlocked_runtime))
unfolding sort_keys sort_by insert_by key_le backend_priority as_bytes
rows-Short = (omega arith, (omega arith, (omega arith, (omega arith, tt))))

decode-identities_example :
    decode_identities (identities same_text unlocked_runtime)
    ≡ ok (rows same_text (visible_keys same_text unlocked_runtime))
decode-identities_example =
    decode-identities same_text unlocked_runtime length-visible_keys rows-Short
