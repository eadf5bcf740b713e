-- ===== src/Tests/Bytes.antt =====
-- The encodings and the log.
use keynoxis.Base.{[], ◌∷◌, ◌++◌, some, ◌≡◌, arith, ok}
use keynoxis.Agent.Wire.{read_message, write_message}
use keynoxis.Agent.Wire.RoundTrip.{read_message-write_message}
use keynoxis.Ssh.{der_ecdsa_to_ssh, put_mpint}
use keynoxis.Ssh.Der.{der_signature, der_ecdsa_to_ssh-der_signature}

der_ecdsa_to_ssh-der_signature_example :
    der_ecdsa_to_ssh (der_signature (0 ∷ 200 ∷ []) (3 ∷ []))
    ≡ ok (put_mpint (0 ∷ 200 ∷ []) ++ put_mpint (3 ∷ []))
der_ecdsa_to_ssh-der_signature_example =
    der_ecdsa_to_ssh-der_signature (0 ∷ 200 ∷ []) (3 ∷ []) (omega arith)

read_message-write_message_example :
    read_message (write_message (11 ∷ []) ++ (9 ∷ [])) ≡ ok (some (11 ∷ [], 9 ∷ []))
read_message-write_message_example =
    read_message-write_message (11 ∷ []) (9 ∷ []) (omega arith) (omega arith)
