-- ===== src/Agent/Identities/Answer.antt =====
-- What a client reads of the answer of `identities` (src-tauri/src/agent/server.rs).
use keynoxis.Base.{
  ℕ, ◌+◌, ◌<◌, ◌^◌, List, [], ◌∷◌, ◌++◌, String, if◌then◌else◌, ◌==◌, Nat_eq, ◌≡◌, refl, ap, arith,
  Result, ok, err, Bytes, length, All, Bool-cases, inl, inr, append-nil, subst, nat_eq_iff,
}
use keynoxis.State.{RuntimeState, SshKey}
use keynoxis.Agent.Wire.{u32_bytes, Reader, new_reader, read_u32, at_end, put_string}
use keynoxis.Agent.Wire.RoundTrip.{read_u32-u32_bytes, length-u32_bytes}
use keynoxis.Agent.Wire.Strings.{put_strings, read_strings, Short, read_strings-put_strings}
use keynoxis.Agent.Identities.{
  identities_answer, identities, put_identities, offered_keys, shown_comment,
}

abbrev all_read : Result (List Bytes × Reader) → Result (List Bytes)
all_read (ok (ss, r)) = if at_end r then ok ss else err "trailing data"
all_read (err e) = err e

abbrev read_rows : Result (ℕ × Reader) → Result (List Bytes)
read_rows (ok (n, r)) = all_read (read_strings (n + n) r)
read_rows (err e) = err e

-- A client: the type of the answer, a count, and so many pairs of a key blob and a comment.
unfoldable pub decode_identities : Bytes → Result (List Bytes)
decode_identities [] = err "empty"
decode_identities (t ∷ rest) =
    if t == identities_answer then read_rows (read_u32 (new_reader rest)) else err "not an answer"

-- The pairs, as the row of their members.
abbrev pub rows : (String → String) → List SshKey → List Bytes
rows lower [] = []
rows lower (k ∷ ks) = k.public_blob ∷ shown_comment lower k ∷ rows lower ks

module _ (to_lowercase : String → String) where
  put_identities-rows :
      (ks : List SshKey) → put_identities to_lowercase ks ≡ put_strings (rows to_lowercase ks)
  unfolding put_identities
  put_identities-rows [] = refl
  put_identities-rows (k ∷ ks) =
      ap (λ t. put_string k.public_blob ++ (put_string (shown_comment to_lowercase k) ++ t))
        (put_identities-rows ks)

  length-rows : (ks : List SshKey) → length (rows to_lowercase ks) ≡ length ks + length ks
  length-rows [] = refl
  length-rows (k ∷ ks) = omega (arith, length-rows ks)

  -- None while the agent is locked, else the enabled keys in order.
  abbrev pub visible_keys : RuntimeState → List SshKey
  visible_keys r = if r.app.agent_locked then [] else offered_keys to_lowercase r

  decode-rows :
      (ss : List Bytes) (n : ℕ)
      → n < 2 ^ 32
      → length ss ≡ n + n
      → All Short ss
      → decode_identities (identities_answer ∷ (u32_bytes n ++ put_strings ss)) ≡ ok ss
  unfolding decode_identities new_reader at_end
  decode-rows ss n h e short =
      rw (read_u32-u32_bytes [] (put_strings ss) n h)
        (rw strings (rw ((nat_eq_iff (length value) (length value)).1 refl) refl))
    where
      value : Bytes
      value = u32_bytes n ++ put_strings ss

      strings :
          read_strings (n + n) (record { value = value; at = 4 })
          ≡ ok (ss, record { value = value; at = length value })
      strings =
          subst
            (λ k.
              read_strings k (record { value = value; at = 4 })
              ≡ ok (ss, record { value = value; at = length value }))
            e
            (subst
              (λ k.
                read_strings (length ss) (record { value = value; at = k })
                ≡ ok (ss, record { value = value; at = length value }))
              (length-u32_bytes n)
              (subst
                (λ t.
                  read_strings (length ss)
                    (record { value = u32_bytes n ++ t; at = length (u32_bytes n) })
                  ≡ ok (ss, record { value = u32_bytes n ++ t; at = length value }))
                (append-nil (put_strings ss)) (read_strings-put_strings (u32_bytes n) [] ss short)))

  decode-keys :
      (ks : List SshKey)
      → length ks < 2 ^ 32
      → All Short (rows to_lowercase ks)
      → decode_identities
          (identities_answer ∷ (u32_bytes (length ks) ++ put_identities to_lowercase ks))
        ≡ ok (rows to_lowercase ks)
  decode-keys ks n short =
      rw (put_identities-rows ks)
        (decode-rows (rows to_lowercase ks) (length ks) n (length-rows ks) short)

  -- A client reads exactly the visible keys, in their order, from the answer: no key while the agent
  -- is locked, and else the enabled keys, each with its comment or the standing text. The number of
  -- keys and the lengths of their blobs and comments are taken to be below 2^32.
  pub decode-identities :
      (r : RuntimeState)
      → length (visible_keys r) < 2 ^ 32
      → All Short (rows to_lowercase (visible_keys r))
      → decode_identities (identities to_lowercase r) ≡ ok (rows to_lowercase (visible_keys r))
  unfolding identities
  decode-identities r n short = elim (Bool-cases r.app.agent_locked) [
    | inl locked ↦ rw locked (unfold u32_bytes in decode-rows [] 0 (omega arith) refl tt)
    | inr unlocked ↦
        rw unlocked
          (decode-keys (offered_keys to_lowercase r) (rw unlocked at n) (rw unlocked at short))
  ]
