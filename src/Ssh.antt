-- ===== src/Ssh.antt =====
-- src-tauri/src/ssh.rs: from a DER signature to the two integers of an SSH signature. A byte is a
-- number below 256; `b & 0x80 == 0` is read as `b / 128 % 2 == 0`, `b & 0x7f` as `b % 128`, and
-- `length << 8 | byte` as `length * 256 + byte`.
pub mod Mpint
pub mod Der
use keynoxis.Base.{
  ℕ, zero, suc, ◌+◌, ◌-◌, ◌*◌, ◌/◌, ◌%◌, ◌^◌, Bool, true, false, not, ◌&&◌, ◌||◌, List, [], ◌∷◌,
  ◌++◌, Option, none, some, String, if◌then◌else◌, leb, ltb, Result, ok, err, ok_or, Bytes, length,
  get_elem?, ◌==◌, Nat_eq, as_bytes, first, option_map, unwrap_or,
}
use keynoxis.Agent.Wire.{get_range, u32_bytes, put_string}

abbrev pub ecdsa_p256 : String
ecdsa_p256 = "ecdsa-sha2-nistp256"

infixl 5 ◌>>=◌
abbrev ◌>>=◌ : {A B : Type 0} → Result A → (A → Result B) → Result B
ok a >>= f = f a
err e >>= f = err e

unfoldable pub ecdsa_public_blob : Bytes → Result Bytes
ecdsa_public_blob point =
    if not (length point == 65) || not (unwrap_or (get_elem? point 0) 0 == 4)
    then err "Secure Enclave returned an invalid P-256 public key"
    else ok
        (put_string (as_bytes ecdsa_p256) ++ (put_string (as_bytes "nistp256") ++ put_string point))

-- The new position.
unfoldable pub expect_tag : Bytes → ℕ → ℕ → Result ℕ
expect_tag value at expected = elim (get_elem? value at) [
  | none ↦ err "Invalid DER ECDSA signature"
  | some b ↦ if b == expected then ok (at + 1) else err "Invalid DER ECDSA signature"
]

-- `for byte in …`: the big-endian number behind `acc`.
unfoldable pub be_number : ℕ → Bytes → ℕ
be_number acc [] = acc
be_number acc (b ∷ bs) = be_number (acc * 256 + b) bs

-- The bytes of a length in the long form; the source has checked that they are there.
unfoldable pub long_len : Bytes → ℕ → ℕ → Result (ℕ × ℕ)
long_len value at count =
    if count == 0 || ltb 2 count || ltb (length value) (at + count)
    then err "Invalid DER signature length"
    else ok (be_number 0 (unwrap_or (get_range value at (at + count)) []), at + count)

-- A length and the position behind it.
unfoldable pub read_der_len : Bytes → ℕ → Result (ℕ × ℕ)
read_der_len value at = do
  head ← ok_or (get_elem? value at) "Truncated DER signature"
  if head / 128 % 2 == 0 then ok (head, at + 1) else long_len value (at + 1) (head % 128)

abbrev pub is_zero : ℕ → Bool
is_zero b = b == 0

abbrev pub strip_zeros : Bytes → Bytes
strip_zeros [] = []
strip_zeros (b ∷ bs) = if is_zero b then strip_zeros bs else b ∷ bs

abbrev pub needs_zero : Bytes → Bool
needs_zero [] = false
needs_zero (b ∷ bs) = not (b / 128 % 2 == 0)

-- The content of the integer that `put_mpint` appends.
unfoldable pub mpint_content : Bytes → Bytes
mpint_content value =
    let stripped = strip_zeros value in if needs_zero stripped then 0 ∷ stripped else stripped

unfoldable pub put_mpint : Bytes → Bytes
put_mpint value = u32_bytes (length (mpint_content value)) ++ mpint_content value

-- An INTEGER: its content and the position behind it.
unfoldable pub read_integer : Bytes → ℕ → String → Result (Bytes × ℕ)
read_integer der at message = do
  at ← expect_tag der at 0x02
  (n, at) ← read_der_len der at
  value ← ok_or (get_range der at (at + n)) message
  ok (value, at + n)

-- The two integers behind the head of the sequence.
unfoldable pub read_integers : Bytes → ℕ → Result Bytes
read_integers der at = do
  (r, at) ← read_integer der at "Invalid ECDSA r value"
  (s, at) ← read_integer der at "Invalid ECDSA s value"
  ok (put_mpint r ++ put_mpint s)

unfoldable pub der_ecdsa_to_ssh : Bytes → Result Bytes
der_ecdsa_to_ssh der = do
  at ← expect_tag der 0 0x30
  (n, at) ← read_der_len der at
  if not (at + n == length der)
      then err "Invalid ECDSA signature sequence"
      else read_integers der at
