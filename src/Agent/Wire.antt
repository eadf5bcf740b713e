-- ===== src/Agent/Wire.antt =====
-- src-tauri/src/agent/server.rs: the wire format. `put_string`, `Reader`, `read_message` and
-- `write_message`. A position never overflows, since a message has at most 2^20 bytes.
pub mod RoundTrip
pub mod Strings
use keynoxis.Base.{
  ℕ, zero, suc, ◌+◌, ◌-◌, ◌*◌, ◌/◌, ◌%◌, ◌^◌, Bool, true, false, ◌&&◌, ◌||◌, List, [], ◌∷◌, ◌++◌,
  Option, none, some, if◌then◌else◌, leb, ltb, nat_eq, Result, ok, err, ok_or, Bytes, length, take,
  drop, get_elem?,
}

abbrev pub max_message : ℕ
max_message = 1048576

-- `(n as u32).to_be_bytes()`.
unfoldable pub u32_bytes : ℕ → Bytes
u32_bytes n = (n / 2 ^ 24 % 256) ∷ (n / 2 ^ 16 % 256) ∷ (n / 2 ^ 8 % 256) ∷ (n % 256) ∷ []

-- `u32::from_be_bytes`, of four bytes.
unfoldable pub u32_of_bytes : Bytes → Result ℕ
u32_of_bytes (a ∷ b ∷ c ∷ d ∷ []) = ok (a * 2 ^ 24 + b * 2 ^ 16 + c * 2 ^ 8 + d)
u32_of_bytes _ = err "Invalid SSH agent integer"

-- What `put_string` appends to its target.
unfoldable pub put_string : Bytes → Bytes
put_string value = u32_bytes (length value) ++ value

-- `value.get(from..to)`.
unfoldable pub get_range : Bytes → ℕ → ℕ → Option Bytes
get_range value from to =
    if leb from to && leb to (length value) then some (take (to - from) (drop from value)) else none

pub record Reader : Type 0 where
  pub value : Bytes
  pub at : ℕ

unfoldable pub new_reader : Bytes → Reader
new_reader value = record { value = value; at = 0 }

infixl 5 ◌>>=◌
abbrev pub ◌>>=◌ : {A B : Type 0} → Result A → (A → Result B) → Result B
ok a >>= f = f a
err e >>= f = err e

unfoldable pub read_u32 : Reader → Result (ℕ × Reader)
read_u32 r = do
  bytes ← ok_or (get_range r.value r.at (r.at + 4)) "Truncated SSH agent message"
  n ← u32_of_bytes bytes
  ok (n, record r { at = r.at + 4 })

unfoldable pub read_byte : Reader → Result (ℕ × Reader)
read_byte r = do
  b ← ok_or (get_elem? r.value r.at) "Truncated SSH agent message"
  ok (b, record r { at = r.at + 1 })

abbrev string_of_length : ℕ × Reader → Result (Bytes × Reader)
string_of_length (n, r) = do
  s ← ok_or (get_range r.value r.at (r.at + n)) "Truncated SSH agent string"
  ok (s, record r { at = r.at + n })

unfoldable pub read_string : Reader → Result (Bytes × Reader)
read_string r = read_u32 r >>= string_of_length

unfoldable pub at_end : Reader → Bool
at_end r = nat_eq r.at (length r.value)

-- The bytes that wait on a stream. `read_exact` of n bytes takes them, or finds the end; the
-- timeout and the other errors of the system are not modelled.
unfoldable pub read_exact : ℕ → Bytes → Option (Bytes × Bytes)
read_exact n stream = if leb n (length stream) then some (take n stream, drop n stream) else none

-- The second half of `read_message`, on the length and what follows it.
unfoldable pub read_body : ℕ → Bytes → Result (Option (Bytes × Bytes))
read_body n stream =
    if nat_eq n 0 || ltb max_message n
    then err "Invalid SSH agent message length"
    else elim (read_exact n stream) [
      | some m ↦ ok (some m)
      | none ↦ err "failed to fill whole buffer"
    ]

-- `none` at the end of the stream, else a request and the rest of the stream.
unfoldable pub read_message : Bytes → Result (Option (Bytes × Bytes))
read_message stream = elim (read_exact 4 stream) [
  | none ↦ ok none
  | some (head, rest) ↦ do n ← u32_of_bytes head; read_body n rest
]

-- The bytes that `write_message` writes.
unfoldable pub write_message : Bytes → Bytes
write_message response = u32_bytes (length response) ++ response
