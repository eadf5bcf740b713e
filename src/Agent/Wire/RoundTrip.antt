-- ===== src/Agent/Wire/RoundTrip.antt =====
-- What the reader of src-tauri/src/agent/server.rs does on what `put_string` and `write_message`
-- wrote.
use keynoxis.Base.{
  get_elem?, ℕ, ◌+◌, ◌-◌, ◌≤◌, ◌<◌, ◌^◌, List, [], ◌∷◌, ◌++◌, some, ◌≡◌, refl, sym, ap, arith, ok,
  Bytes, length, take, drop, length-append, take-append, drop-append, append_assoc,
}
use keynoxis.Agent.Wire.{
  u32_bytes, u32_of_bytes, put_string, get_range, Reader, read_u32, read_string, read_byte,
  read_exact, read_body, read_message, write_message, max_message,
}

pub u32_of_bytes-u32_bytes : (n : ℕ) → n < 2 ^ 32 → u32_of_bytes (u32_bytes n) ≡ ok n
unfolding u32_of_bytes u32_bytes
u32_of_bytes-u32_bytes n h = ground arith

pub length-u32_bytes : (n : ℕ) → length (u32_bytes n) ≡ 4
unfolding u32_bytes
length-u32_bytes n = refl

drop_past : {A : Type 0} (xs ys : List A) → drop (length xs) (xs ++ ys) ≡ ys
drop_past xs ys = drop-append xs ys

pub get_range-append :
    (pre mid rest : Bytes) (n : ℕ)
    → n ≡ length mid
    → get_range (pre ++ (mid ++ rest)) (length pre) (length pre + n) ≡ some mid
unfolding get_range
get_range-append pre mid rest n e = ground (
  arith,
  length-append pre (mid ++ rest),
  length-append mid rest,
  drop-append pre (mid ++ rest),
  take-append mid rest,
  ap (λ k. take k (mid ++ rest)) (gap (length pre) n (length mid) e),
)
  where
    gap : (a n m : ℕ) → n ≡ m → a + n - a ≡ m
    gap a n m e = omega arith

-- The reader that stands behind `pre`.
abbrev pub reader_at : Bytes → Bytes → Reader
reader_at pre rest = record { value = pre ++ rest; at = length pre }

pub read_u32-u32_bytes :
    (pre rest : Bytes) (n : ℕ)
    → n < 2 ^ 32
    → read_u32 (reader_at pre (u32_bytes n ++ rest))
      ≡ ok (n, record { value = pre ++ (u32_bytes n ++ rest); at = length pre + 4 })
unfolding read_u32
read_u32-u32_bytes pre rest n h =
    rw (get_range-append pre (u32_bytes n) rest 4 (sym (length-u32_bytes n)))
      (rw (u32_of_bytes-u32_bytes n h) refl)

-- Behind `pre`, `Reader::string` takes exactly what `put_string` wrote of fewer than 2^32 bytes,
-- and stands behind it.
pub read_string-put_string :
    (pre s rest : Bytes)
    → length s < 2 ^ 32
    → read_string (reader_at pre (put_string s ++ rest))
      ≡ ok (s, record { value = pre ++ (put_string s ++ rest); at = length (pre ++ put_string s) })
unfolding read_string put_string
read_string-put_string pre s rest h =
    let u = u32_bytes (length s) in
    rw (append_assoc u s rest) (
      rw (read_u32-u32_bytes pre (s ++ rest) (length s) h) (
        rw
          (
            range pre u s rest (length-u32_bytes (length s)),
            length-append pre (u ++ s),
            length-append u s,
            length-u32_bytes (length s),
          )
          (ap (λ k. ok (s, record { value = pre ++ (u ++ (s ++ rest)); at = k })) (omega arith))))
  where
    range :
        (pre u s rest : Bytes)
        → length u ≡ 4
        → get_range (pre ++ (u ++ (s ++ rest))) (length pre + 4) (length pre + 4 + length s)
          ≡ some s
    range pre u s rest e =
        rw (← append_assoc pre u (s ++ rest)) (
          rw (← e)
            (rw (← length-append pre u) (get_range-append (pre ++ u) s rest (length s) refl)))

pub get_elem?-append :
    (pre rest : Bytes) (b : ℕ) → get_elem? (pre ++ b ∷ rest) (length pre) ≡ some b
get_elem?-append [] rest b = refl
get_elem?-append (x ∷ pre) rest b = get_elem?-append pre rest b

-- `Reader::byte` takes the next byte.
pub read_byte-append :
    (pre rest : Bytes) (b : ℕ)
    → read_byte (reader_at pre (b ∷ rest))
      ≡ ok (b, record { value = pre ++ b ∷ rest; at = length pre + 1 })
unfolding read_byte
read_byte-append pre rest b = rw (get_elem?-append pre rest b) refl

pub read_exact-append :
    (head rest : Bytes) (n : ℕ) → n ≡ length head → read_exact n (head ++ rest) ≡ some (head, rest)
unfolding read_exact
read_exact-append head rest n e = ground (
  arith,
  length-append head rest,
  drop-append head rest,
  take-append head rest,
  ap (λ k. take k (head ++ rest)) e,
  ap (λ k. drop k (head ++ rest)) e,
)

read_body-append :
    (m rest : Bytes)
    → 0 < length m
    → length m ≤ max_message
    → read_body (length m) (m ++ rest) ≡ ok (some (m, rest))
unfolding read_body
read_body-append m rest lo hi = ground (arith, read_exact-append m rest (length m) refl)

-- A message of 1 to 1048576 bytes that `write_message` wrote is what `read_message` gives back, and
-- the bytes behind it stay on the stream.
pub read_message-write_message :
    (m rest : Bytes)
    → 0 < length m
    → length m ≤ max_message
    → read_message (write_message m ++ rest) ≡ ok (some (m, rest))
unfolding read_message write_message
read_message-write_message m rest lo hi =
    let u = u32_bytes (length m) in
    rw (append_assoc u m rest) (
      rw (read_exact-append u (m ++ rest) 4 (sym (length-u32_bytes (length m))), read_message)
        (rw (u32_of_bytes-u32_bytes (length m) (omega arith)) (read_body-append m rest lo hi)))
