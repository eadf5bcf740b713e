-- ===== src/Ssh/Der.antt =====
-- `der_ecdsa_to_ssh` (src-tauri/src/ssh.rs) on the DER encoding of two integers.
use keynoxis.Base.{
  ℕ, ◌+◌, ◌/◌, ◌%◌, ◌<◌, ◌≤◌, [], ◌∷◌, ◌++◌, ◌≡◌, refl, sym, ap, ◌∙◌, arith, Bytes, Nat_eq, length,
  length-append, if◌then◌else◌, ok, ltb, some, append_assoc, append-nil, String, subst,
}
use keynoxis.Agent.Wire.{get_range}
use keynoxis.Agent.Wire.RoundTrip.{get_range-append, get_elem?-append}
use keynoxis.Ssh.{
  be_number, expect_tag, long_len, read_der_len, read_integer, read_integers, put_mpint,
  der_ecdsa_to_ssh,
}

-- The definite lengths below 2^16, in the shortest form.
abbrev pub der_len : ℕ → Bytes
der_len n =
    if ltb n 128
    then n ∷ []
    else if ltb n 256
    then 0x81 ∷ n ∷ []
    else 0x82 ∷ (n / 256) ∷ (n % 256) ∷ []

abbrev pub der_integer : Bytes → Bytes
der_integer v = 0x02 ∷ (der_len (length v) ++ v)

abbrev pub der_signature : Bytes → Bytes → Bytes
der_signature r s =
    0x30 ∷ (der_len (length (der_integer r ++ der_integer s)) ++ (der_integer r ++ der_integer s))

expect_tag-append :
    (pre rest : Bytes) (t : ℕ) → expect_tag (pre ++ t ∷ rest) (length pre) t ≡ ok (length pre + 1)
unfolding expect_tag
expect_tag-append pre rest t = rw (get_elem?-append pre rest t, expect_tag) (ground arith)

get_range-cons :
    (pre mid rest : Bytes) (b n : ℕ)
    → n ≡ length mid
    → get_range (pre ++ b ∷ (mid ++ rest)) (length pre + 1) (length pre + 1 + n) ≡ some mid
get_range-cons pre mid rest b n e =
    subst (λ v. get_range v (length pre + 1) (length pre + 1 + n) ≡ some mid)
      (append_assoc pre (b ∷ []) (mid ++ rest))
      (subst (λ k. get_range ((pre ++ b ∷ []) ++ (mid ++ rest)) k (k + n) ≡ some mid)
        (length-append pre (b ∷ [])) (get_range-append (pre ++ b ∷ []) mid rest n e))

-- The bytes of the long form, behind `pre` and the first byte.
long_len-append :
    (pre ds rest : Bytes) (b count : ℕ)
    → count ≡ length ds
    → 0 < count
    → count ≤ 2
    → long_len (pre ++ b ∷ (ds ++ rest)) (length pre + 1) count
      ≡ ok (be_number 0 ds, length pre + 1 + count)
unfolding long_len
long_len-append pre ds rest b count e lo hi = ground (
  arith,
  get_range-cons pre ds rest b count e,
  length-append pre (b ∷ (ds ++ rest)),
  length-append ds rest,
)

read_der_len-append :
    (pre rest : Bytes) (n : ℕ)
    → n < 65536
    → read_der_len (pre ++ (der_len n ++ rest)) (length pre)
      ≡ ok (n, length pre + length (der_len n))
unfolding read_der_len be_number
read_der_len-append pre rest n h = ground (
  arith,
  get_elem?-append pre rest n,
  get_elem?-append pre (n ∷ rest) 0x81,
  get_elem?-append pre ((n / 256) ∷ (n % 256) ∷ rest) 0x82,
  long_len-append pre (n ∷ []) rest 0x81 1 refl,
  long_len-append pre ((n / 256) ∷ (n % 256) ∷ []) rest 0x82 2 refl,
)

-- An integer whose length is written as `l`, behind `pre`.
read_integer_parts :
    (pre l v rest : Bytes) (message : String)
    → ((p q : Bytes) → read_der_len (p ++ (l ++ q)) (length p) ≡ ok (length v, length p + length l))
    → read_integer (pre ++ 0x02 ∷ (l ++ (v ++ rest))) (length pre) message
      ≡ ok (v, length pre + 1 + length l + length v)
unfolding read_integer
read_integer_parts pre l v rest message read = rw (expect_tag-append pre (l ++ (v ++ rest)) 0x02) (
    rw
      (subst (λ w. read_der_len w (length pre + 1) ≡ ok (length v, length pre + 1 + length l))
        (append_assoc pre (0x02 ∷ []) (l ++ (v ++ rest)))
        (subst
          (λ k.
            read_der_len ((pre ++ 0x02 ∷ []) ++ (l ++ (v ++ rest))) k ≡ ok (length v, k + length l))
          (length-append pre (0x02 ∷ [])) (read (pre ++ 0x02 ∷ []) (v ++ rest))))
      (rw range refl))
  where
    range :
        get_range
          (pre ++ 0x02 ∷ (l ++ (v ++ rest)))
          (length pre + 1 + length l)
          (length pre + 1 + length l + length v)
        ≡ some v
    range =
        subst
          (λ w.
            get_range w (length pre + 1 + length l) (length pre + 1 + length l + length v) ≡ some v)
          (append_assoc pre (0x02 ∷ l) (v ++ rest))
          (subst (λ k. get_range ((pre ++ 0x02 ∷ l) ++ (v ++ rest)) k (k + length v) ≡ some v)
            (length_behind pre l) (get_range-append (pre ++ 0x02 ∷ l) v rest (length v) refl))
      where
        length_behind : (pre l : Bytes) → length (pre ++ 0x02 ∷ l) ≡ length pre + 1 + length l
        length_behind pre l = omega (arith, length-append pre (0x02 ∷ l))

read_integer-append :
    (pre v rest : Bytes) (message : String)
    → length v < 65536
    → read_integer (pre ++ (der_integer v ++ rest)) (length pre) message
      ≡ ok (v, length (pre ++ der_integer v))
read_integer-append pre v rest message h =
    subst
      (λ w.
        read_integer (pre ++ 0x02 ∷ w) (length pre) message ≡ ok (v, length (pre ++ der_integer v)))
      (sym (append_assoc (der_len (length v)) v rest))
      (read_integer_parts pre (der_len (length v)) v rest message
          (λ p q. read_der_len-append p q (length v) h)
        ∙ ap (λ k. ok (v, k)) (ends (der_len (length v))))
  where
    ends : (l : Bytes) → length pre + 1 + length l + length v ≡ length (pre ++ 0x02 ∷ (l ++ v))
    ends l = omega (arith, length-append pre (0x02 ∷ (l ++ v)), length-append l v)

read_integers-append :
    (pre r s : Bytes)
    → length r < 65536
    → length s < 65536
    → read_integers (pre ++ (der_integer r ++ der_integer s)) (length pre)
      ≡ ok (put_mpint r ++ put_mpint s)
unfolding read_integers
read_integers-append pre r s hr hs =
    rw (read_integer-append pre r (der_integer s) "Invalid ECDSA r value" hr) (rw second refl)
  where
    second :
        read_integer
          (pre ++ (der_integer r ++ der_integer s))
          (length (pre ++ der_integer r))
          "Invalid ECDSA s value"
        ≡ ok (s, length ((pre ++ der_integer r) ++ der_integer s))
    second =
        subst
          (λ w.
            read_integer w (length (pre ++ der_integer r)) "Invalid ECDSA s value"
            ≡ ok (s, length ((pre ++ der_integer r) ++ der_integer s)))
          (ap (λ t. (pre ++ der_integer r) ++ t) (append-nil (der_integer s))
            ∙ append_assoc pre (der_integer r) (der_integer s))
          (read_integer-append (pre ++ der_integer r) s [] "Invalid ECDSA s value" hs)

sequence-append :
    (l body : Bytes)
    → ((p q : Bytes)
        → read_der_len (p ++ (l ++ q)) (length p) ≡ ok (length body, length p + length l))
    → der_ecdsa_to_ssh (0x30 ∷ (l ++ body)) ≡ read_integers (0x30 ∷ (l ++ body)) (length (0x30 ∷ l))
unfolding der_ecdsa_to_ssh
sequence-append l body read =
    rw (expect_tag-append [] (l ++ body) 0x30)
      (rw (read (0x30 ∷ []) body) (ground (arith, length-append l body, total l)))
  where
    total : (l : Bytes) → 1 + length l ≡ length (0x30 ∷ l)
    total l = omega arith

-- The DER encoding of any two integers, in a sequence of less than 2^16 bytes, becomes the two
-- integers as `put_mpint` writes them.
pub der_ecdsa_to_ssh-der_signature :
    (r s : Bytes)
    → length (der_integer r ++ der_integer s) < 65536
    → der_ecdsa_to_ssh (der_signature r s) ≡ ok (put_mpint r ++ put_mpint s)
der_ecdsa_to_ssh-der_signature r s h =
    let body = der_integer r ++ der_integer s in
    let l = der_len (length body) in
    sequence-append l body (λ p q. read_der_len-append p q (length body) h)
    ∙ read_integers-append (0x30 ∷ l) r s (left (der_len (length r)) (der_len (length s)) h)
        (right (der_len (length r)) (der_len (length s)) h)
  where
    left :
        (a b : Bytes) → length ((0x02 ∷ (a ++ r)) ++ (0x02 ∷ (b ++ s))) < 65536 → length r < 65536
    left a b h = omega (arith, length-append (0x02 ∷ (a ++ r)) (0x02 ∷ (b ++ s)), length-append a r)

    right :
        (a b : Bytes) → length ((0x02 ∷ (a ++ r)) ++ (0x02 ∷ (b ++ s))) < 65536 → length s < 65536
    right a b h =
        omega (arith, length-append (0x02 ∷ (a ++ r)) (0x02 ∷ (b ++ s)), length-append b s)
