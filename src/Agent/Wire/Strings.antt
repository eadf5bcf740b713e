-- ===== src/Agent/Wire/Strings.antt =====
-- Rows of strings: what a client reads of them.
use keynoxis.Base.{
  ℕ, zero, suc, ◌<◌, ◌^◌, List, [], ◌∷◌, ◌++◌, ◌≡◌, sym, ap, ◌∙◌, Result, ok, err, Bytes, length,
  All, append_assoc, subst, append-nil,
}
use keynoxis.Agent.Wire.{put_string, Reader, read_string}
use keynoxis.Agent.Wire.RoundTrip.{read_string-put_string}

abbrev pub put_strings : List Bytes → Bytes
put_strings [] = []
put_strings (s ∷ ss) = put_string s ++ put_strings ss

abbrev pub cons_read : Bytes → Result (List Bytes × Reader) → Result (List Bytes × Reader)
cons_read s (ok (ss, r)) = ok (s ∷ ss, r)
cons_read s (err e) = err e

-- The next `n` strings.
abbrev pub read_strings : ℕ → Reader → Result (List Bytes × Reader)
read_strings zero r = ok ([], r)
read_strings (suc n) r = elim (read_string r) [
  | ok (s, r') ↦ cons_read s (read_strings n r')
  | err e ↦ err e
]

abbrev pub Short : Bytes → Type 0
Short s = length s < 2 ^ 32

-- Behind `pre`, a reader takes exactly the strings that were written, and stands behind them.
pub read_strings-put_strings :
    (pre rest : Bytes) (ss : List Bytes)
    → All Short ss
    → read_strings (length ss) (record { value = pre ++ (put_strings ss ++ rest); at = length pre })
      ≡ ok (
        ss,
        record { value = pre ++ (put_strings ss ++ rest); at = length (pre ++ put_strings ss) },
      )
read_strings-put_strings pre rest [] h =
    ap (λ k. ok ([], record { value = pre ++ rest; at = length k })) (sym (append-nil pre))
read_strings-put_strings pre rest (s ∷ ss) h =
    subst
      (λ w.
        read_strings (suc (length ss)) (record { value = pre ++ w; at = length pre })
        ≡ ok (
          s ∷ ss,
          record { value = pre ++ w; at = length (pre ++ (put_string s ++ put_strings ss)) },
        ))
      (sym (append_assoc (put_string s) (put_strings ss) rest))
      (rw (read_string-put_string pre s (put_strings ss ++ rest) h.0, read_strings)
        (ap (cons_read s) (behind (read_strings-put_strings (pre ++ put_string s) rest ss h.1))))
  where
    behind :
        read_strings (length ss) (record {
          value = (pre ++ put_string s) ++ (put_strings ss ++ rest);
          at = length (pre ++ put_string s);
        })
          ≡ ok (
            ss,
            record {
              value = (pre ++ put_string s) ++ (put_strings ss ++ rest);
              at = length ((pre ++ put_string s) ++ put_strings ss);
            },
          )
        → read_strings (length ss) (record {
          value = pre ++ (put_string s ++ (put_strings ss ++ rest));
          at = length (pre ++ put_string s);
        })
          ≡ ok (
            ss,
            record {
              value = pre ++ (put_string s ++ (put_strings ss ++ rest));
              at = length (pre ++ (put_string s ++ put_strings ss));
            },
          )
    behind ih =
        subst
          (λ w.
            read_strings (length ss) (record { value = w; at = length (pre ++ put_string s) })
            ≡ ok (ss, record { value = w; at = length (pre ++ (put_string s ++ put_strings ss)) }))
          (append_assoc pre (put_string s) (put_strings ss ++ rest))
          (ih
            ∙ ap
                (λ k. ok (
                  ss,
                  record {
                    value = (pre ++ put_string s) ++ (put_strings ss ++ rest);
                    at = length k;
                  },
                ))
                (append_assoc pre (put_string s) (put_strings ss)))
