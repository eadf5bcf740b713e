-- ===== src/Fido/Credentials/Blob.antt =====
-- The points of `ecdsa_point` (src-tauri/src/fido/credentials.rs).
use keynoxis.Base.{
  Bool-cases, inl, inr, ◌&&◌, Nat_eq, [], ◌∷◌, ◌≡◌, arith, ok, Bytes, length, ◌==◌, String_eq,
}
use keynoxis.Fido.Credentials.{ecdsa_point}

-- What `ecdsa_point` returns is 65 bytes that begin with the mark 4, whether the authenticator gave
-- the mark or not.
ecdsa_point-IsPoint :
    (v : Bytes) {p : Bytes}
    → ecdsa_point v ≡ ok p
    → (length p ≡ 65) × ((rest : Bytes) × (p ≡ 4 ∷ rest))
unfolding ecdsa_point
ecdsa_point-IsPoint [] h = ground arith
ecdsa_point-IsPoint (b ∷ v) {p} h = elim (Bool-cases (length (b ∷ v) == 65 && b == 4)) [
  | inl marked ↦ (ground arith, (v, ground arith))
  | inr bare ↦ (ground arith, (b ∷ v, ground arith))
]
