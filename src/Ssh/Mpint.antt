-- ===== src/Ssh/Mpint.antt =====
-- The integers of an SSH signature (`put_mpint` of src-tauri/src/ssh.rs): the same number, in the one
-- canonical form.
use keynoxis.Base.{
  ℕ, ◌<◌, ◌≤◌, [], ◌∷◌, ◌≡◌, refl, arith, Bytes, All, Nat_eq, ◌∙◌, if◌then◌else◌, ◌≢◌, ◌⊎◌,
}
use keynoxis.Ssh.{be_number, strip_zeros, needs_zero, mpint_content}

abbrev pub IsByte : ℕ → Type 0
IsByte b = b < 256

-- RFC 4251: the number is not negative, and no leading zero byte is more than needed.
abbrev pub IsCanonical : Bytes → Type 0
IsCanonical [] = Unit
IsCanonical (b ∷ []) = (0 < b) × (b < 128)
IsCanonical (b ∷ c ∷ bs) = (b < 128) × ((b ≢ 0) ⊎ (128 ≤ c))

strip_zeros-value : (v : Bytes) → be_number 0 (strip_zeros v) ≡ be_number 0 v
unfolding be_number
strip_zeros-value [] = refl
strip_zeros-value (b ∷ v) = ground (arith, strip_zeros-value v)

-- What is left begins with no zero byte.
abbrev StartsPositive : Bytes → Type 0
StartsPositive [] = Unit
StartsPositive (b ∷ v) = (0 < b) × (b < 256)

strip_zeros-StartsPositive : (v : Bytes) → All IsByte v → StartsPositive (strip_zeros v)
strip_zeros-StartsPositive [] h = tt
strip_zeros-StartsPositive (b ∷ v) h = ground (arith, strip_zeros-StartsPositive v)

padded-IsCanonical :
    (v : Bytes) → StartsPositive v → IsCanonical (if needs_zero v then 0 ∷ v else v)
padded-IsCanonical [] h = tt
padded-IsCanonical (b ∷ []) h = ground arith
padded-IsCanonical (b ∷ c ∷ v) h = ground arith

padded-value : (v : Bytes) → be_number 0 (if needs_zero v then 0 ∷ v else v) ≡ be_number 0 v
unfolding be_number
padded-value [] = refl
padded-value (b ∷ v) = ground arith

-- Of any bytes, `put_mpint` writes the same number in the canonical form of an integer that is not
-- negative: the first byte is below 128, a single byte is not 0, and a first byte 0 stands only
-- before a byte from 128 on.
mpint_content-IsCanonical :
    (v : Bytes)
    → All IsByte v
    → IsCanonical (mpint_content v) × (be_number 0 (mpint_content v) ≡ be_number 0 v)
unfolding mpint_content
mpint_content-IsCanonical v h = (
  padded-IsCanonical (strip_zeros v) (strip_zeros-StartsPositive v h),
  padded-value (strip_zeros v) ∙ strip_zeros-value v,
)
