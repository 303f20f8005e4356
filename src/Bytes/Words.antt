-- ===== src/Bytes/Words.antt =====
-- Node's big-endian and little-endian integers as lists of bytes (the Buffer methods that
-- src/protocol/bytes.ts calls).
use open_rfc.Common.{
  All, ℤ, ltb, if◌then◌else◌, pos, negsuc, ℕ, ◌+◌, ◌-◌, ◌*◌, ◌/◌, ◌%◌, ◌^◌, ◌<◌, ◌≡◌, refl, List,
  [], ◌∷◌, ◌++◌, arith,
}

abbrev pub IsByte : ℕ → Type 0
IsByte b = b < 256

-- `value = value * 256 + byte` over the bytes.
abbrev pub be_from : ℕ → List ℕ → ℕ
be_from acc [] = acc
be_from acc (b ∷ bs) = be_from (acc * 256 + b) bs

abbrev pub be_value : List ℕ → ℕ
be_value bs = be_from 0 bs

abbrev pub le_value : List ℕ → ℕ
le_value [] = 0
le_value (b ∷ bs) = b + 256 * le_value bs

abbrev pub be16 : ℕ → List ℕ
be16 n = n / 256 ∷ n % 256 ∷ []

abbrev pub be32 : ℕ → List ℕ
be32 n = n / 2 ^ 24 ∷ n / 2 ^ 16 % 256 ∷ n / 256 % 256 ∷ n % 256 ∷ []

-- The two's complement reading of a 32-bit pattern, and back.
abbrev pub signed32 : ℕ → ℤ
signed32 w = if ltb w (2 ^ 31) then pos w else negsuc (2 ^ 32 - w - 1)

abbrev pub pattern32 : ℤ → ℕ
pattern32 (pos n) = n
pattern32 (negsuc n) = 2 ^ 32 - (n + 1)

pub signed32_small : (w : ℕ) → w < 2 ^ 31 → signed32 w ≡ pos w
signed32_small w h = ground arith

pub be_value-be16 : (n : ℕ) → be_value (be16 n) ≡ n
be_value-be16 n = omega arith

pub be_value-be32 : (n : ℕ) → be_value (be32 n) ≡ n
be_value-be32 n = omega arith

pub be16-IsByte : (n : ℕ) → n < 2 ^ 16 → All IsByte (be16 n)
be16-IsByte n h = omega arith

pub be32-IsByte : (n : ℕ) → n < 2 ^ 32 → All IsByte (be32 n)
be32-IsByte n h = omega arith

pub be_from-append : (v : ℕ) (xs ys : List ℕ) → be_from v (xs ++ ys) ≡ be_from (be_from v xs) ys
be_from-append v [] ys = refl
be_from-append v (x ∷ xs) ys = be_from-append (v * 256 + x) xs ys
