-- ===== src/Scramble.antt =====
-- src/protocol/password-scramble.ts: the scrambling of a logon password.
-- A password is the list of its code units. The seed is a parameter, as the random source of an absent
-- one is node:crypto's.
pub mod Bits
pub mod Keyed
mod Tests
use open_rfc.Common.{
  length, get_elem?, Number, natural_in, Result, ◌>>=◌, ◌>>◌, guard, or_throw, JsError, ltb, leb,
  ok, range_error, ℕ, zero, suc, ◌+◌, ◌-◌, ◌*◌, ◌/◌, ◌%◌, ◌^◌, ◌&&◌, not, none, some, List, [], ◌∷◌,
  ◌++◌,
}
use open_rfc.SapRouter.Route.{all_of}

-- `a ^ b` on numbers below 2 ^ w, bit by bit.
abbrev pub xor : ℕ → ℕ → ℕ → ℕ
xor zero a b = 0
xor (suc w) a b = (a % 2 + b % 2) % 2 + 2 * xor w (a / 2) (b / 2)

abbrev pub password_scramble_table : List ℕ
password_scramble_table =
    0xf0 ∷ 0xed ∷ 0x53 ∷ 0xb8 ∷ 0x32 ∷ 0x44 ∷ 0xf1 ∷ 0xf8 ∷ 0x76 ∷ 0xc6 ∷ 0x79 ∷ 0x59 ∷ 0xfd ∷ 0x4f
    ∷ 0x13 ∷ 0xa2 ∷ 0xc1 ∷ 0x51 ∷ 0x95 ∷ 0xec ∷ 0x54 ∷ 0x83 ∷ 0xc2 ∷ 0x34 ∷ 0x77 ∷ 0x49 ∷ 0x43
    ∷ 0xa2 ∷ 0x7d ∷ 0xe2 ∷ 0x65 ∷ 0x96 ∷ 0x5e ∷ 0x53 ∷ 0x98 ∷ 0x78 ∷ 0x9a ∷ 0x17 ∷ 0xa3 ∷ 0x3c
    ∷ 0xd3 ∷ 0x83 ∷ 0xa8 ∷ 0xb8 ∷ 0x29 ∷ 0xfb ∷ 0xdc ∷ 0xa5 ∷ 0x55 ∷ 0xd7 ∷ 0x02 ∷ 0x77 ∷ 0x84
    ∷ 0x13 ∷ 0xac ∷ 0xdd ∷ 0xf9 ∷ 0xb8 ∷ 0x31 ∷ 0x16 ∷ 0x61 ∷ 0x0e ∷ 0x6d ∷ 0xfa ∷ []

abbrev pub table_at : ℕ → ℕ
table_at i = elim (get_elem? password_scramble_table (i % 64)) [ none ↦ 0 | some v ↦ v ]

-- `((seed ^ (seed >>> 5)) ^ (seed << 1)) >>> 0`, on 32 bits.
abbrev pub start_index : ℕ → ℕ
start_index seed = xor 32 (xor 32 seed (seed / 2 ^ 5)) (seed * 2 % 2 ^ 32)

-- `(seed * index * index - index) & 0xff`, whose value is negative where the seed is 0.
abbrev pub seed_term : ℕ → ℕ → ℕ
seed_term seed index = (seed * index * index + (256 - index % 256)) % 256

-- The loop over the characters, from the index on.
abbrev pub scramble_loop : ℕ → ℕ → List ℕ → List ℕ
scramble_loop seed index [] = []
scramble_loop seed index (c ∷ cs) =
    xor 8 (xor 8 c (table_at (start_index seed + index))) (seed_term seed index)
    ∷ scramble_loop seed (suc index) cs

abbrev pub le32 : ℕ → List ℕ
le32 n = n % 256 ∷ n / 256 % 256 ∷ n / 2 ^ 16 % 256 ∷ n / 2 ^ 24 ∷ []

-- `scrambleRfcPassword`.
unfoldable pub scramble_rfc_password : List ℕ → Number → Result JsError (List ℕ)
scramble_rfc_password password seed = do
  guard (not (ltb 40 (length password))) range_error
  guard (all_of (λ c. leb 0x20 c && leb c 0x7e) password) range_error
  actual_seed ← or_throw (natural_in seed 0 0xffff_ffff) range_error
  ok (le32 actual_seed ++ scramble_loop actual_seed 0 password)
