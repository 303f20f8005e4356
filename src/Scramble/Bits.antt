-- ===== src/Scramble/Bits.antt =====
-- The scrambled password, bit by bit, without the exclusive or, the shifts and the table of the code.
use open_rfc.Scramble.{password_scramble_table, table_at, xor}
use open_rfc.Common.{
  get_elem?, ℕ, zero, suc, ◌+◌, ◌-◌, ◌*◌, ◌/◌, ◌%◌, ◌^◌, ◌<◌, ◌≡◌, refl, ap, ◌∙◌, none, some, List,
  [], ◌∷◌, arith,
}

-- The bit with the weight 2 ^ i.
abbrev pub bit : ℕ → ℕ → ℕ
bit zero n = n % 2
bit (suc i) n = bit i (n / 2)

pub bit-xor : (w i a b : ℕ) → i < w → bit i (xor w a b) ≡ (bit i a + bit i b) % 2
bit-xor zero i a b h = absurd (omega arith)
bit-xor (suc w) zero a b h = omega arith
bit-xor (suc w) (suc i) a b h =
    let half : ((a % 2 + b % 2) % 2 + 2 * xor w (a / 2) (b / 2)) / 2 ≡ xor w (a / 2) (b / 2) =
      omega arith in
    ap (bit i) half ∙ bit-xor w i (a / 2) (b / 2) (omega arith)

pub xor-lt : (w a b : ℕ) → xor w a b < 2 ^ w
xor-lt zero a b = omega arith
xor-lt (suc w) a b = omega (arith, xor-lt w (a / 2) (b / 2))

-- Adding 2 ^ w leaves the bits below it alone.
pub bit_above : (w i n : ℕ) → i < w → bit i (n + 2 ^ w) ≡ bit i n
bit_above zero i n h = absurd (omega arith)
bit_above (suc w) zero n h = omega arith
bit_above (suc w) (suc i) n h =
    let half : (n + 2 ^ suc w) / 2 ≡ n / 2 + 2 ^ w = omega arith in
    ap (bit i) half ∙ bit_above w i (n / 2) (omega arith)

pub bit_shifted : (i n : ℕ) → bit i (n / 2 ^ 5) ≡ bit (i + 5) n
bit_shifted i n =
    let five : suc (suc (suc (suc (suc i)))) ≡ i + 5 = omega arith in
    let halves : n / 2 ^ 5 ≡ n / 2 / 2 / 2 / 2 / 2 = omega arith in
    ap (bit i) halves ∙ ap (λ k. bit k n) five

-- The table of the code, as one number of 64 bytes.
abbrev pub table_number : ℕ
table_number =
    0xf0ed53b83244f1f876c67959fd4f13a2c15195ec5483c234774943a27de265965e5398789a17a33cd383a8b829fbdca555d702778413acddf9b83116610e6dfa

abbrev pub slot : ℕ → ℕ
slot k = table_number / 256 ^ (63 - k) % 256

-- The first `n` slots from `k` on.
abbrev slots : ℕ → ℕ → List ℕ
slots zero k = []
slots (suc n) k = slot k ∷ slots n (suc k)

password_scramble_table-slots : password_scramble_table ≡ slots 64 0
password_scramble_table-slots = refl

get_elem?-slots : (n k i : ℕ) → i < n → get_elem? (slots n k) i ≡ some (slot (k + i))
get_elem?-slots zero k i h = absurd (omega arith)
get_elem?-slots (suc n) k zero h = ap (λ m. some (slot m)) (omega arith)
get_elem?-slots (suc n) k (suc i) h =
    let next : suc k + i ≡ k + suc i = omega arith in
    get_elem?-slots n (suc k) i (omega arith) ∙ ap (λ m. some (slot m)) next

pub table_at-slot : (i : ℕ) → table_at i ≡ slot (i % 64)
table_at-slot i =
    let here : 0 + i % 64 ≡ i % 64 = omega arith in
    let read : get_elem? password_scramble_table (i % 64) ≡ some (slot (0 + i % 64)) =
      ap (λ t. get_elem? t (i % 64)) password_scramble_table-slots
      ∙ get_elem?-slots 64 0 (i % 64) (omega arith) in
    ap (λ o. elim o [ none ↦ 0 | some v ↦ v ]) read ∙ ap slot here

-- What holds of every number below `n`.
abbrev pub EachBelow : ℕ → (ℕ → Type 0) → Type 0
EachBelow zero P = Unit
EachBelow (suc n) P = P n × EachBelow n P

pub each_below : (n : ℕ) (P : ℕ → Type 0) → ((i : ℕ) → i < n → P i) → EachBelow n P
each_below zero P h = tt
each_below (suc n) P h = (h n (omega arith), each_below n P (λ i l. h i (omega arith)))

-- Each bit of the start is the sum, modulo 2, of three bits of the seed: the same one, the one five places
-- higher, and the one a place lower.
abbrev pub IsStart : ℕ → ℕ → Type 0
IsStart seed start =
    (start < 2 ^ 32)
    × EachBelow 32 (λ i. bit i start ≡ (bit i seed + bit (i + 5) seed + bit i (2 * seed)) % 2)

-- A byte of the field: each of its bits is the sum, modulo 2, of those of the character, of the slot and
-- of the term; the term is the seed times the square of the position, less the position, modulo 256.
pub record IsKeyed (seed start position character byte : ℕ) : Type 0 where
  pub term : ℕ
  pub term_range : term < 256
  pub term_value : (term + position) % 256 ≡ seed * position * position % 256
  pub byte_range : byte < 256
  pub byte_bits : EachBelow 8 (λ i.
      bit i byte ≡ (bit i character + bit i (slot ((start + position) % 64)) + bit i term) % 2)
