-- ===== src/Scramble/Keyed.antt =====
-- The scrambling of a password meets its description by bits.
use native.Mathlib.Decide.{dec_lt}
use open_rfc.Bytes.Words.{le_value}
use open_rfc.SapRouter.Route.{all_of}
use open_rfc.Scramble.{
  le32, scramble_rfc_password, start_index, table_at, seed_term, scramble_loop, xor,
}
use open_rfc.Scramble.Bits.{
  each_below, bit, slot, IsStart, IsKeyed, table_at-slot, bit-xor, xor-lt, bit_shifted, bit_above,
}
use open_rfc.Common.{
  length, get_elem?, take, natural, natural_in_range, leb, le→ltb, ok, ℕ, zero, suc, ◌+◌, ◌-◌, ◌*◌,
  ◌/◌, ◌%◌, ◌^◌, ◌≤◌, ◌<◌, ◌≡◌, refl, sym, ap, ap₂, ◌∙◌, true, ◌&&◌, some, List, [], ◌∷◌, ◌++◌,
  arith,
}

-- The bits below the word's width of the seed that is shifted up.
bit_doubled : (i seed : ℕ) → i < 32 → seed < 2 ^ 32 → bit i (seed * 2 % 2 ^ 32) ≡ bit i (2 * seed)
bit_doubled i seed h s = elim (dec_lt seed (2 ^ 31)) [
  | yes small ↦ ap (bit i) (omega arith)
  | no large ↦
      let low = seed * 2 - 2 ^ 32 in
      let e : seed * 2 % 2 ^ 32 ≡ low = omega arith in
      let f : low + 2 ^ 32 ≡ 2 * seed = omega arith in
      ap (bit i) e ∙ (sym (bit_above 32 i low h) ∙ ap (bit i) f)
]

parity : (a b c : ℕ) → ((a + b) % 2 + c) % 2 ≡ (a + b + c) % 2
parity a b c = omega arith

start_index-IsStart : (seed : ℕ) → seed < 2 ^ 32 → IsStart seed (start_index seed)
start_index-IsStart seed s = (
  xor-lt 32 (xor 32 seed (seed / 2 ^ 5)) (seed * 2 % 2 ^ 32),
  each_below 32 _ λ i h.
      bit-xor 32 i (xor 32 seed (seed / 2 ^ 5)) (seed * 2 % 2 ^ 32) h
      ∙ (ap₂ (λ x y. (x + y) % 2)
            (bit-xor 32 i seed (seed / 2 ^ 5) h
              ∙ ap (λ x. (bit i seed + x) % 2) (bit_shifted i seed))
            (bit_doubled i seed h s)
          ∙ parity (bit i seed) (bit (i + 5) seed) (bit i (2 * seed))),
)

scrambled-IsKeyed :
    (seed index c : ℕ)
    → IsKeyed seed
        (start_index seed)
        index
        c
        (xor 8 (xor 8 c (table_at (start_index seed + index))) (seed_term seed index))
scrambled-IsKeyed seed index c =
    let key = table_at (start_index seed + index) in
    record {
      term = seed_term seed index;
      term_range = omega arith;
      term_value = omega arith;
      byte_range = xor-lt 8 (xor 8 c key) (seed_term seed index);
      byte_bits = each_below 8 _ λ i h.
          bit-xor 8 i (xor 8 c key) (seed_term seed index) h
          ∙ (ap (λ x. (x + bit i (seed_term seed index)) % 2)
                (bit-xor 8 i c key h
                  ∙ ap (λ k. (bit i c + bit i k) % 2) (table_at-slot (start_index seed + index)))
              ∙ parity (bit i c) (bit i (slot ((start_index seed + index) % 64)))
                  (bit i (seed_term seed index)));
    }

scramble_loop-IsKeyed :
    (seed index : ℕ) (password : List ℕ) (i c : ℕ)
    → get_elem? password i ≡ some c
    → (byte : ℕ) × (get_elem? (scramble_loop seed index password) i ≡ some byte)
      × IsKeyed seed (start_index seed) (index + i) c byte
scramble_loop-IsKeyed seed index [] i c e = absurd (cc)
scramble_loop-IsKeyed seed index (x ∷ xs) zero c e =
    let same : x ≡ c = cc in
    let here : index + zero ≡ index = omega arith in
    (_, refl, rw (here, same) (scrambled-IsKeyed seed index c))
scramble_loop-IsKeyed seed index (x ∷ xs) (suc i) c e =
    let (byte, found, keyed) = scramble_loop-IsKeyed seed (suc index) xs i c e in
    let next : index + suc i ≡ suc index + i = omega arith in (byte, found, rw next keyed)

le32-le_value : (n : ℕ) → le_value (le32 n) ≡ n
le32-le_value n = omega arith

length-scramble_loop :
    (seed index : ℕ) (password : List ℕ)
    → length (scramble_loop seed index password) ≡ length password
length-scramble_loop seed index [] = refl
length-scramble_loop seed index (c ∷ cs) = ap suc (length-scramble_loop seed (suc index) cs)

behind_seed :
    (seed i : ℕ) (bytes : List ℕ) → get_elem? (le32 seed ++ bytes) (4 + i) ≡ get_elem? bytes i
behind_seed seed i bytes =
    (let four : 4 + i ≡ suc (suc (suc (suc i))) = omega arith in
      ap (get_elem? (le32 seed ++ bytes)) four)

-- A printable password of at most 40 characters and a 32-bit seed give a field of four bytes more than the
-- password. The first four hold the seed; the byte for a position of the password is determined by the
-- seed, the position and the character there, as sums of their bits modulo 2 and of a slot of the table,
-- which is spelt here as one number.
pub scramble_rfc_password-IsKeyed :
    (password : List ℕ) (seed i c : ℕ)
    → length password ≤ 40
    → all_of (λ c. leb 0x20 c && leb c 0x7e) password ≡ true
    → seed < 2 ^ 32
    → get_elem? password i ≡ some c
    → (field : List ℕ) × (start : ℕ) × (byte : ℕ) × (scramble_rfc_password password (natural seed)
        ≡ ok field)
      × (length field ≡ 4 + length password)
      × (le_value (take 4 field) ≡ seed)
      × IsStart seed start
      × (get_elem? field (4 + i) ≡ some byte)
      × IsKeyed seed start i c byte
unfolding scramble_rfc_password
scramble_rfc_password-IsKeyed password seed i c l p s e =
    let (byte, found, keyed) = scramble_loop-IsKeyed seed 0 password i c e in
    let here : 0 + i ≡ i = omega arith in
    (
      le32 seed ++ scramble_loop seed 0 password,
      start_index seed,
      byte,
      rw (
        le→ltb 40 (length password) l,
        p,
        natural_in_range seed 0 0xffff_ffff (omega arith) (omega arith) (omega arith),
      ),
      omega (arith, length-scramble_loop seed 0 password),
      le32-le_value seed,
      start_index-IsStart seed s,
      behind_seed seed i (scramble_loop seed 0 password) ∙ found,
      rw here at keyed,
    )
