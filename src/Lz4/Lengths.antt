-- ===== src/Lz4/Lengths.antt =====
-- Lengths of 15 and more in an LZ4 block: what the encoder writes and the decoder reads back.
use native.Mathlib.Decide.{dec_lt}
use open_rfc.Common.{
  length, replicate, length-append, length-replicate, max_safe, ltb, if◌then◌else◌, lt→ltb, le→ltb,
  lt→==, ok, ℕ, zero, suc, ◌+◌, ◌-◌, ◌*◌, ◌/◌, ◌%◌, ◌≤◌, ◌<◌, min, ◌≡◌, ap, ◌∙◌, List, [], ◌∷◌,
  ◌++◌, append_assoc, arith,
}
use open_rfc.Lz4.Decode.{read_extended_length, extend_length}

-- The extension bytes of a length.
unfoldable pub ext_bytes : ℕ → List ℕ
ext_bytes n = if ltb n 15 then [] else replicate ((n - 15) / 255) 255 ++ ((n - 15) % 255 ∷ [])

pub length-ext_bytes : (n : ℕ) → length (ext_bytes n) ≤ n / 255 + 1
unfolding ext_bytes
length-ext_bytes n = elim (dec_lt n 15) [
  | yes short ↦ rw (lt→ltb n 15 short) (omega arith)
  | no long ↦
      rw
        (
          le→ltb n 15 (omega arith),
          length-append (replicate ((n - 15) / 255) 255) ((n - 15) % 255 ∷ []),
          length-replicate {A = ℕ} ((n - 15) / 255) 255,
        )
        (omega arith)
]

pub ext_bytes_short : (n : ℕ) → n < 15 → ext_bytes n ≡ []
unfolding ext_bytes
ext_bytes_short n h = rw (lt→ltb n 15 h)

extend_last :
    (limit acc m : ℕ) (tail : List ℕ)
    → m < 255
    → acc + m ≤ limit
    → limit ≤ max_safe
    → extend_length limit acc (m ∷ tail) ≡ ok (acc + m, tail)
unfolding extend_length
extend_last limit acc m tail h l s =
    rw (le→ltb max_safe (acc + m) (omega arith), le→ltb limit (acc + m) l, lt→== m 0xff h)

extend_more :
    (limit acc : ℕ) (tail : List ℕ)
    → acc + 255 ≤ limit
    → limit ≤ max_safe
    → extend_length limit acc (255 ∷ tail) ≡ extend_length limit (acc + 255) tail
unfolding extend_length
extend_more limit acc tail l s =
    rw (le→ltb max_safe (acc + 255) (omega arith), le→ltb limit (acc + 255) l)

extend_all :
    (q limit acc m : ℕ) (tail : List ℕ)
    → m < 255
    → acc + 255 * q + m ≤ limit
    → limit ≤ max_safe
    → extend_length limit acc (replicate q 255 ++ (m ∷ tail)) ≡ ok (acc + 255 * q + m, tail)
extend_all zero limit acc m tail h l s =
    extend_last limit acc m tail h (omega arith) s ∙ ap (λ (n : ℕ). ok (n, tail)) e
  where
    e : acc + m ≡ acc + 255 * 0 + m
    e = omega arith
extend_all (suc q) limit acc m tail h l s =
    extend_more limit acc (replicate q 255 ++ (m ∷ tail)) (omega arith) s
    ∙ (extend_all q limit (acc + 255) m tail h (omega arith) s ∙ ap (λ (n : ℕ). ok (n, tail)) e)
  where
    e : acc + 255 + 255 * q + m ≡ acc + 255 * suc q + m
    e = omega arith

-- The decoder reads back a length from its nibble and its extension bytes.
pub read_extended_length-ext_bytes :
    (limit n : ℕ) (tail : List ℕ)
    → n ≤ limit
    → limit ≤ max_safe
    → read_extended_length limit (min n 15) (ext_bytes n ++ tail) ≡ ok (n, tail)
unfolding read_extended_length ext_bytes
read_extended_length-ext_bytes limit n tail h s = elim (dec_lt n 15) [
  | yes short ↦ let e : min n 15 ≡ n = omega arith in rw (lt→ltb n 15 short, e, lt→== n 15 short)
  | no long ↦
      let e : min n 15 ≡ 15 = omega arith in
      let v : 15 + 255 * ((n - 15) / 255) + (n - 15) % 255 ≡ n = omega arith in
      rw
        (
          le→ltb n 15 (omega arith),
          e,
          append_assoc (replicate ((n - 15) / 255) 255) ((n - 15) % 255 ∷ []) tail,
        )
        (extend_all ((n - 15) / 255) limit 15 ((n - 15) % 255) tail (omega arith) (omega arith) s
          ∙ ap (λ (k : ℕ). ok (k, tail)) v)
]

pub length-ext_bytes_long : (n : ℕ) → 15 ≤ n → length (ext_bytes n) ≡ (n - 15) / 255 + 1
unfolding ext_bytes
length-ext_bytes_long n h = rw (
  le→ltb n 15 h,
  length-append (replicate ((n - 15) / 255) 255) ((n - 15) % 255 ∷ []),
  length-replicate {A = ℕ} ((n - 15) / 255) 255,
)
