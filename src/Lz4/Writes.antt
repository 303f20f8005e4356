-- ===== src/Lz4/Writes.antt =====
-- The writes of the LZ4 encoder: a chain of them is one write of the bytes one after the other.
use native.Mathlib.Decide.{dec_le, dec_lt}
use open_rfc.Common.{
  length, replicate, length-append, Result, ◌>>=◌, lt→ltb, le→ltb, le→leb, lt→leb, ok, err, ℕ, zero,
  suc, ◌+◌, ◌-◌, ◌*◌, ◌/◌, ◌%◌, ◌≤◌, ◌<◌, ◌≡◌, sym, ap, ◌∙◌, List, [], ◌∷◌, ◌++◌, append-nil,
  append_assoc, arith,
}
use open_rfc.Lz4.Encode.{
  write_byte, write_output, write_extended_length, write_length_loop, EncodeError,
  output_limit_exceeded,
}
use open_rfc.Lz4.Lengths.{ext_bytes}

-- Writing within the capacity, and beyond it.
module _ (capacity : ℕ) where
  pub write_fits :
      (bs out : List ℕ)
      → length out + length bs ≤ capacity
      → write_output capacity bs out ≡ ok (out ++ bs)
  unfolding write_output
  write_fits bs out h = rw (le→ltb (capacity - length out) (length bs) (omega arith))

  pub write_full :
      (bs out : List ℕ)
      → length out ≤ capacity
      → capacity < length out + length bs
      → write_output capacity bs out ≡ err output_limit_exceeded
  unfolding write_output
  write_full bs out h k = rw (lt→ltb (capacity - length out) (length bs) (omega arith))

  pub write_none : (out : List ℕ) → length out ≤ capacity → write_output capacity [] out ≡ ok out
  write_none out h = write_fits [] out (omega arith) ∙ ap ok (append-nil out)

  -- Two writes in a row are one.
  pub write_write :
      (xs bs out : List ℕ)
      → length out ≤ capacity
      → (write_output capacity xs out >>= write_output capacity bs)
        ≡ write_output capacity (xs ++ bs) out
  write_write xs bs out h = elim (dec_le (length out + length xs) capacity) [
    | no over ↦ rw (
      write_full xs out h (omega arith),
      write_full (xs ++ bs) out h (omega (arith, length-append xs bs)),
    )
    | yes first ↦
        rw (write_fits xs out first) (elim (dec_le (length out + length xs + length bs) capacity) [
          | no over ↦ rw (
            write_full bs (out ++ xs) (omega (arith, length-append out xs))
                (omega (arith, length-append out xs)),
            write_full (xs ++ bs) out h (omega (arith, length-append xs bs)),
          )
          | yes both ↦ rw (
            write_fits bs (out ++ xs) (omega (arith, length-append out xs)),
            write_fits (xs ++ bs) out (omega (arith, length-append xs bs)),
            append_assoc out xs bs,
          )
        ])
  ]

  -- A write whose continuation is a write, where the first one succeeds.
  pub first-then :
      (xs bs out : List ℕ)
      → length out ≤ capacity
      → (f : List ℕ → Result EncodeError (List ℕ))
      → ((o : List ℕ) → length o ≤ capacity → f o ≡ write_output capacity bs o)
      → (write_output capacity xs out >>= f) ≡ write_output capacity (xs ++ bs) out
  first-then xs bs out h f e = elim (dec_le (length out + length xs) capacity) [
    | no over ↦ rw (
      write_full xs out h (omega arith),
      write_full (xs ++ bs) out h (omega (arith, length-append xs bs)),
    )
    | yes first ↦
        let k : length (out ++ xs) ≤ capacity = omega (arith, length-append out xs) in
        rw (← write_write xs bs out h, write_fits xs out first) (e (out ++ xs) k)
  ]

  write_length_loop_lem :
      (q m fuel remainder : ℕ) (out : List ℕ)
      → remainder ≡ 255 * q + m
      → m < 255
      → q < fuel
      → length out ≤ capacity
      → write_length_loop fuel capacity remainder out
        ≡ write_output capacity (replicate q 255 ++ (m ∷ [])) out
  unfolding write_length_loop write_byte
  write_length_loop_lem q m zero r out e h f l = absurd (omega arith)
  write_length_loop_lem zero m (suc fuel) r out e h f l =
      let e' : r ≡ m = omega arith in rw (lt→leb 0xff r (omega arith), e', write_length_loop)
  write_length_loop_lem (suc q) m (suc fuel) r out e h f l =
      let e' : r - 0xff ≡ 255 * q + m = omega arith in
      rw (le→leb 0xff r (omega arith), write_length_loop)
        (first-then (255 ∷ []) (replicate q 255 ++ (m ∷ [])) out l
          (λ o. write_length_loop fuel capacity (r - 0xff) o)
          (λ o k. write_length_loop_lem q m fuel (r - 0xff) o e' h (omega arith) k))

  pub write_extended_length_lem :
      (n : ℕ) (out : List ℕ)
      → length out ≤ capacity
      → write_extended_length capacity n out ≡ write_output capacity (ext_bytes n) out
  unfolding write_extended_length ext_bytes
  write_extended_length_lem n out h = elim (dec_lt n 15) [
    | yes short ↦ rw (lt→ltb n 15 short) (sym (write_none out h))
    | no long ↦ rw (le→ltb n 15 (omega arith)) (
        write_length_loop_lem ((n - 15) / 255) ((n - 15) % 255) n (n - 15) out (omega arith)
          (omega arith) (omega arith) h)
  ]

  pub write_output-eq-ok :
      (bs out : List ℕ) {out' : List ℕ}
      → length out ≤ capacity
      → write_output capacity bs out ≡ ok out'
      → (out' ≡ out ++ bs) × (length out' ≤ capacity)
  write_output-eq-ok bs out {out'} h e = elim (dec_le (length out + length bs) capacity) [
    | no over ↦ absurd (cc (write_full bs out h (omega arith)))
    | yes room ↦
        let same = write_fits bs out room in
        let back : out' ≡ out ++ bs = cc in
        (back, omega (arith, ap length back, length-append out bs))
  ]
