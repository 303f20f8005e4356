-- ===== src/Lz4/Total.antt =====
-- The encoder succeeds on every source within its limits: the capacity that it computes is enough.
use open_rfc.Lz4.Decode.{max_encoded_block_length, max_block_length}
use open_rfc.Lz4.Checks.{extend_match_bounds, encode_loop-joined_loop}
use open_rfc.Lz4.Writes.{write_fits}
use open_rfc.Lz4.Lengths.{length-ext_bytes, length-ext_bytes_long, ext_bytes_short}
use native.Mathlib.Decide.{dec_lt}
use open_rfc.Lz4.Sequence.{
  length-final_bytes, write_sequence_lem, write_final_lem, length-sequence_bytes, final_bytes,
  sequence_bytes,
}
use open_rfc.Common.{
  length, take, drop, length-append, length-take, length-drop, Result, leb, le→ltb, leb→le,
  Bool-cases, Option-cases, suc_eq_zero, ok, ℕ, zero, suc, ◌+◌, ◌-◌, ◌/◌, ◌≤◌, ◌<◌, min, ◌≡◌, refl,
  ap, ◌∙◌, inl, inr, none, List, [], ◌∷◌, ◌++◌, arith,
}
use open_rfc.Lz4.Encode.{
  empty_table, encoded_length_bound, write_output, write_byte, configured_encode_limit,
  EncodeOptions, extend_match, write_final, HashTable, encode_lz4_block, EncodeError,
}
use open_rfc.Lz4.Unchecked.{joined_sequence, hash_of, taken_candidate, joined_loop}

-- A sequence is no longer than what it stands for, but for one byte in 255.
sequence_pays :
    (literals : List ℕ) (distance extra anchor position : ℕ)
    → length literals ≡ position - anchor
    → anchor ≤ position
    → anchor + anchor / 255 + length (sequence_bytes literals distance extra)
      ≤ position + (extra + 4) + (position + (extra + 4)) / 255
sequence_pays literals distance extra anchor position l a = elim (dec_lt (length literals) 15) [
  | yes few ↦ elim (dec_lt extra 15) [
    | yes short ↦ omega (
      arith,
      length-sequence_bytes literals distance extra,
      ap length (ext_bytes_short (length literals) few),
      ap length (ext_bytes_short extra short),
    )
    | no long ↦ omega (
      arith,
      length-sequence_bytes literals distance extra,
      ap length (ext_bytes_short (length literals) few),
      length-ext_bytes_long extra (omega arith),
    )
  ]
  | no many ↦ elim (dec_lt extra 15) [
    | yes short ↦ omega (
      arith,
      length-sequence_bytes literals distance extra,
      length-ext_bytes_long (length literals) (omega arith),
      ap length (ext_bytes_short extra short),
    )
    | no long ↦ omega (
      arith,
      length-sequence_bytes literals distance extra,
      length-ext_bytes_long (length literals) (omega arith),
      length-ext_bytes_long extra (omega arith),
    )
  ]
]

module _ (capacity : ℕ) (source : List ℕ)
    (enough : length source + length source / 255 + 16 ≤ capacity) where
  Succeeds : Result EncodeError (List ℕ) → Type 0
  Succeeds r = (enc : List ℕ) × (r ≡ ok enc)

  write_final_total :
      (anchor : ℕ) (out : List ℕ)
      → anchor ≤ length source
      → length out ≤ anchor + anchor / 255
      → Succeeds (write_final capacity source anchor out)
  unfolding Succeeds
  write_final_total anchor out a h =
      let literals : List ℕ = take (length source - anchor) (drop anchor source) in
      let len : length literals ≡ length source - anchor = omega (
        arith,
        length-take (length source - anchor) (drop anchor source),
        length-drop anchor source,
      ) in
      (
        out ++ final_bytes literals,
        write_final_lem capacity source literals anchor out refl len (omega arith)
            ∙ write_fits capacity (final_bytes literals) out
                (omega (arith, length-final_bytes literals, length-ext_bytes (length literals))),
      )

  joined_loop_total :
      (fuel : ℕ) (table : HashTable) (anchor position : ℕ) (out : List ℕ)
      → length source < fuel + position
      → anchor ≤ position
      → position ≤ length source
      → length out ≤ anchor + anchor / 255
      → Succeeds (joined_loop fuel capacity source table anchor position out)
  unfolding joined_loop Succeeds
  joined_loop_total zero table anchor position out f a p h = absurd (omega arith)
  joined_loop_total (suc fuel) table anchor position out f a p h =
      elim (Bool-cases (leb (position + 12) (length source))) [
        | inr last ↦ rw (last, joined_loop) (write_final_total anchor out (omega arith) h)
        | inl more ↦
            let room : position + 12 ≤ length source = leb→le _ _ more in
            elim (Option-cases
              (taken_candidate source (table (hash_of source position)) position)) [
                | inl unusable ↦
                    rw (more, unusable, joined_loop)
                      (joined_loop_total fuel _ anchor (position + 1) out (omega arith)
                        (omega arith) (omega arith) h)
                | inr (c, usable) ↦
                    let len : ℕ =
                      extend_match source c position (length source - 5 - (position + 4)) 4 in
                    let (lo, hi) =
                      extend_match_bounds source c position (length source - 5 - (position + 4))
                        4 in
                    let literals : List ℕ = take (position - anchor) (drop anchor source) in
                    let whole : length literals ≡ position - anchor = omega (
                      arith,
                      length-take (position - anchor) (drop anchor source),
                      length-drop anchor source,
                    ) in
                    let seq : List ℕ = sequence_bytes literals (position - c) (len - 4) in
                    let pays =
                      sequence_pays literals (position - c) (len - 4) anchor position whole a in
                    let written : joined_sequence capacity source anchor (position - anchor)
                          (position - c) (len - 4) out
                        ≡ ok (out ++ seq) =
                      write_sequence_lem capacity source literals anchor (position - anchor)
                        (position - c) (len - 4) out refl whole (omega arith)
                      ∙ write_fits capacity seq out (omega (arith, pays)) in
                    rw (more, usable, joined_loop)
                      (rw written (
                        joined_loop_total fuel _ (position + len) (position + len) (out ++ seq)
                          (omega arith) (omega arith) (omega arith)
                          (omega (arith, pays, length-append out seq))))
              ]
      ]

abbrev pub default_encode_options : EncodeOptions
default_encode_options = record { max_input_length = none; max_output_length = none }

-- With the default limits every source of at most 16 MiB encodes: the output capacity that the encoder
-- allots is always enough, its loops end, and no Buffer access throws, since every word is read where
-- four bytes are left and every distance that is written fits in 16 bits.
pub encode_lz4_block_total :
    (source : List ℕ)
    → length source ≤ max_block_length
    → (enc : List ℕ) × (encode_lz4_block source default_encode_options ≡ ok enc)
unfolding encode_lz4_block configured_encode_limit write_byte write_output Succeeds
    encoded_length_bound
encode_lz4_block_total [] h = (0 ∷ [], refl)
encode_lz4_block_total (b ∷ bs) h =
    let capacity = min (encoded_length_bound (suc (length bs))) max_encoded_block_length in
    let (enc, e) =
      joined_loop_total capacity (b ∷ bs) (omega arith) (suc (suc (length bs))) empty_table 0 0 []
        (omega arith) (omega arith) (omega arith) (omega arith) in
    let whole =
      encode_loop-joined_loop (suc (suc (length bs))) capacity (b ∷ bs) empty_table 0 0 []
        (λ h c k. absurd (cc)) in
    rw (le→ltb max_block_length (suc (length bs)) h, suc_eq_zero (length bs)) (enc, whole ∙ e)
