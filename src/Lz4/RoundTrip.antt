-- ===== src/Lz4/RoundTrip.antt =====
-- Decoding what `encode_lz4_block` wrote gives the source back.
use open_rfc.Lz4.Writes.{write_output-eq-ok}
use open_rfc.Bytes.Words.{IsByte}
use open_rfc.Common.{
  length, All, Number, max_safe, natural, or_default, natural_in, natural_in_range,
  natural_in_sound, guard, >>=-eq-ok, guard_sound, ltb, ◌==◌, if◌then◌else◌, le→ltb, Option-cases,
  suc_eq_zero, eq_refl, gt→==, ok, ℕ, zero, suc, ◌≤◌, ◌<◌, min, ◌≡◌, refl, sym, ◌∙◌, inl, inr, not,
  Option, none, List, [], ◌∷◌, arith,
}
use open_rfc.Lz4.Checks.{encode_loop-joined_loop}
use open_rfc.Lz4.Rounds.{joined_loop-IsGood, Going, Emitted-empty}
use open_rfc.Lz4.Decode.{
  read_extended_length, max_encoded_block_length, configured_limit, read_literals, max_block_length,
  DecodeOptions, decode_loop, bounded_length, decode_lz4_block, DecodeError,
}
use open_rfc.Lz4.Encode.{
  encode_loop, empty_table, EncodeOptions, configured_encode_limit, encoded_length_bound,
  encode_lz4_block, write_byte, EncodeError,
}

abbrev pub default_decode_options : DecodeOptions
default_decode_options = record { max_input_length = none; max_output_length = none }

bounded_length_within :
    (n limit : ℕ) (code : DecodeError)
    → n ≤ limit
    → limit ≤ max_safe
    → bounded_length (natural n) limit code ≡ ok n
unfolding bounded_length
bounded_length_within n limit code h s =
    rw (natural_in_range n 0 max_safe (omega arith) (omega arith) (omega arith), le→ltb limit n h)

decode_lz4_block-IsGood :
    (source enc : List ℕ)
    → length source ≤ max_block_length
    → 0 < length enc
    → length enc ≤ max_encoded_block_length
    → decode_loop (suc (length enc)) (length source) max_block_length enc [] ≡ ok source
    → decode_lz4_block enc (natural (length source)) default_decode_options ≡ ok source
unfolding decode_lz4_block configured_limit
decode_lz4_block-IsGood source enc h p k e = rw (
  bounded_length_within (length enc) max_encoded_block_length DecodeError.input_limit_exceeded k
      (omega arith),
  bounded_length_within (length source) max_block_length DecodeError.output_limit_exceeded h
      (omega arith),
  gt→== (length enc) 0 p,
  e,
  eq_refl (length source),
)

configured_encode_limit_sound :
    (value : Option Number) (fallback maximum : ℕ) {n : ℕ}
    → configured_encode_limit value fallback maximum ≡ ok n
    → n ≤ maximum
unfolding configured_encode_limit
configured_encode_limit_sound value fallback maximum {n} e =
    elim (Option-cases (natural_in (or_default value fallback) 0 maximum)) [
      | inl bad ↦ absurd (cc)
      | inr (m, good) ↦
          let same : m ≡ n = cc in
          omega (arith, same, natural_in_sound (or_default value fallback) 0 maximum good)
    ]

-- What a successful call of the encoder went through.
encode_lz4_block-eq-ok :
    (source enc : List ℕ) (options : EncodeOptions)
    → encode_lz4_block source options ≡ ok enc
    → (max_output : ℕ) × (length source ≤ max_block_length)
      × (let capacity = min (encoded_length_bound (length source)) max_output in
          (if length source == 0
            then write_byte capacity 0 []
            else encode_loop (suc (length source)) capacity source empty_table 0 0 [])
          ≡ ok enc)
unfolding encode_lz4_block
encode_lz4_block-eq-ok source enc options e =
    let (max_input, ei, e₁) =
      >>=-eq-ok (configured_encode_limit options.max_input_length max_block_length max_block_length)
        _ e in
    let (max_output, eo, e₂) =
      >>=-eq-ok
        (configured_encode_limit options.max_output_length max_encoded_block_length
          max_encoded_block_length)
        _ e₁ in
    let (_, eg, e₃) =
      >>=-eq-ok (guard (not (ltb max_input (length source))) EncodeError.input_limit_exceeded) _
        e₂ in
    let small : length source ≤ max_input = ground (
      arith,
      guard_sound (not (ltb max_input (length source))) EncodeError.input_limit_exceeded eg,
    ) in
    (
      max_output,
      omega (
        arith,
        small,
        configured_encode_limit_sound options.max_input_length max_block_length max_block_length ei,
      ),
      e₃,
    )

nonempty_block :
    (source enc : List ℕ) (limit : ℕ)
    → 0 < length source
    → decode_loop (suc (length enc)) (length source) limit enc [] ≡ ok source
    → 0 < length enc
unfolding decode_loop
nonempty_block [] enc limit h e = absurd (omega arith)
nonempty_block (b ∷ bs) [] limit h e = absurd (cc)
nonempty_block (b ∷ bs) (x ∷ xs) limit h e = omega arith

Going-start :
    (limit : ℕ) (safe : limit ≤ max_safe) (source : List ℕ) (fits : length source ≤ limit)
    (bytes : All IsByte source) (capacity : ℕ)
    → Going limit safe source fits bytes capacity empty_table 0 0 []
Going-start limit safe source fits bytes capacity = record {
  below = λ h c e. absurd (cc);
  behind = omega arith;
  inside = omega arith;
  room = omega arith;
  emitted = Emitted-empty (length source) limit source;
}

encoded_length_bound_max :
    (n : ℕ) → n ≤ max_block_length → encoded_length_bound n ≤ max_encoded_block_length
unfolding encoded_length_bound
encoded_length_bound_max zero h = omega arith
encoded_length_bound_max (suc n) h = omega arith

empty_block : decode_loop 2 0 max_block_length (0 ∷ []) [] ≡ ok []
unfolding decode_loop read_literals read_extended_length
empty_block = refl

-- A source of bytes that encodes, whatever the limits given, decodes under the default limits to the
-- source itself, when its length is announced to the decoder.
pub decode-encode :
    (source enc : List ℕ) (options : EncodeOptions)
    → All IsByte source
    → encode_lz4_block source options ≡ ok enc
    → decode_lz4_block enc (natural (length source)) default_decode_options ≡ ok source
unfolding write_byte
decode-encode [] enc options bytes e =
    let (max_output, small, w) = encode_lz4_block-eq-ok [] enc options e in
    let (same, fit) =
      write_output-eq-ok (min (encoded_length_bound 0) max_output) (0 ∷ []) [] (omega arith) w in
    rw same (decode_lz4_block-IsGood [] (0 ∷ []) small (omega arith) (omega arith) empty_block)
decode-encode (b ∷ bs) enc options bytes e =
    let (max_output, small, w) = encode_lz4_block-eq-ok (b ∷ bs) enc options e in
    let (fit, good) =
      joined_loop-IsGood max_block_length (omega arith) (b ∷ bs) small bytes
        (min (encoded_length_bound (length (b ∷ bs))) max_output) (suc (length (b ∷ bs)))
        empty_table 0 0 [] enc (Going-start max_block_length _ (b ∷ bs) small bytes _)
        (sym (encode_loop-joined_loop _ _ (b ∷ bs) empty_table 0 0 [] (λ h c k. absurd (cc)))
          ∙ (rw (suc_eq_zero (length bs)) at w)) in
    decode_lz4_block-IsGood (b ∷ bs) enc small
      (nonempty_block (b ∷ bs) enc max_block_length (omega arith) good)
      (omega (arith, fit, encoded_length_bound_max (length (b ∷ bs)) small)) good
