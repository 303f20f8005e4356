-- ===== src/Lz4/Tests.antt =====
-- Runs of the LZ4 coder, and its theorems at concrete inputs.
use open_rfc.Lz4.Total.{encode_lz4_block_total, default_encode_options}
use open_rfc.Lz4.RoundTrip.{decode-encode, default_decode_options}
use open_rfc.Lz4.Bounds.{decode_lz4_block-Ends, IsDecoded, Ends}
use open_rfc.Common.{natural, ok, err, ℕ, ◌≡◌, refl, List, [], ◌∷◌, arith}
use open_rfc.Lz4.Encode.{
  uint32_at, encode_match, write_uint16_le, write_output, write_source, write_length_loop,
  write_extended_length, write_byte, write_final, write_sequence, record_match, extend_match,
  usable_candidate, record_position, hash_at, encode_loop, encoded_length_bound,
  configured_encode_limit, encode_lz4_block,
}
use open_rfc.Lz4.Decode.{
  invalid_offset, read_match_offset, read_match, read_extended_length, read_literals, decode_loop,
  bounded_length, configured_limit, decode_lz4_block,
}

abbrev sample : List ℕ
sample = 1 ∷ 2 ∷ 3 ∷ 1 ∷ 2 ∷ 3 ∷ 1 ∷ 2 ∷ 3 ∷ 1 ∷ 2 ∷ 3 ∷ 1 ∷ 2 ∷ 3 ∷ 1 ∷ 2 ∷ 3 ∷ 1 ∷ 2 ∷ 3 ∷ []

-- One literal run, one overlapping match, and the last five bytes as literals.
abbrev block : List ℕ
block = 57 ∷ 1 ∷ 2 ∷ 3 ∷ 3 ∷ 0 ∷ 80 ∷ 2 ∷ 3 ∷ 1 ∷ 2 ∷ 3 ∷ []

encode_sample : encode_lz4_block sample default_encode_options ≡ ok block
unfolding encode_lz4_block configured_encode_limit encoded_length_bound encode_loop encode_match
    uint32_at write_uint16_le hash_at record_position usable_candidate extend_match record_match
    write_sequence write_final write_byte write_extended_length write_length_loop write_source
    write_output
encode_sample = refl

decode_zero_offset :
    decode_lz4_block (0x10 ∷ 7 ∷ 0 ∷ 0 ∷ []) (natural 8) default_decode_options ≡ err invalid_offset
unfolding decode_lz4_block configured_limit bounded_length decode_loop read_literals
    read_extended_length read_match read_match_offset
decode_zero_offset = refl

decode-encode_example : decode_lz4_block block (natural 21) default_decode_options ≡ ok sample
decode-encode_example =
    decode-encode sample block default_encode_options (omega arith) encode_sample

decode_lz4_block-Ends_example :
    Ends
      (IsDecoded (natural 8))
      (decode_lz4_block (0x10 ∷ 7 ∷ 1 ∷ 0 ∷ []) (natural 8) default_decode_options)
decode_lz4_block-Ends_example =
    decode_lz4_block-Ends (0x10 ∷ 7 ∷ 1 ∷ 0 ∷ []) (natural 8) default_decode_options

encode_lz4_block_total_example :
    (enc : List ℕ) × (encode_lz4_block sample default_encode_options ≡ ok enc)
encode_lz4_block_total_example = encode_lz4_block_total sample (omega arith)
