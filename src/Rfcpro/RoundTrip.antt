-- ===== src/Rfcpro/RoundTrip.antt =====
-- A field header that was encoded decodes to its tag and length.
use native.Mathlib.Decide.{dec_le}
use open_rfc.Bytes.Append.{
  write_int32_be-written, finish_write-written, write_uint16_be-written, open_writer-written,
}
use open_rfc.Bytes.Words.{signed32_small, be_value-be32, be_value-be16, be_value, be32, be16}
use open_rfc.Common.{
  length, take, natural, natural_in_range, leb, if◌then◌else◌, le→ltb, le→leb, lt→leb, lt→==, ok, ℕ,
  ◌^◌, ◌≤◌, ◌<◌, ◌≡◌, refl, some, List, [], ◌++◌, arith,
}
use open_rfc.Rfcpro.{
  extended, compact, value_length_max, field_header_byte_length, compact_length_max,
  encode_field_header, decode_field_header, FieldHeader,
}

-- The bytes that the encoder writes for a short and for a long value.
encode_compact :
    (tag len : ℕ)
    → tag < 2 ^ 16
    → len ≤ compact_length_max
    → encode_field_header (natural tag) (natural len) ≡ ok (be16 tag ++ be16 len)
unfolding encode_field_header field_header_byte_length
encode_compact tag len ht hl =
    rw
      (
        natural_in_range tag 0 0xffff (omega arith) (omega arith) (omega arith),
        natural_in_range len 0 value_length_max (omega arith) (omega arith) (omega arith),
        le→leb len compact_length_max hl,
        open_writer-written 4 (omega arith),
      )
      (rw (write_uint16_be-written 2 [] tag ht) (
        rw (write_uint16_be-written 0 (be16 tag) len (omega arith))
          (finish_write-written (be16 tag ++ be16 len))))

encode_extended :
    (tag len : ℕ)
    → tag < 2 ^ 16
    → compact_length_max < len
    → len ≤ value_length_max
    → encode_field_header (natural tag) (natural len) ≡ ok (be16 tag ++ (be16 0xffff ++ be32 len))
unfolding encode_field_header field_header_byte_length
encode_extended tag len ht hs hl =
    rw
      (
        natural_in_range tag 0 0xffff (omega arith) (omega arith) (omega arith),
        natural_in_range len 0 value_length_max (omega arith) (omega arith) hl,
        lt→leb len compact_length_max hs,
        open_writer-written 8 (omega arith),
      )
      (rw (write_uint16_be-written 6 [] tag ht) (
        rw (write_uint16_be-written 4 (be16 tag) 0xffff (omega arith)) (
          rw (write_int32_be-written 0 (be16 tag ++ be16 0xffff) len (omega arith))
            (finish_write-written (be16 tag ++ (be16 0xffff ++ be32 len))))))

-- The header that a tag and a length stand for.
abbrev pub header_of : ℕ → ℕ → FieldHeader
header_of tag len =
    if leb len compact_length_max
    then record { tag = tag; value_length = len; encoding = compact; bytes_consumed = 4 }
    else record { tag = tag; value_length = len; encoding = extended; bytes_consumed = 8 }

decode_compact :
    (tag len limit : ℕ) (rest : List ℕ)
    → limit ≤ value_length_max
    → len ≤ compact_length_max
    → len ≤ limit
    → decode_field_header (be16 tag ++ (be16 len ++ rest)) (some (natural limit))
      ≡ ok (header_of tag len)
unfolding decode_field_header
decode_compact tag len limit rest hm hc hl =
    let t : be_value (be16 tag) ≡ tag = be_value-be16 tag in
    let v : be_value (be16 len) ≡ len = be_value-be16 len in
    rw (
      natural_in_range limit 0 value_length_max (omega arith) (omega arith) hm,
      t,
      v,
      lt→== len 0xffff (omega arith),
      le→ltb limit len hl,
      le→leb len compact_length_max hc,
      le→ltb (length (take 8 (be16 tag ++ (be16 len ++ rest)))) 2 (omega arith),
      le→ltb (length (take 8 (be16 tag ++ (be16 len ++ rest)))) 4 (omega arith),
    )

decode_extended :
    (tag len limit : ℕ) (rest : List ℕ)
    → limit ≤ value_length_max
    → compact_length_max < len
    → len ≤ limit
    → decode_field_header (be16 tag ++ (be16 0xffff ++ (be32 len ++ rest))) (some (natural limit))
      ≡ ok (header_of tag len)
unfolding decode_field_header
decode_extended tag len limit rest hm hc hl =
    let t : be_value (be16 tag) ≡ tag = be_value-be16 tag in
    let v : be_value (be32 len) ≡ len = be_value-be32 len in
    rw (
      natural_in_range limit 0 value_length_max (omega arith) (omega arith) hm,
      t,
      v,
      signed32_small len (omega arith),
      le→ltb limit len hl,
      lt→leb len compact_length_max hc,
    )

-- A header that was encoded for a tag and a length decodes to them, whatever bytes follow it, under
-- every limit that the length keeps to. The tag has 16 bits, and the limit is one that the decoder
-- admits.
pub decode_field_header-encode_field_header :
    (tag len limit : ℕ) (rest : List ℕ)
    → tag < 2 ^ 16
    → limit ≤ value_length_max
    → len ≤ limit
    → (header : List ℕ) × (encode_field_header (natural tag) (natural len) ≡ ok header)
      × (decode_field_header (header ++ rest) (some (natural limit)) ≡ ok (header_of tag len))
      × (length header ≡ (header_of tag len).bytes_consumed)
decode_field_header-encode_field_header tag len limit rest ht hm hl =
    elim (dec_le len compact_length_max) [
      | yes h ↦ (
        be16 tag ++ be16 len,
        encode_compact tag len ht h,
        decode_compact tag len limit rest hm h hl,
        rw (le→leb len compact_length_max h) refl,
      )
      | no h ↦ (
        be16 tag ++ (be16 0xffff ++ be32 len),
        encode_extended tag len ht (omega arith) (omega arith),
        decode_extended tag len limit rest hm (omega arith) hl,
        rw (lt→leb len compact_length_max (omega arith)) refl,
      )
    ]
