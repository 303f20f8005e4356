-- ===== src/Rfcpro/Tests.antt =====
-- Runs of the RFCPRO header on concrete tags and lengths.
use open_rfc.Common.{
  length, natural, ok, err, range_error, ℕ, ◌≡◌, refl, none, some, List, [], ◌∷◌, ◌++◌, arith,
}
use open_rfc.Rfcpro.{encode_field_header, decode_field_header}
use open_rfc.Rfcpro.RoundTrip.{decode_field_header-encode_field_header, header_of}

-- A long value takes the sentinel and a 32-bit length.
decode_field_header-encode_field_header_example :
    (header : List ℕ) × (encode_field_header (natural 0x0203) (natural 70000) ≡ ok header)
    × (decode_field_header (header ++ (7 ∷ 8 ∷ [])) (some (natural 80000))
        ≡ ok (header_of 0x0203 70000))
    × (length header ≡ (header_of 0x0203 70000).bytes_consumed)
decode_field_header-encode_field_header_example =
    decode_field_header-encode_field_header 0x0203 70000 80000 (7 ∷ 8 ∷ []) (omega arith)
      (omega arith) (omega arith)

-- A header of 6 bytes that starts as an extended one is refused.
extended_too_short : decode_field_header (0 ∷ 1 ∷ 255 ∷ 255 ∷ 0 ∷ 0 ∷ []) none ≡ err range_error
unfolding decode_field_header
extended_too_short = refl
