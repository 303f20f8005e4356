-- ===== src/Int8/Tests.antt =====
-- Runs of the projections on the ends of the range.
use open_rfc.Common.{ok, err, range_error, pos, negsuc, ◌^◌, ◌≡◌, refl, [], ◌∷◌}
use open_rfc.Int8.{
  assert_signed_int8, encode_classic_int8, decode_classic_int8, string_mode, number_mode,
  string_value, classic_int8_initial_value,
}
use open_rfc.Int8.RoundTrip.{encode_classic_int8-decode_classic_int8}

decode_minus_305 :
    decode_classic_int8 (negsuc 304) string_mode ≡ ok (string_value (45 ∷ 51 ∷ 48 ∷ 53 ∷ []))
unfolding decode_classic_int8 assert_signed_int8
decode_minus_305 = refl

-- -305 in string mode.
encode_classic_int8-decode_classic_int8_example :
    encode_classic_int8 (string_value (45 ∷ 51 ∷ 48 ∷ 53 ∷ [])) string_mode ≡ ok (negsuc 304)
encode_classic_int8-decode_classic_int8_example =
    encode_classic_int8-decode_classic_int8 (negsuc 304) string_mode
      (string_value (45 ∷ 51 ∷ 48 ∷ 53 ∷ [])) decode_minus_305

number_mode_overflow : decode_classic_int8 (pos (2 ^ 60)) number_mode ≡ err range_error
unfolding decode_classic_int8 assert_signed_int8
number_mode_overflow = refl

initial_zero : encode_classic_int8 (classic_int8_initial_value string_mode) string_mode ≡ ok (pos 0)
unfolding encode_classic_int8 classic_int8_initial_value assert_signed_int8
initial_zero = refl
