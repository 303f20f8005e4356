-- ===== src/Rfcpro.antt =====
-- src/protocol/rfcpro.ts: the tag and length header of an RFCPRO field.
pub mod RoundTrip
mod Tests
use open_rfc.Bytes.Words.{signed32, be_value}
use open_rfc.Bytes.Writer.{finish_write, write_int32_be, write_uint16_be, open_writer}
use open_rfc.Common.{
  length, take, drop, ℤ, Number, natural, or_default, natural_in, Result, ◌>>=◌, ◌>>◌, guard,
  or_throw, JsError, ltb, leb, ◌==◌, if◌then◌else◌, ok, err, range_error, pos, negsuc, ℕ, ◌-◌, not,
  Option, List,
}

abbrev pub extended_length_sentinel : ℕ
extended_length_sentinel = 0xffff

abbrev pub compact_length_max : ℕ
compact_length_max = extended_length_sentinel - 1

abbrev pub value_length_max : ℕ
value_length_max = 0x7fff_ffff

pub data LengthEncoding : Type 0 where
  compact extended : LengthEncoding

pub record FieldHeader : Type 0 where
  pub tag : ℕ
  pub value_length : ℕ
  pub encoding : LengthEncoding
  pub bytes_consumed : ℕ

-- `boundedInteger`: the value, or a RangeError.
abbrev pub bounded_integer : Number → ℕ → ℕ → Result JsError ℕ
bounded_integer value minimum maximum = or_throw (natural_in value minimum maximum) range_error

abbrev pub validate_tag : Number → Result JsError ℕ
validate_tag tag = bounded_integer tag 0 0xffff

abbrev pub validate_value_length : Number → Result JsError ℕ
validate_value_length len = bounded_integer len 0 value_length_max

unfoldable pub field_header_byte_length : Number → Result JsError ℕ
field_header_byte_length len = do
  n ← validate_value_length len
  ok (if leb n compact_length_max then 4 else 8)

-- `encodeRfcProFieldHeader`.
unfoldable pub encode_field_header : Number → Number → Result JsError (List ℕ)
encode_field_header tag len = do
  t ← validate_tag tag
  byte_length ← field_header_byte_length len
  w₀ ← open_writer (natural byte_length)
  w₁ ← write_uint16_be tag w₀
  w₂ ←
      (if byte_length == 4
        then write_uint16_be len w₁
        else (write_uint16_be (natural extended_length_sentinel) w₁ >>= write_int32_be len))
  finish_write w₂

-- The value of `bytes.readInt32BE(4)`, if it is not negative.
abbrev pub nonnegative : ℤ → Result JsError ℕ
nonnegative (pos n) = ok n
nonnegative (negsuc n) = err range_error

-- `decodeRfcProFieldHeader`.
unfoldable pub decode_field_header : List ℕ → Option Number → Result JsError FieldHeader
decode_field_header input max_value_length = do
  limit ← bounded_integer (or_default max_value_length value_length_max) 0 value_length_max
  let bytes = take 8 input
  guard (not (ltb (length bytes) 2)) range_error
  let tag = be_value (take 2 bytes)
  guard (not (ltb (length bytes) 4)) range_error
  let compact_length = be_value (take 2 (drop 2 bytes))
  if not (compact_length == extended_length_sentinel)
      then (do
        guard (not (ltb limit compact_length)) range_error
        ok (record {
          tag = tag;
          value_length = compact_length;
          encoding = compact;
          bytes_consumed = 4;
        }))
      else (do
        guard (not (ltb (length bytes) 8)) range_error
        extended_length ← nonnegative (signed32 (be_value (take 4 (drop 4 bytes))))
        guard (not (ltb limit extended_length)) range_error
        ok (record {
          tag = tag;
          value_length = extended_length;
          encoding = extended;
          bytes_consumed = 8;
        }))
