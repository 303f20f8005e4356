-- ===== src/Bytes/Writer.antt =====
-- The class CheckedByteWriter of src/protocol/bytes.ts.
use open_rfc.Common.{
  length, take, drop, replicate, Number, natural, integer_in, natural_in, Result, ◌>>=◌, ◌>>◌,
  guard, or_throw, JsError, ltb, ◌==◌, ok, range_error, pos, negsuc, ℕ, ◌+◌, ◌-◌, not, List, [],
  ◌∷◌, ◌++◌,
}
use open_rfc.Bytes.Reader.{validate_length}
use open_rfc.Bytes.Words.{be16, be32, pattern32}

pub record Writer : Type 0 where
  pub contents : List ℕ
  pub offset : ℕ

-- The constructor: a zero-filled buffer of the given length.
unfoldable pub open_writer : Number → Result JsError Writer
open_writer len = do n ← validate_length len; ok (record { contents = replicate n 0; offset = 0 })

abbrev pub room : Writer → ℕ
room w = length w.contents - w.offset

abbrev pub ensure_room : ℕ → Writer → Result JsError (Unit {0})
ensure_room len w = do n ← validate_length (natural len); guard (not (ltb (room w) n)) range_error

-- The Buffer method writes over what stands at the offset, and the offset moves on.
abbrev pub put_at : List ℕ → Writer → Writer
put_at bs w = record {
  contents = take w.offset w.contents ++ (bs ++ drop (w.offset + length bs) w.contents);
  offset = w.offset + length bs;
}

unfoldable pub write_uint8 : Number → Writer → Result JsError Writer
write_uint8 value w = do
  v ← or_throw (natural_in value 0 0xff) range_error
  ensure_room 1 w
  ok (put_at (v ∷ []) w)

unfoldable pub write_uint16_be : Number → Writer → Result JsError Writer
write_uint16_be value w = do
  v ← or_throw (natural_in value 0 0xffff) range_error
  ensure_room 2 w
  ok (put_at (be16 v) w)

unfoldable pub write_uint32_be : Number → Writer → Result JsError Writer
write_uint32_be value w = do
  v ← or_throw (natural_in value 0 0xffff_ffff) range_error
  ensure_room 4 w
  ok (put_at (be32 v) w)

unfoldable pub write_int32_be : Number → Writer → Result JsError Writer
write_int32_be value w = do
  v ← or_throw (integer_in value (negsuc 0x7fff_ffff) (pos 0x7fff_ffff)) range_error
  ensure_room 4 w
  ok (put_at (be32 (pattern32 v)) w)

unfoldable pub write_bytes : List ℕ → Writer → Result JsError Writer
write_bytes value w = do ensure_room (length value) w; ok (put_at value w)

unfoldable pub finish_write : Writer → Result JsError (List ℕ)
finish_write w = do guard (room w == 0) range_error; ok w.contents
