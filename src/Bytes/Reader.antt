-- ===== src/Bytes/Reader.antt =====
-- The class CheckedByteReader of src/protocol/bytes.ts.
use open_rfc.Common.{
  length, take, drop, ℤ, Number, max_safe, natural, natural_in, Result, ◌>>=◌, ◌>>◌, guard,
  or_throw, JsError, ltb, ◌==◌, ok, range_error, ℕ, ◌+◌, ◌-◌, not, List,
}
use open_rfc.Bytes.Words.{be_value, le_value, signed32}

pub record Reader : Type 0 where
  pub contents : List ℕ
  pub offset : ℕ

unfoldable pub open_reader : List ℕ → Reader
open_reader bytes = record { contents = bytes; offset = 0 }

abbrev pub remaining : Reader → ℕ
remaining r = length r.contents - r.offset

-- `validateLength`: a non-negative safe integer.
abbrev pub validate_length : Number → Result JsError ℕ
validate_length n = or_throw (natural_in n 0 max_safe) range_error

abbrev pub ensure : Number → Reader → Result JsError ℕ
ensure n r = do len ← validate_length n; guard (not (ltb (remaining r) len)) range_error; ok len

-- `this.#data.subarray(this.#offset, this.#offset + length)`
abbrev pub window : Reader → ℕ → List ℕ
window r len = take len (drop r.offset r.contents)

abbrev pub advance : Reader → ℕ → Reader
advance r len = record r { offset = r.offset + len }

-- The integer reads differ in the width and in the Buffer method.
abbrev pub read_with {ℓ} : {A : Type ℓ} → ℕ → (List ℕ → A) → Reader → Result JsError (A × Reader)
read_with len value r = do n ← ensure (natural len) r; ok (value (window r n), advance r n)

unfoldable pub read_uint8 : Reader → Result JsError (ℕ × Reader)
read_uint8 = read_with 1 be_value

unfoldable pub read_uint16_be : Reader → Result JsError (ℕ × Reader)
read_uint16_be = read_with 2 be_value

unfoldable pub read_uint32_be : Reader → Result JsError (ℕ × Reader)
read_uint32_be = read_with 4 be_value

unfoldable pub read_uint32_le : Reader → Result JsError (ℕ × Reader)
read_uint32_le = read_with 4 le_value

unfoldable pub read_int32_be : Reader → Result JsError (ℤ × Reader)
read_int32_be = read_with 4 (λ bs. signed32 (be_value bs))

unfoldable pub read_int32_le : Reader → Result JsError (ℤ × Reader)
read_int32_le = read_with 4 (λ bs. signed32 (le_value bs))

unfoldable pub read_bytes : Number → Reader → Result JsError (List ℕ × Reader)
read_bytes len r = do n ← ensure len r; ok (window r n, advance r n)

unfoldable pub skip : Number → Reader → Result JsError Reader
skip len r = do n ← ensure len r; ok (advance r n)

unfoldable pub finish_read : Reader → Result JsError (Unit {0})
finish_read r = guard (remaining r == 0) range_error
