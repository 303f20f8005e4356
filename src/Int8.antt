-- ===== src/Int8.antt =====
-- src/values/classic-int8.ts: the JavaScript representations of a signed 64-bit integer.
pub mod Decimal
pub mod RoundTrip
mod Tests
use open_rfc.Common.{
  length, ℤ, leb_ℤ, Number, max_safe, natural, integer_in, Result, ◌>>=◌, ◌>>◌, guard, or_throw,
  JsError, ltb, leb, ◌==◌, if◌then◌else◌, ok, err, range_error, type_error, pos, negsuc, integer, ℕ,
  zero, suc, ◌+◌, ◌-◌, ◌/◌, ◌%◌, ◌^◌, Bool, true, false, ◌&&◌, ◌||◌, not, Option, none, some, List,
  [], ◌∷◌, ◌++◌,
}
use open_rfc.UnicodeScalar.{text_eq, all_digits, parse_int}

abbrev pub int8_min : ℤ
int8_min = negsuc (2 ^ 63 - 1)

abbrev pub int8_max : ℤ
int8_max = pos (2 ^ 63 - 1)

pub data Mode : Type 0 where
  number_mode bigint_mode string_mode : Mode

-- The values that the functions tell apart: a number, a bigint, a string of code units, or another.
pub data Value : Type 0 where
  number_value : Number → Value
  bigint_value : ℤ → Value
  string_value : List ℕ → Value
  other_value : Value

-- "number", "bigint" and "string".
abbrev pub mode_names : List (List ℕ × Mode)
mode_names =
    (110 ∷ 117 ∷ 109 ∷ 98 ∷ 101 ∷ 114 ∷ [], number_mode)
    ∷ (98 ∷ 105 ∷ 103 ∷ 105 ∷ 110 ∷ 116 ∷ [], bigint_mode)
    ∷ (115 ∷ 116 ∷ 114 ∷ 105 ∷ 110 ∷ 103 ∷ [], string_mode)
    ∷ []

abbrev pub mode_named : List ℕ → List (List ℕ × Mode) → Option Mode
mode_named name [] = none
mode_named name (entry ∷ entries) =
    if text_eq name (entry.0) then some (entry.1) else mode_named name entries

-- `snapshotClassicInt8Mode`; `none` is undefined.
unfoldable pub snapshot_classic_int8_mode : Option Value → Result JsError Mode
snapshot_classic_int8_mode none = ok bigint_mode
snapshot_classic_int8_mode (some (string_value s)) = or_throw (mode_named s mode_names) type_error
snapshot_classic_int8_mode (some (number_value v)) = err type_error
snapshot_classic_int8_mode (some (bigint_value z)) = err type_error
snapshot_classic_int8_mode (some other_value) = err type_error

unfoldable pub assert_signed_int8 : ℤ → Result JsError ℤ
assert_signed_int8 value = do
  guard (leb_ℤ int8_min value && leb_ℤ value int8_max) range_error
  ok value

-- `[1-9][0-9]*`
abbrev pub is_positive_run : List ℕ → Bool
is_positive_run [] = false
is_positive_run (c ∷ cs) = (leb 49 c && leb c 57) && all_digits 10 cs

-- `CANONICAL_SIGNED_DECIMAL`: a zero, or a run that begins with a digit from 1 on, with a minus sign
-- before it or not.
abbrev pub is_canonical : List ℕ → Bool
is_canonical [] = false
is_canonical (c ∷ cs) =
    text_eq (c ∷ cs) (48 ∷ []) || ((c == 45) && is_positive_run cs) || is_positive_run (c ∷ cs)

abbrev pub negate : ℕ → ℤ
negate zero = pos 0
negate (suc n) = negsuc n

-- `BigInt(text)` on a canonical text.
abbrev pub big_int : List ℕ → ℤ
big_int [] = pos 0
big_int (c ∷ cs) = if c == 45 then negate (parse_int 10 0 cs) else pos (parse_int 10 0 (c ∷ cs))

-- The decimal digits of a number, of at most one more than the fuel.
abbrev pub decimal : ℕ → ℕ → List ℕ
decimal zero n = (48 + n % 10) ∷ []
decimal (suc fuel) n = elim (ltb n 10) [
  | true ↦ (48 + n) ∷ []
  | false ↦ decimal fuel (n / 10) ++ ((48 + n % 10) ∷ [])
]

-- `value.toString()` for a 64-bit integer, which has at most 19 digits.
abbrev pub to_text : ℤ → List ℕ
to_text (pos n) = decimal 18 n
to_text (negsuc n) = 45 ∷ decimal 18 (suc n)

-- A number that `Number.isSafeInteger` accepts.
abbrev pub safe_integer : Number → Option ℤ
safe_integer v = integer_in v (negsuc (max_safe - 1)) (pos max_safe)

-- `encodeClassicInt8`.
unfoldable pub encode_classic_int8 : Value → Mode → Result JsError ℤ
encode_classic_int8 (number_value v) number_mode = do
  z ← or_throw (safe_integer v) range_error
  assert_signed_int8 z
encode_classic_int8 (bigint_value z) number_mode = err range_error
encode_classic_int8 (string_value s) number_mode = err range_error
encode_classic_int8 other_value number_mode = err range_error
encode_classic_int8 (number_value v) bigint_mode = do
  z ← or_throw (safe_integer v) range_error
  assert_signed_int8 z
encode_classic_int8 (bigint_value z) bigint_mode = assert_signed_int8 z
encode_classic_int8 (string_value s) bigint_mode = err range_error
encode_classic_int8 other_value bigint_mode = err range_error
encode_classic_int8 (number_value v) string_mode = err type_error
encode_classic_int8 (bigint_value z) string_mode = err type_error
encode_classic_int8 (string_value s) string_mode = do
  guard (not (ltb 20 (length s) || not (is_canonical s))) type_error
  assert_signed_int8 (big_int s)
encode_classic_int8 other_value string_mode = err type_error

-- `decodeClassicInt8`. `Number` is exact on the safe integers, and takes no other integer to one.
unfoldable pub decode_classic_int8 : ℤ → Mode → Result JsError Value
decode_classic_int8 value bigint_mode = do z ← assert_signed_int8 value; ok (bigint_value z)
decode_classic_int8 value string_mode = do
  z ← assert_signed_int8 value
  ok (string_value (to_text z))
decode_classic_int8 value number_mode = do
  z ← assert_signed_int8 value
  projected ← or_throw (safe_integer (integer z)) range_error
  ok (number_value (integer projected))

-- `classicInt8InitialValue`.
unfoldable pub classic_int8_initial_value : Mode → Value
classic_int8_initial_value number_mode = number_value (natural 0)
classic_int8_initial_value bigint_mode = bigint_value (pos 0)
classic_int8_initial_value string_mode = string_value (48 ∷ [])
