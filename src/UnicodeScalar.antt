-- ===== src/UnicodeScalar.antt =====
-- src/values/unicode-scalar.ts: the admission of texts, and XML character references.
-- A string is the list of its UTF-16 code units. The `path` arguments only word the messages of
-- errors, and are left out.
pub mod Scalars
pub mod References
mod Tests
use open_rfc.Common.{
  length, take, drop, Result, ◌>>=◌, ◌>>◌, guard, or_throw, JsError, ltb, leb, ◌==◌, if◌then◌else◌,
  ok, err, range_error, general_error, ℕ, suc, ◌+◌, ◌-◌, ◌*◌, Bool, true, false, ◌&&◌, ◌||◌, not,
  Option, none, some, List, [], ◌∷◌,
}

abbrev pub is_high_surrogate : ℕ → Bool
is_high_surrogate c = leb 0xd800 c && leb c 0xdbff

abbrev pub is_low_surrogate : ℕ → Bool
is_low_surrogate c = leb 0xdc00 c && leb c 0xdfff

-- `assertUnicodeScalarText`: the loop, on the code units from the index on. A code unit past the
-- end is NaN, which is no low surrogate.
unfoldable pub assert_unicode_scalar_text : List ℕ → Result JsError (Unit {0})
assert_unicode_scalar_text [] = ok tt
assert_unicode_scalar_text (c ∷ []) =
    guard (not (is_high_surrogate c) && not (is_low_surrogate c)) range_error
assert_unicode_scalar_text (c ∷ d ∷ ds) = elim (is_high_surrogate c) [
  | true ↦ elim (is_low_surrogate d) [
    | true ↦ assert_unicode_scalar_text ds
    | false ↦ err range_error
  ]
  | false ↦ elim (is_low_surrogate c) [
    | true ↦ err range_error
    | false ↦ assert_unicode_scalar_text (d ∷ ds)
  ]
]

-- `value.includes(c)`
abbrev pub includes : ℕ → List ℕ → Bool
includes c [] = false
includes c (x ∷ xs) = (x == c) || includes c xs

unfoldable pub assert_nul_free_unicode_scalar_text : List ℕ → Result JsError (Unit {0})
assert_nul_free_unicode_scalar_text value = do
  assert_unicode_scalar_text value
  guard (not (includes 0 value)) range_error

abbrev pub maximum_character_reference_run : ℕ
maximum_character_reference_run = 32

-- The value of a hexadecimal digit, which is a decimal digit if it is below 10.
abbrev pub digit_value : ℕ → Option ℕ
digit_value c =
    if leb 48 c && leb c 57
    then some (c - 48)
    else if leb 65 c && leb c 70
    then some (c - 55)
    else if leb 97 c && leb c 102
    then some (c - 87)
    else none

abbrev pub is_digit : ℕ → ℕ → Bool
is_digit radix c = elim (digit_value c) [ none ↦ false | some v ↦ ltb v radix ]

abbrev pub all_digits : ℕ → List ℕ → Bool
all_digits radix [] = true
all_digits radix (c ∷ cs) = is_digit radix c && all_digits radix cs

-- `DECIMAL_RUN` and `HEXADECIMAL_RUN`, for the radix 10 and the radix 16.
abbrev pub is_run : ℕ → List ℕ → Bool
is_run radix [] = false
is_run radix (c ∷ cs) = all_digits radix (c ∷ cs)

-- `digits.replace(/^0+/u, "")`
abbrev pub strip_zeros : List ℕ → List ℕ
strip_zeros [] = []
strip_zeros (c ∷ cs) = elim (c == 48) [ true ↦ strip_zeros cs | false ↦ c ∷ cs ]

-- `Number.parseInt` on a run of digits. It is exact below 2^53; what it rounds is larger than any
-- code point, and stays so.
abbrev pub parse_int : ℕ → ℕ → List ℕ → ℕ
parse_int radix acc [] = acc
parse_int radix acc (c ∷ cs) =
    parse_int radix (acc * radix + elim (digit_value c) [ none ↦ 0 | some v ↦ v ]) cs

-- `significant || "0"`
abbrev pub or_zero : List ℕ → List ℕ
or_zero [] = 48 ∷ []
or_zero (c ∷ cs) = c ∷ cs

unfoldable pub character_reference_value : List ℕ → ℕ → Result JsError ℕ
character_reference_value digits radix = do
  guard (not (ltb maximum_character_reference_run (length digits) || not (is_run radix digits)))
      general_error
  ok (parse_int radix 0 (or_zero (strip_zeros digits)))

abbrev pub text_eq : List ℕ → List ℕ → Bool
text_eq [] [] = true
text_eq [] (y ∷ ys) = false
text_eq (x ∷ xs) [] = false
text_eq (x ∷ xs) (y ∷ ys) = (x == y) && text_eq xs ys

-- `NAMED_XML_ENTITY_CODE_POINTS`: amp, lt, gt, quot and apos.
abbrev pub named_xml_entity_code_points : List (List ℕ × ℕ)
named_xml_entity_code_points =
    (97 ∷ 109 ∷ 112 ∷ [], 0x26)
    ∷ (108 ∷ 116 ∷ [], 0x3c)
    ∷ (103 ∷ 116 ∷ [], 0x3e)
    ∷ (113 ∷ 117 ∷ 111 ∷ 116 ∷ [], 0x22)
    ∷ (97 ∷ 112 ∷ 111 ∷ 115 ∷ [], 0x27)
    ∷ []

abbrev pub lookup_text : List ℕ → List (List ℕ × ℕ) → Option ℕ
lookup_text key [] = none
lookup_text key (entry ∷ entries) =
    if text_eq key (entry.0) then some (entry.1) else lookup_text key entries

-- `text.indexOf(c)`
abbrev pub index_of : ℕ → List ℕ → Option ℕ
index_of c [] = none
index_of c (x ∷ xs) = elim (x == c) [
  | true ↦ some 0
  | false ↦ elim (index_of c xs) [ none ↦ none | some i ↦ some (suc i) ]
]

-- The code point that the text between `&` and `;` stands for: `#`, and `x` after it, begin a
-- character reference.
unfoldable pub entity_code_point : List ℕ → Result JsError ℕ
entity_code_point [] = err general_error
entity_code_point (c ∷ rest) =
    if not (c == 35)
    then or_throw (lookup_text (c ∷ rest) named_xml_entity_code_points) general_error
    else elim rest [
      | [] ↦ character_reference_value [] 10
      | d ∷ digits ↦
          if d == 120
          then character_reference_value digits 16
          else character_reference_value (d ∷ digits) 10
    ]

-- `decodeXmlEntityReference`: the code point, and the length of the reference.
unfoldable pub decode_xml_entity_reference : List ℕ → ℕ → Result JsError (ℕ × ℕ)
decode_xml_entity_reference raw start = do
  let after = drop (start + 1) raw
  body_length ← or_throw (index_of 59 after) general_error
  code_point ← entity_code_point (take body_length after)
  guard (not (ltb 0x10ffff code_point || (leb 0xd800 code_point && leb code_point 0xdfff)))
      general_error
  ok (code_point, body_length + 2)
