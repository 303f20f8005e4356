-- ===== src/Int8/RoundTrip.antt =====
-- What `decodeClassicInt8` projects is normalized back to the same integer.
use open_rfc.Int8.Decimal.{length-decimal, parse_int-decimal, is_positive_run-decimal, HasDigits}
use open_rfc.Common.{
  length, ℤ, leb_ℤ, or_throw, >>=-eq-ok, ok_inj, ◌==◌, le→ltb, Bool-cases, ok, err, range_error,
  pos, negsuc, integer, ℕ, zero, suc, ◌^◌, ◌≤◌, ◌<◌, ◌≡◌, refl, sym, ap, ◌∙◌, inl, inr, true, false,
  ◌&&◌, some, List, [], ◌∷◌, arith,
}
use open_rfc.UnicodeScalar.{parse_int}
use open_rfc.Int8.{
  negate, decimal, number_value, number_mode, bigint_mode, string_mode, int8_max, int8_min,
  is_canonical, to_text, string_value, safe_integer, assert_signed_int8, is_positive_run, big_int,
  encode_classic_int8, decode_classic_int8, Mode, Value,
}

assert_signed_int8-id :
    (z y : ℤ) → assert_signed_int8 z ≡ ok y → (z ≡ y) × (assert_signed_int8 z ≡ ok z)
unfolding assert_signed_int8
assert_signed_int8-id z y h = elim (Bool-cases (leb_ℤ int8_min z && leb_ℤ z int8_max)) [
  | inl e ↦ let k : assert_signed_int8 z ≡ ok z = rw e refl in (ok_inj (sym k ∙ h), k)
  | inr e ↦ absurd (let k : assert_signed_int8 z ≡ err range_error = rw e refl in cc)
]

-- The digits that an admitted integer has fit in 19.
magnitude_pos : (n : ℕ) (y : ℤ) → assert_signed_int8 (pos n) ≡ ok y → n < 2 ^ 63
unfolding assert_signed_int8
magnitude_pos n y h = ground arith

magnitude_neg : (n : ℕ) (y : ℤ) → assert_signed_int8 (negsuc n) ≡ ok y → n < 2 ^ 63
unfolding assert_signed_int8
magnitude_neg n y h = ground arith

big_int-run : (xs : List ℕ) → is_positive_run xs ≡ true → big_int xs ≡ pos (parse_int 10 0 xs)
big_int-run [] h = absurd (cc)
big_int-run (c ∷ cs) h = let e : (c == 45) ≡ false = ground arith in rw e refl

is_canonical-run : (xs : List ℕ) → is_positive_run xs ≡ true → is_canonical xs ≡ true
is_canonical-run [] h = absurd (cc)
is_canonical-run (c ∷ cs) h = ground arith

is_canonical-minus : (xs : List ℕ) → is_positive_run xs ≡ true → is_canonical (45 ∷ xs) ≡ true
is_canonical-minus xs h = rw h refl

abbrev pub Readable : ℤ → Type 0
Readable z =
    (big_int (to_text z) ≡ z) × (is_canonical (to_text z) ≡ true) × (length (to_text z) ≤ 20)

to_text-Readable : (z : ℤ) → assert_signed_int8 z ≡ ok z → Readable z
to_text-Readable (pos zero) h = (refl, refl, omega arith)
to_text-Readable (pos (suc n)) h =
    let f : HasDigits 18 (suc n) = omega (arith, magnitude_pos (suc n) _ h) in
    let r = is_positive_run-decimal 18 (suc n) (omega arith) f in
    (
      big_int-run (decimal 18 (suc n)) r ∙ ap pos (parse_int-decimal 18 (suc n) f),
      is_canonical-run (decimal 18 (suc n)) r,
      omega (arith, length-decimal 18 (suc n)),
    )
to_text-Readable (negsuc n) h =
    let f : HasDigits 18 (suc n) = omega (arith, magnitude_neg n _ h) in
    let r = is_positive_run-decimal 18 (suc n) (omega arith) f in
    (
      ap negate (parse_int-decimal 18 (suc n) f),
      is_canonical-minus (decimal 18 (suc n)) r,
      omega (arith, length-decimal 18 (suc n)),
    )

encode_text :
    (z : ℤ)
    → assert_signed_int8 z ≡ ok z
    → encode_classic_int8 (string_value (to_text z)) string_mode ≡ ok z
unfolding encode_classic_int8
encode_text z h =
    let (b, c, l) = to_text-Readable z h in rw (le→ltb 20 (length (to_text z)) l, c, b) h

safe_integer-id : (z y : ℤ) → safe_integer (integer z) ≡ some y → z ≡ y
safe_integer-id z y h = ground arith

number_back :
    (z w : ℤ)
    → assert_signed_int8 z ≡ ok z
    → safe_integer (integer z) ≡ some w
    → encode_classic_int8 (number_value (integer z)) number_mode ≡ ok z
unfolding encode_classic_int8
number_back z w a p = rw (p, sym (safe_integer-id z w p)) a

-- Whatever the mode projects an integer to, the encoder of the same mode normalizes back to that
-- integer.
pub encode_classic_int8-decode_classic_int8 :
    (z : ℤ) (mode : Mode) (v : Value)
    → decode_classic_int8 z mode ≡ ok v
    → encode_classic_int8 v mode ≡ ok z
unfolding decode_classic_int8 encode_classic_int8
encode_classic_int8-decode_classic_int8 z bigint_mode v h =
    let (y, e, k) = >>=-eq-ok (assert_signed_int8 z) _ h in
    let (zy, a) = assert_signed_int8-id z y e in rw (sym (ok_inj k), sym zy) a
encode_classic_int8-decode_classic_int8 z string_mode v h =
    let (y, e, k) = >>=-eq-ok (assert_signed_int8 z) _ h in
    let (zy, a) = assert_signed_int8-id z y e in rw (sym (ok_inj k), sym zy) (encode_text z a)
encode_classic_int8-decode_classic_int8 z number_mode v h =
    let (y, e, k) = >>=-eq-ok (assert_signed_int8 z) _ h in
    let (zy, a) = assert_signed_int8-id z y e in
    let (w, g, j) = >>=-eq-ok (or_throw (safe_integer (integer y)) range_error) _ k in
    let p : safe_integer (integer y) ≡ some w = ground arith in
    rw (sym (ok_inj j), sym (safe_integer-id y w p), sym zy) (number_back z w a (rw zy p))
