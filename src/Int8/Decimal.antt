-- ===== src/Int8/Decimal.antt =====
-- The decimal text of a number: its digits, its length and its value.
use native.Mathlib.Decide.{dec_lt}
use open_rfc.Common.{
  length, length-append, lt→ltb, le→ltb, ℕ, zero, suc, ◌+◌, ◌*◌, ◌/◌, ◌%◌, ◌^◌, ◌≤◌, ◌<◌, ◌≡◌, refl,
  true, List, [], ◌∷◌, ◌++◌, arith,
}
use open_rfc.UnicodeScalar.{all_digits, parse_int}
use open_rfc.Int8.{decimal, is_positive_run}

parse_int-append :
    (xs : List ℕ) (acc d : ℕ)
    → d < 10
    → parse_int 10 acc (xs ++ ((48 + d) ∷ [])) ≡ parse_int 10 acc xs * 10 + d
parse_int-append [] acc d h = ground arith
parse_int-append (x ∷ xs) acc d h = parse_int-append xs _ d h

all_digits-append :
    (xs ys : List ℕ)
    → all_digits 10 xs ≡ true
    → all_digits 10 ys ≡ true
    → all_digits 10 (xs ++ ys) ≡ true
all_digits-append [] ys h k = k
all_digits-append (x ∷ xs) ys h k =
    let r : all_digits 10 xs ≡ true = ground arith in
    let e : all_digits 10 (xs ++ ys) ≡ true = all_digits-append xs ys r k in ground arith

-- `n` has at most `suc fuel` digits.
abbrev pub HasDigits : ℕ → ℕ → Type 0
HasDigits fuel n = n < 10 ^ suc fuel

decimal_step :
    (fuel n : ℕ) → 10 ≤ n → decimal (suc fuel) n ≡ decimal fuel (n / 10) ++ ((48 + n % 10) ∷ [])
decimal_step fuel n h = rw (le→ltb n 10 h, decimal) refl

decimal_one : (fuel n : ℕ) → n < 10 → decimal (suc fuel) n ≡ (48 + n) ∷ []
decimal_one fuel n h = rw (lt→ltb n 10 h, decimal) refl

pub parse_int-decimal : (fuel n : ℕ) → HasDigits fuel n → parse_int 10 0 (decimal fuel n) ≡ n
parse_int-decimal zero n h = ground arith
parse_int-decimal (suc fuel) n h = elim (dec_lt n 10) [
  | yes l ↦ rw (decimal_one fuel n l) (ground arith)
  | no l ↦
      let q : HasDigits fuel (n / 10) = omega arith in
      rw
        (
          decimal_step fuel n (omega arith),
          parse_int-append (decimal fuel (n / 10)) 0 (n % 10) (omega arith),
          parse_int-decimal fuel (n / 10) q,
        )
        (omega arith)
]

pub length-decimal : (fuel n : ℕ) → length (decimal fuel n) ≤ suc fuel
length-decimal zero n = omega arith
length-decimal (suc fuel) n = elim (dec_lt n 10) [
  | yes l ↦ rw (decimal_one fuel n l) (omega arith)
  | no l ↦ rw (decimal_step fuel n (omega arith)) (
      omega (
        arith,
        length-decimal fuel (n / 10),
        length-append (decimal fuel (n / 10)) ((48 + n % 10) ∷ []),
      ))
]

is_positive_run-append :
    (xs ys : List ℕ)
    → is_positive_run xs ≡ true
    → all_digits 10 ys ≡ true
    → is_positive_run (xs ++ ys) ≡ true
is_positive_run-append [] ys h k = absurd (cc)
is_positive_run-append (x ∷ xs) ys h k =
    let r : all_digits 10 xs ≡ true = ground arith in
    let e : all_digits 10 (xs ++ ys) ≡ true = all_digits-append xs ys r k in ground arith

pub is_positive_run-decimal :
    (fuel n : ℕ) → 0 < n → HasDigits fuel n → is_positive_run (decimal fuel n) ≡ true
is_positive_run-decimal zero n p h = ground arith
is_positive_run-decimal (suc fuel) n p h = elim (dec_lt n 10) [
  | yes l ↦ rw (decimal_one fuel n l) (ground arith)
  | no l ↦
      let q : HasDigits fuel (n / 10) = omega arith in
      rw (decimal_step fuel n (omega arith)) (
        is_positive_run-append (decimal fuel (n / 10)) ((48 + n % 10) ∷ [])
          (is_positive_run-decimal fuel (n / 10) (omega arith) q) (ground arith))
]
