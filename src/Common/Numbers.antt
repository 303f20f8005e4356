-- ===== src/Common/Numbers.antt =====
-- The JavaScript numbers as far as the code looks at them: an integer, or a number that
-- `Number.isSafeInteger` refuses whatever its value (a fraction, NaN or an infinity).
use native.Mathlib.Omega.{arith}
use mathlib.Core.Path.{◌≡◌}
use Prim.Native.Nat.{◌≤◌, ◌<◌, ℕ, ◌-◌, ◌^◌}
use mathlib.Core.Bool.{Bool, true, false, ◌&&◌}
use mathlib.Core.Option.{Option, none, some}
use open_rfc.Common.Tests.{leb, if◌then◌else◌}

-- `negsuc n` is -(n + 1).
pub data ℤ : Type 0 where
  pos : ℕ → ℤ
  negsuc : ℕ → ℤ

abbrev pub leb_ℤ : ℤ → ℤ → Bool
leb_ℤ (pos a) (pos b) = leb a b
leb_ℤ (pos a) (negsuc b) = false
leb_ℤ (negsuc a) (pos b) = true
leb_ℤ (negsuc a) (negsuc b) = leb b a

pub data Number : Type 0 where
  integer : ℤ → Number
  not_integer : Number

abbrev pub max_safe : ℕ
max_safe = 2 ^ 53 - 1

abbrev pub natural : ℕ → Number
natural n = integer (pos n)

-- `value ?? fallback`.
abbrev pub or_default : Option Number → ℕ → Number
or_default none fallback = natural fallback
or_default (some v) fallback = v

-- `Number.isSafeInteger(v) && v >= lo && v <= hi`, with the integer.
abbrev pub integer_in : Number → ℤ → ℤ → Option ℤ
integer_in not_integer lo hi = none
integer_in (integer z) lo hi =
    if leb_ℤ (negsuc (max_safe - 1)) z && leb_ℤ z (pos max_safe) && leb_ℤ lo z && leb_ℤ z hi
    then some z
    else none

-- The same, for a range of natural numbers.
abbrev pub natural_in : Number → ℕ → ℕ → Option ℕ
natural_in not_integer lo hi = none
natural_in (integer (negsuc n)) lo hi = none
natural_in (integer (pos n)) lo hi = if leb n max_safe && leb lo n && leb n hi then some n else none

pub natural_in_range :
    (n lo hi : ℕ) → hi ≤ max_safe → lo ≤ n → n ≤ hi → natural_in (natural n) lo hi ≡ some n
natural_in_range n lo hi s l h = ground arith

pub natural_in_above : (n lo hi : ℕ) → hi < n → natural_in (natural n) lo hi ≡ none
natural_in_above n lo hi h = ground arith

pub integer_in_range :
    (n lo hi : ℕ)
    → hi ≤ max_safe
    → n ≤ hi
    → integer_in (natural n) (negsuc lo) (pos hi) ≡ some (pos n)
integer_in_range n lo hi s h = ground arith

pub natural_in_sound :
    (v : Number) (lo hi : ℕ) {n : ℕ} → natural_in v lo hi ≡ some n → (lo ≤ n) × (n ≤ hi)
natural_in_sound not_integer lo hi e = absurd (cc)
natural_in_sound (integer (negsuc m)) lo hi e = absurd (cc)
natural_in_sound (integer (pos m)) lo hi e = ground arith
