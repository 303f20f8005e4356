-- ===== src/UnicodeScalar/Scalars.antt =====
-- The texts that `assertUnicodeScalarText` admits are the UTF-16 forms of Unicode scalar values.
use native.Mathlib.Decide.{dec_lt}
use open_rfc.UnicodeScalar.{is_low_surrogate, is_high_surrogate, assert_unicode_scalar_text}
use open_rfc.Common.{
  All, ltb, if◌then◌else◌, lt→ltb, le→ltb, Bool-cases, ok, err, range_error, ℕ, ◌+◌, ◌-◌, ◌*◌, ◌/◌,
  ◌%◌, ◌^◌, ◌≤◌, ◌<◌, ◌≡◌, refl, sym, ap, ap₂, ◌∙◌, ◌↔◌, ◌⊎◌, inl, inr, true, false, List, [], ◌∷◌,
  ◌++◌, arith,
}

abbrev pub IsScalar : ℕ → Type 0
IsScalar s = (s < 0xd800) ⊎ ((0xe000 ≤ s) × (s ≤ 0x10ffff))

-- The code units of a scalar value.
abbrev pub units : ℕ → List ℕ
units s =
    if ltb s 0x10000
    then s ∷ []
    else (0xd800 + (s - 0x10000) / 1024) ∷ (0xdc00 + (s - 0x10000) % 1024) ∷ []

abbrev pub utf16 : List ℕ → List ℕ
utf16 [] = []
utf16 (s ∷ ss) = units s ++ utf16 ss

abbrev pub IsUnit : ℕ → Type 0
IsUnit c = c < 2 ^ 16

assert_plain :
    (c : ℕ) (cs : List ℕ)
    → is_high_surrogate c ≡ false
    → is_low_surrogate c ≡ false
    → assert_unicode_scalar_text (c ∷ cs) ≡ assert_unicode_scalar_text cs
unfolding assert_unicode_scalar_text
assert_plain c [] h l = rw (h, l)
assert_plain c (d ∷ ds) h l = rw (h, l, assert_unicode_scalar_text) refl

assert_pair :
    (c d : ℕ) (ds : List ℕ)
    → is_high_surrogate c ≡ true
    → is_low_surrogate d ≡ true
    → assert_unicode_scalar_text (c ∷ d ∷ ds) ≡ assert_unicode_scalar_text ds
unfolding assert_unicode_scalar_text
assert_pair c d ds h l = rw (h, l, assert_unicode_scalar_text) refl

assert_unpaired :
    (c d : ℕ) (ds : List ℕ)
    → is_high_surrogate c ≡ true
    → is_low_surrogate d ≡ false
    → assert_unicode_scalar_text (c ∷ d ∷ ds) ≡ err range_error
unfolding assert_unicode_scalar_text
assert_unpaired c d ds h l = rw (h, l, assert_unicode_scalar_text) refl

assert_lone :
    (c d : ℕ) (ds : List ℕ)
    → is_high_surrogate c ≡ false
    → is_low_surrogate c ≡ true
    → assert_unicode_scalar_text (c ∷ d ∷ ds) ≡ err range_error
unfolding assert_unicode_scalar_text
assert_lone c d ds h l = rw (h, l, assert_unicode_scalar_text) refl

assert_units :
    (s : ℕ) (rest : List ℕ)
    → IsScalar s
    → assert_unicode_scalar_text (units s ++ rest) ≡ assert_unicode_scalar_text rest
assert_units s rest h = elim (dec_lt s 0x10000) [
  | yes b ↦ rw (lt→ltb s 0x10000 b) (assert_plain s rest (ground arith) (ground arith))
  | no b ↦ rw (le→ltb s 0x10000 (omega arith)) (assert_pair _ _ rest (ground arith) (ground arith))
]

assert_utf16 : (ss : List ℕ) → All IsScalar ss → assert_unicode_scalar_text (utf16 ss) ≡ ok tt
unfolding assert_unicode_scalar_text
assert_utf16 [] h = refl
assert_utf16 (s ∷ ss) h = assert_units s (utf16 ss) h.0 ∙ assert_utf16 ss h.1

abbrev pub Spelled : List ℕ → Type 0
Spelled text = (ss : List ℕ) × (All IsScalar ss × (utf16 ss ≡ text))

spell_one :
    (c : ℕ) (cs : List ℕ)
    → IsUnit c
    → is_high_surrogate c ≡ false
    → is_low_surrogate c ≡ false
    → Spelled cs
    → Spelled (c ∷ cs)
spell_one c cs u h l (ss, (a, e)) =
    (c ∷ ss, ((scalar, a), rw (lt→ltb c 0x10000 u) (ap (λ t. c ∷ t) e)))
  where
    scalar : IsScalar c
    scalar = ground arith

-- The scalar value of a surrogate pair has the pair for its code units.
join_pair :
    (c d : ℕ)
    → 0xd800 ≤ c
    → c ≤ 0xdbff
    → 0xdc00 ≤ d
    → d ≤ 0xdfff
    → (s : ℕ) × (IsScalar s × (units s ≡ c ∷ d ∷ []))
join_pair c d c₀ c₁ d₀ d₁ = (
  0x10000 + ((c - 0xd800) * 1024 + (d - 0xdc00)),
  (
    inr (omega arith, omega arith),
    rw (le→ltb (0x10000 + ((c - 0xd800) * 1024 + (d - 0xdc00))) 0x10000 (omega arith))
        (ap₂ (λ (x y : ℕ). x ∷ y ∷ []) (omega arith) (omega arith)),
  ),
)

spell_two :
    (c d : ℕ) (ds : List ℕ)
    → is_high_surrogate c ≡ true
    → is_low_surrogate d ≡ true
    → Spelled ds
    → Spelled (c ∷ d ∷ ds)
spell_two c d ds h l (ss, (a, e)) =
    let (s, (k, u)) = join_pair c d (ground arith) (ground arith) (ground arith) (ground arith) in
    (s ∷ ss, ((k, a), ap (λ t. t ++ utf16 ss) u ∙ ap (λ t. c ∷ d ∷ t) e))

admitted-Spelled :
    (text : List ℕ) → All IsUnit text → assert_unicode_scalar_text text ≡ ok tt → Spelled text
unfolding assert_unicode_scalar_text
admitted-Spelled [] u h = ([], (tt, refl))
admitted-Spelled (c ∷ []) u h = spell_one c [] u.0 (ground arith) (ground arith) ([], (tt, refl))
admitted-Spelled (c ∷ d ∷ ds) u h = elim (Bool-cases (is_high_surrogate c)) [
  | inl hc ↦ elim (Bool-cases (is_low_surrogate d)) [
    | inl ld ↦
        spell_two c d ds hc ld (admitted-Spelled ds u.1.1 (sym (assert_pair c d ds hc ld) ∙ h))
    | inr ld ↦ absurd (let e = assert_unpaired c d ds hc ld in cc)
  ]
  | inr hc ↦ elim (Bool-cases (is_low_surrogate c)) [
    | inl lc ↦ absurd (let e = assert_lone c d ds hc lc in cc)
    | inr lc ↦
        spell_one c (d ∷ ds) u.0 hc lc
          (admitted-Spelled (d ∷ ds) u.1 (sym (assert_plain c (d ∷ ds) hc lc) ∙ h))
  ]
]

-- `assertUnicodeScalarText` admits a text of 16-bit code units exactly if the text is the UTF-16
-- form of a list of Unicode scalar values.
pub assert_unicode_scalar_text-Spelled :
    (text : List ℕ)
    → All IsUnit text
    → (assert_unicode_scalar_text text ≡ ok tt)
      ↔ ((ss : List ℕ) × (All IsScalar ss × (utf16 ss ≡ text)))
assert_unicode_scalar_text-Spelled text u =
    (admitted-Spelled text u, λ h. rw (sym h.1.1) (assert_utf16 h.0 h.1.0))
