-- ===== src/Lz4/Copy.antt =====
-- Matches: a stretch of the source that repeats an earlier one.
use native.Mathlib.Nat.{add-zero}
use native.Mathlib.Decide.{dec_lt}
use open_rfc.Bytes.Words.{le_value, IsByte}
use open_rfc.Common.{
  length, get_elem?, take, drop, All, length-take, length-drop, get_elem?-lt, get_elem?-take,
  take-suc, All-drop, All-take, get_elem?-drop_add, Bool-cases, ok, ℕ, zero, suc, ◌+◌, ◌-◌, ◌≤◌,
  ◌<◌, ◌≡◌, refl, sym, ap, ◌∙◌, inl, inr, true, Option, none, some, List, [], ◌∷◌, arith,
}
use open_rfc.Lz4.Decode.{copy_match}
use open_rfc.Lz4.Encode.{same_byte, extend_match}
use open_rfc.Lz4.Unchecked.{word_at_offset}

-- The `m` bytes from `p` on are those from `c` on.
abbrev pub Repeats : List ℕ → ℕ → ℕ → ℕ → Type 0
Repeats source c p m = (i : ℕ) → i < m → get_elem? source (c + i) ≡ get_elem? source (p + i)

Repeats-tail :
    (source : List ℕ) (c p m : ℕ) → Repeats source c p (suc m) → Repeats source (suc c) (suc p) m
Repeats-tail source c p m r i h =
    ap (get_elem? source) a ∙ (r (suc i) (omega arith) ∙ ap (get_elem? source) b)
  where
    a : suc c + i ≡ c + suc i
    a = omega arith

    b : p + suc i ≡ suc p + i
    b = omega arith

Repeats-head :
    (source : List ℕ) (c p m : ℕ)
    → Repeats source c p (suc m)
    → get_elem? source c ≡ get_elem? source p
Repeats-head source c p m r =
    ap (get_elem? source) (sym (add-zero c))
    ∙ (r 0 (omega arith) ∙ ap (get_elem? source) (add-zero p))

-- Copying a repeated stretch from the output extends the output by the source's own bytes, also
-- where the stretch overlaps itself.
pub copy_match-take :
    (m d c p : ℕ) (source : List ℕ)
    → d + c ≡ p
    → 0 < d
    → p + m ≤ length source
    → Repeats source c p m
    → copy_match m d (take p source) ≡ ok (take (p + m) source)
unfolding copy_match
copy_match-take zero d c p source e h l r = ap (λ (i : ℕ). ok (take i source)) (omega arith)
copy_match-take (suc m) d c p source e h l r =
    let (b, eb) = get_elem?-lt source p (omega arith) in
    let at : length (take p source) - d ≡ c = omega (arith, length-take p source) in
    let byte : get_elem? (take p source) c ≡ some b =
      get_elem?-take p source c (omega arith) ∙ (Repeats-head source c p m r ∙ eb) in
    rw (at, byte, copy_match, ← take-suc p source b eb)
      (copy_match-take m d (suc c) (suc p) source (omega arith) h (omega arith)
          (Repeats-tail source c p m r)
        ∙ ap (λ (i : ℕ). ok (take i source)) last)
  where
    last : suc p + m ≡ p + suc m
    last = omega arith

same_byte_sound : (a b : Option ℕ) → same_byte a b ≡ true → a ≡ b
same_byte_sound none none h = refl
same_byte_sound none (some b) h = cc
same_byte_sound (some a) none h = cc
same_byte_sound (some a) (some b) h = ground arith

Repeats-suc :
    (source : List ℕ) (c p m : ℕ)
    → Repeats source c p m
    → get_elem? source (c + m) ≡ get_elem? source (p + m)
    → Repeats source c p (m + 1)
Repeats-suc source c p m r e i h = elim (dec_lt i m) [
  | yes lower ↦ r i lower
  | no top ↦ let same : i ≡ m = omega arith in rw same e
]

-- A match that is lengthened stays a match, and ends within what was left.
pub extend_match-Repeats :
    (source : List ℕ) (c p left m : ℕ)
    → Repeats source c p m
    → let m' = extend_match source c p left m in Repeats source c p m' × (m ≤ m') × (m' ≤ m + left)
unfolding extend_match
extend_match-Repeats source c p zero m r = (r, omega arith, omega arith)
extend_match-Repeats source c p (suc left) m r =
    elim (Bool-cases (same_byte (get_elem? source (c + m)) (get_elem? source (p + m)))) [
      | inl more ↦
          let (r', lo, hi) =
            extend_match-Repeats source c p left (m + 1)
              (Repeats-suc source c p m r (same_byte_sound _ _ more)) in
          rw (more, extend_match) (r', omega arith, omega arith)
      | inr stop ↦ rw (stop, extend_match) (r, omega arith, omega arith)
    ]

le_value_injective :
    (xs ys : List ℕ)
    → length xs ≡ length ys
    → All IsByte xs
    → All IsByte ys
    → le_value xs ≡ le_value ys
    → xs ≡ ys
le_value_injective [] [] l h k e = refl
le_value_injective [] (y ∷ ys) l h k e = absurd (omega arith)
le_value_injective (x ∷ xs) [] l h k e = absurd (omega arith)
le_value_injective (x ∷ xs) (y ∷ ys) l h k e =
    let head : x ≡ y = omega arith in
    let rest = le_value_injective xs ys (omega arith) h.1 k.1 (omega arith) in cc

-- Two equal 32-bit reads are four equal bytes.
pub word_at_offset-Repeats :
    (source : List ℕ) (c p : ℕ)
    → All IsByte source
    → c + 4 ≤ length source
    → p + 4 ≤ length source
    → word_at_offset source c ≡ word_at_offset source p
    → Repeats source c p 4
word_at_offset-Repeats source c p bytes hc hp e i h =
    let same =
      le_value_injective (take 4 (drop c source)) (take 4 (drop p source))
        (omega (
          arith,
          length-take 4 (drop c source),
          length-take 4 (drop p source),
          length-drop c source,
          length-drop p source,
        ))
        (All-take _ 4 (drop c source) (All-drop _ c source bytes))
        (All-take _ 4 (drop p source) (All-drop _ p source bytes)) e in
    sym (byte_at c) ∙ (ap (λ l. get_elem? l i) same ∙ byte_at p)
  where
    byte_at : (j : ℕ) → get_elem? (take 4 (drop j source)) i ≡ get_elem? source (j + i)
    byte_at j = get_elem?-take 4 (drop j source) i h ∙ get_elem?-drop_add j i source
