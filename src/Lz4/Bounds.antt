-- ===== src/Lz4/Bounds.antt =====
-- What the decoder does on any input at all.
use open_rfc.Common.{
  length, take, length-append, length-take, length-drop, get_elem?-lt, Number, max_safe, natural,
  or_default, natural_in, natural_in_sound, Result, ◌>>=◌, guard, or_throw, ltb, ◌==◌, ==_iff,
  Bool-cases, ok, err, pos, negsuc, integer, not_integer, ℕ, zero, suc, ◌+◌, ◌-◌, ◌/◌, ◌%◌, ◌≤◌,
  ◌<◌, ◌≡◌, refl, inl, inr, Bool, true, false, ◌||◌, not, Option, none, some, List, [], ◌∷◌, ◌++◌,
  arith,
}
use open_rfc.Lz4.Decode.{
  output_length_mismatch, output_limit_exceeded, input_limit_exceeded, max_encoded_block_length,
  invalid_length, DecodeOptions, decode_lz4_block, end_or_match, max_block_length, configured_limit,
  bounded_length, output_overrun, invalid_offset, truncated_input, read_extended_length,
  extend_length, read_match_offset, read_literals, copy_match, read_match, DecodeError, decode_loop,
  undefined_read, out_of_fuel,
}

-- The codes that the program has.
abbrev pub IsReported : DecodeError → Type 0
IsReported undefined_read = ⊥
IsReported out_of_fuel = ⊥
IsReported e = Unit {0}

-- The call returns a value with the property, or one of the program's codes.
abbrev pub Ends {ℓ} : {A : Type ℓ} → (A → Type 0) → Result DecodeError A → Type 0
Ends P (ok a) = P a
Ends P (err e) = IsReported e

Ends-bind {ℓ κ} :
    {A : Type ℓ} {B : Type κ} (P : A → Type 0) (Q : B → Type 0) (m : Result DecodeError A)
    (f : A → Result DecodeError B)
    → Ends P m
    → ((a : A) → P a → Ends Q (f a))
    → Ends Q (m >>= f)
Ends-bind P Q (ok a) f h k = k a h
Ends-bind P Q (err e) f h k = h

Ends-guard : (b : Bool) (e : DecodeError) → IsReported e → Ends (λ _. b ≡ true) (guard b e)
Ends-guard true e h = refl
Ends-guard false e h = h

Ends-or_throw :
    (o : Option ℕ) (e : DecodeError) → IsReported e → Ends (λ n. o ≡ some n) (or_throw o e)
Ends-or_throw none e h = h
Ends-or_throw (some n) e h = refl

not-ltb : (a b : ℕ) → not (ltb a b) ≡ true → b ≤ a
not-ltb a b h = ground arith

extend_length-Ends :
    (limit len : ℕ) (source : List ℕ)
    → Ends (λ p. length p.1 ≤ length source) (extend_length limit len source)
unfolding extend_length
extend_length-Ends limit len [] = tt
extend_length-Ends limit len (x ∷ source) =
    elim (Bool-cases (ltb max_safe (len + x) || ltb limit (len + x))) [
      | inl over ↦ rw (over, extend_length) tt
      | inr fits ↦ elim (Bool-cases (x == 0xff)) [
        | inr last ↦ rw (fits, last, extend_length) (omega arith)
        | inl more ↦
            rw (fits, more, extend_length)
              (Ends-mono (extend_length limit (len + x) source) (length source)
                (suc (length source)) (omega arith) (extend_length-Ends limit (len + x) source))
      ]
    ]
  where
    Ends-mono :
        (r : Result DecodeError (ℕ × List ℕ)) (a b : ℕ)
        → a ≤ b
        → Ends (λ p. length p.1 ≤ a) r
        → Ends (λ p. length p.1 ≤ b) r
    Ends-mono (ok p) a b h e = omega arith
    Ends-mono (err x) a b h e = e

read_extended_length-Ends :
    (limit base : ℕ) (source : List ℕ)
    → Ends (λ p. length p.1 ≤ length source) (read_extended_length limit base source)
unfolding read_extended_length
read_extended_length-Ends limit base source = elim (Bool-cases (base == 15)) [
  | inl long ↦ rw long (extend_length-Ends limit base source)
  | inr short ↦ rw short (omega arith)
]

-- A match that starts in the output that was written copies only bytes that were written.
copy_match-Ends :
    (n offset : ℕ) (out : List ℕ)
    → 0 < offset
    → offset ≤ length out
    → Ends (λ o. length o ≡ length out + n) (copy_match n offset out)
unfolding copy_match
copy_match-Ends zero offset out h k = omega arith
copy_match-Ends (suc n) offset out h k =
    let (b, e) = get_elem?-lt out (length out - offset) (omega arith) in
    rw (e, copy_match)
      (grow b (copy_match n offset (out ++ (b ∷ [])))
        (copy_match-Ends n offset (out ++ (b ∷ [])) h (omega (arith, length-append out (b ∷ []))))
        (length-append out (b ∷ [])))
  where
    grow :
        (b : ℕ) (r : Result DecodeError (List ℕ))
        → Ends (λ o. length o ≡ length (out ++ (b ∷ [])) + n) r
        → length (out ++ (b ∷ [])) ≡ length out + 1
        → Ends (λ o. length o ≡ length out + suc n) r
    grow b (ok o) e l = omega arith
    grow b (err x) e l = e

module _ (n limit : ℕ) where
  abbrev Within : ℕ → List ℕ × List ℕ → Type 0
  Within left p = (length p.0 ≤ left) × (length p.1 ≤ n)

  read_literals-Ends :
      (token : ℕ) (source out : List ℕ)
      → length out ≤ n
      → Ends (Within (length source)) (read_literals n limit token source out)
  unfolding read_literals
  read_literals-Ends token source out h =
      Ends-bind _ _ (read_extended_length limit (token / 16) source) _
        (read_extended_length-Ends limit (token / 16) source)
        λ (len, rest) l.
          Ends-bind _ _ (guard (not (ltb (length rest) len)) truncated_input) _
            (Ends-guard _ truncated_input tt)
            λ _ _.
              Ends-bind _ _ (guard (not (ltb (n - length out) len)) output_overrun) _
                (Ends-guard _ output_overrun tt)
                λ _ room. (
                  omega (arith, length-drop len rest),
                  omega (
                    arith,
                    length-append out (take len rest),
                    length-take len rest,
                    not-ltb (n - length out) len room,
                  ),
                )

  read_match_offset-Ends :
      (source : List ℕ) → Ends (λ p. length p.1 < length source) (read_match_offset source)
  unfolding read_match_offset
  read_match_offset-Ends [] = tt
  read_match_offset-Ends (lo ∷ []) = tt
  read_match_offset-Ends (lo ∷ hi ∷ rest) = omega arith

  read_match-Ends :
      (token : ℕ) (source out : List ℕ)
      → length out ≤ n
      → Ends (Within (length source)) (read_match n limit token source out)
  unfolding read_match
  read_match-Ends token source out h =
      Ends-bind _ _ (read_match_offset source) _ (read_match_offset-Ends source) λ (offset, rest) l.
        Ends-bind _ _ (guard (not (offset == 0 || ltb (length out) offset)) invalid_offset) _
          (Ends-guard _ invalid_offset tt)
          λ _ valid.
            Ends-bind _ _ (read_extended_length limit (token % 16) rest) _
              (read_extended_length-Ends limit (token % 16) rest)
              λ (base, rest') l'.
                Ends-bind _ _ (guard (not (ltb (n - length out) (base + 4))) output_overrun) _
                  (Ends-guard _ output_overrun tt)
                  λ _ room.
                    Ends-bind _ _ (copy_match (base + 4) offset out) _
                      (copy_match-Ends (base + 4) offset out
                        (offset_valid offset (length out) valid).0
                        (offset_valid offset (length out) valid).1)
                      λ o grown.
                        (omega arith, omega (arith, not-ltb (n - length out) (base + 4) room))
    where
      offset_valid : (d l : ℕ) → not (d == 0 || ltb l d) ≡ true → (0 < d) × (d ≤ l)
      offset_valid d l v = ground arith

  end_or_match-Ends :
      (token : ℕ) (next : List ℕ → List ℕ → Result DecodeError (List ℕ)) (source out : List ℕ)
      → length out ≤ n
      → ((s o : List ℕ) → Within (length source) (s, o) → Ends (λ o'. length o' ≤ n) (next s o))
      → Ends (λ o. length o ≤ n) (end_or_match n limit token next source out)
  unfolding end_or_match
  end_or_match-Ends token next [] out h rec = h
  end_or_match-Ends token next (b ∷ source) out h rec =
      Ends-bind _ _ (read_match n limit token (b ∷ source) out) _
        (read_match-Ends token (b ∷ source) out h) λ (s, o) w. rec s o w

  decode_loop-Ends :
      (fuel : ℕ) (source out : List ℕ)
      → length source < fuel
      → length out ≤ n
      → Ends (λ o. length o ≤ n) (decode_loop fuel n limit source out)
  unfolding decode_loop
  decode_loop-Ends zero source out f h = absurd (omega arith)
  decode_loop-Ends (suc fuel) [] out f h = h
  decode_loop-Ends (suc fuel) (token ∷ source) out f h =
      Ends-bind _ _ (read_literals n limit token source out) _
        (read_literals-Ends token source out h)
        λ (source₁, out₁) w.
          end_or_match-Ends token (decode_loop fuel n limit) source₁ out₁ w.1
            λ s o w'. decode_loop-Ends fuel s o (omega arith) w'.1

-- The decoded length that a caller may announce.
abbrev pub IsDecoded : Number → List ℕ → Type 0
IsDecoded announced out = (announced ≡ natural (length out)) × (length out ≤ max_block_length)

natural_in-natural : (v : Number) (lo hi : ℕ) {n : ℕ} → natural_in v lo hi ≡ some n → v ≡ natural n
natural_in-natural not_integer lo hi e = absurd (cc)
natural_in-natural (integer (negsuc m)) lo hi e = absurd (cc)
natural_in-natural (integer (pos m)) lo hi e = ground arith

bounded_length-Ends :
    (v : Number) (limit : ℕ) (code : DecodeError)
    → IsReported code
    → Ends (λ n. (v ≡ natural n) × (n ≤ limit)) (bounded_length v limit code)
unfolding bounded_length
bounded_length-Ends v limit code h =
    Ends-bind _ _ (or_throw (natural_in v 0 max_safe) invalid_length) _
      (Ends-or_throw _ invalid_length tt)
      λ n e.
        Ends-bind _ _ (guard (not (ltb limit n)) code) _ (Ends-guard _ code h)
          λ _ small. (natural_in-natural v 0 max_safe e, not-ltb limit n small)

configured_limit-Ends :
    (v : Option Number) (fallback maximum : ℕ)
    → Ends (λ n. n ≤ maximum) (configured_limit v fallback maximum)
unfolding configured_limit
configured_limit-Ends v fallback maximum =
    bounded (natural_in (or_default v fallback) 0 maximum)
      (λ n e. (natural_in_sound (or_default v fallback) 0 maximum e).1)
  where
    bounded :
        (o : Option ℕ)
        → ((n : ℕ) → o ≡ some n → n ≤ maximum)
        → Ends (λ n. n ≤ maximum) (or_throw o invalid_length)
    bounded none h = tt
    bounded (some n) h = h n refl

-- On every input, announced length and options the decoder ends: it throws one of the codes that the
-- program has, or returns exactly as many bytes as were announced, 16 MiB at most. It never reads
-- output that it has not written, and its loops never run out of fuel.
pub decode_lz4_block-Ends :
    (input : List ℕ) (announced : Number) (options : DecodeOptions)
    → Ends (IsDecoded announced) (decode_lz4_block input announced options)
unfolding decode_lz4_block
decode_lz4_block-Ends input announced options =
    Ends-bind _ _
      (configured_limit options.max_input_length max_encoded_block_length max_encoded_block_length)
      _
      (configured_limit-Ends options.max_input_length max_encoded_block_length
        max_encoded_block_length)
      λ max_input _.
        Ends-bind _ _ (configured_limit options.max_output_length max_block_length max_block_length)
          _ (configured_limit-Ends options.max_output_length max_block_length max_block_length)
          λ max_output small.
            Ends-bind _ _ (bounded_length (natural (length input)) max_input input_limit_exceeded) _
              (bounded_length-Ends (natural (length input)) max_input input_limit_exceeded tt)
              λ _ _.
                Ends-bind _ _ (bounded_length announced max_output output_limit_exceeded) _
                  (bounded_length-Ends announced max_output output_limit_exceeded tt)
                  λ n (said, low).
                    Ends-bind _ _ (guard (not (length input == 0)) truncated_input) _
                      (Ends-guard _ truncated_input tt)
                      λ _ _.
                        Ends-bind _ _ (decode_loop (suc (length input)) n max_output input []) _
                          (decode_loop-Ends n max_output (suc (length input)) input [] (omega arith)
                            (omega arith))
                          λ out _.
                            Ends-bind _ _ (guard (length out == n) output_length_mismatch) _
                              (Ends-guard _ output_length_mismatch tt)
                              λ _ exact.
                                let same : length out ≡ n = (==_iff (length out) n).0 exact in
                                (rw same said, omega arith)
