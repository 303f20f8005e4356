-- ===== src/UnicodeScalar/References.antt =====
-- What `decodeXmlEntityReference` returns, and the spellings it accepts.
use open_rfc.UnicodeScalar.{
  is_run, entity_code_point, character_reference_value, maximum_character_reference_run,
  strip_zeros, or_zero, decode_xml_entity_reference, all_digits, parse_int, index_of,
}
use open_rfc.Common.{
  length, get_elem?, take, drop, take-length_append, drop-length_append, drop-drop,
  get_elem?-drop_add, guard, or_throw, >>=-eq-ok, guard_sound, ltb, leb, ◌==◌, le→ltb, Bool-cases,
  Option-cases, ok, general_error, ℕ, suc, ◌+◌, ◌-◌, ◌≤◌, ◌<◌, ◌≡◌, refl, sym, ap, ◌∙◌, inl, inr,
  Bool, true, false, ◌&&◌, ◌||◌, not, none, some, List, [], ◌∷◌, ◌++◌, arith,
}
use open_rfc.UnicodeScalar.Scalars.{IsScalar}

index_of-found : (c : ℕ) (xs : List ℕ) (i : ℕ) → index_of c xs ≡ some i → get_elem? xs i ≡ some c
index_of-found c [] i h = absurd (cc)
index_of-found c (x ∷ xs) i h = elim (Bool-cases (x == c)) [
  | inl e ↦
      let first : index_of c (x ∷ xs) ≡ some 0 = rw (e, index_of) refl in
      let k : x ≡ c = ground arith in let z : i ≡ 0 = ground arith in rw z (ap some k)
  | inr e ↦ elim (Option-cases (index_of c xs)) [
    | inl n ↦ let missing : index_of c (x ∷ xs) ≡ none = rw (e, index_of) (rw n refl) in absurd (cc)
    | inr (j, s) ↦
        let next : index_of c (x ∷ xs) ≡ some (suc j) = rw (e, index_of) (rw s refl) in
        let z : i ≡ suc j = ground arith in rw z (index_of-found c xs j s)
  ]
]

-- A reference that decodes yields a Unicode scalar value, and its length ends it at a semicolon.
pub decode_xml_entity_reference-IsScalar :
    (raw : List ℕ) (start code_point len : ℕ)
    → decode_xml_entity_reference raw start ≡ ok (code_point, len)
    → IsScalar code_point × (get_elem? raw (start + len - 1) ≡ some 59)
unfolding decode_xml_entity_reference
decode_xml_entity_reference-IsScalar raw start code_point len h =
    let (i, f, h₁) = >>=-eq-ok (or_throw (index_of 59 (drop (start + 1) raw)) general_error) _ h in
    let (v, g, h₂) = >>=-eq-ok (entity_code_point (take i (drop (start + 1) raw))) _ h₁ in
    let (u, t, h₃) =
      >>=-eq-ok (guard (not (ltb 0x10ffff v || (leb 0xd800 v && leb v 0xdfff))) general_error) _
        h₂ in
    let test : not (ltb 0x10ffff v || (leb 0xd800 v && leb v 0xdfff)) ≡ true =
      guard_sound _ general_error t in
    let c : v ≡ code_point = ground arith in
    let l : start + len - 1 ≡ start + 1 + i = ground arith in
    let found : index_of 59 (drop (start + 1) raw) ≡ some i = ground arith in
    (
      ground arith,
      rw l (
          sym (get_elem?-drop_add (start + 1) i raw)
          ∙ index_of-found 59 (drop (start + 1) raw) i found),
    )

abbrev pub radix_of : Bool → ℕ
radix_of true = 16
radix_of false = 10

-- `#x` or `#`
abbrev pub mark : Bool → List ℕ
mark true = 35 ∷ 120 ∷ []
mark false = 35 ∷ []

-- The value of a run of digits.
abbrev pub run_value : ℕ → List ℕ → ℕ
run_value radix digits = parse_int radix 0 digits

parse_int-or_zero :
    (radix : ℕ) (digits : List ℕ) → parse_int radix 0 (or_zero digits) ≡ parse_int radix 0 digits
parse_int-or_zero radix [] = omega arith
parse_int-or_zero radix (c ∷ cs) = refl

parse_int-strip_zeros :
    (radix : ℕ) (digits : List ℕ)
    → parse_int radix 0 (strip_zeros digits) ≡ parse_int radix 0 digits
parse_int-strip_zeros radix [] = refl
parse_int-strip_zeros radix (c ∷ cs) = elim (Bool-cases (c == 48)) [
  | inl e ↦
      let k : c ≡ 48 = ground arith in
      rw (e, strip_zeros)
        (parse_int-strip_zeros radix cs ∙ rw k (ap (λ n. parse_int radix n cs) (omega arith)))
  | inr e ↦ rw (e, strip_zeros) refl
]

index_of-digits :
    (radix : ℕ) (digits post : List ℕ)
    → all_digits radix digits ≡ true
    → index_of 59 (digits ++ (59 ∷ post)) ≡ some (length digits)
index_of-digits radix [] post h = refl
index_of-digits radix (c ∷ cs) post h =
    let e : (c == 59) ≡ false = ground arith in
    let f : all_digits radix cs ≡ true = ground arith in
    rw (e, index_of) (rw (index_of-digits radix cs post f) refl)

is_run-all_digits :
    (digits : List ℕ) (radix : ℕ)
    → all_digits radix digits ≡ true
    → 0 < length digits
    → is_run radix digits ≡ true
is_run-all_digits [] radix h l = absurd (omega arith)
is_run-all_digits (c ∷ cs) radix h l = h

character_reference_value-run_value :
    (digits : List ℕ) (radix : ℕ)
    → all_digits radix digits ≡ true
    → 0 < length digits
    → length digits ≤ maximum_character_reference_run
    → character_reference_value digits radix ≡ ok (run_value radix digits)
unfolding character_reference_value
character_reference_value-run_value digits radix h l m =
    rw
      (le→ltb maximum_character_reference_run (length digits) m, is_run-all_digits digits radix h l)
      (ap ok (parse_int-or_zero radix (strip_zeros digits) ∙ parse_int-strip_zeros radix digits))

decode_body :
    (body pre post : List ℕ) (v : ℕ)
    → index_of 59 (body ++ (59 ∷ post)) ≡ some (length body)
    → entity_code_point body ≡ ok v
    → IsScalar v
    → decode_xml_entity_reference (pre ++ (38 ∷ (body ++ (59 ∷ post)))) (length pre)
      ≡ ok (v, length body + 2)
unfolding decode_xml_entity_reference
decode_body body pre post v f e s =
    let after : drop (length pre + 1) (pre ++ (38 ∷ (body ++ (59 ∷ post)))) ≡ body ++ (59 ∷ post) =
      sym (drop-drop 1 (length pre) _)
      ∙ ap (drop 1) (drop-length_append pre (38 ∷ (body ++ (59 ∷ post)))) in
    rw (after, f, take-length_append body (59 ∷ post), e) (ground arith)

entity_code_point-mark :
    (hex : Bool) (digits : List ℕ)
    → all_digits (radix_of hex) digits ≡ true
    → 0 < length digits
    → length digits ≤ maximum_character_reference_run
    → entity_code_point (mark hex ++ digits) ≡ ok (run_value (radix_of hex) digits)
unfolding entity_code_point
entity_code_point-mark true digits h l m = character_reference_value-run_value digits 16 h l m
entity_code_point-mark false [] h l m = absurd (omega arith)
entity_code_point-mark false (c ∷ cs) h l m =
    let e : (c == 120) ≡ false = ground arith in
    rw e (character_reference_value-run_value (c ∷ cs) 10 h l m)

index_of-mark :
    (hex : Bool) (digits post : List ℕ)
    → all_digits (radix_of hex) digits ≡ true
    → index_of 59 ((mark hex ++ digits) ++ (59 ∷ post)) ≡ some (length (mark hex ++ digits))
index_of-mark true digits post h = rw (index_of-digits 16 digits post h) refl
index_of-mark false digits post h = rw (index_of-digits 10 digits post h) refl

-- A character reference with a run of at most 32 digits, padded with zeros or not, decodes to the
-- value of the run if that is a Unicode scalar value, wherever the reference stands in the text.
pub decode_xml_entity_reference-run_value :
    (hex : Bool) (digits pre post : List ℕ)
    → all_digits (radix_of hex) digits ≡ true
    → 0 < length digits
    → length digits ≤ maximum_character_reference_run
    → IsScalar (run_value (radix_of hex) digits)
    → decode_xml_entity_reference (pre ++ (38 ∷ ((mark hex ++ digits) ++ (59 ∷ post)))) (length pre)
      ≡ ok (run_value (radix_of hex) digits, length (mark hex ++ digits) + 2)
decode_xml_entity_reference-run_value hex digits pre post h l m s =
    decode_body (mark hex ++ digits) pre post (run_value (radix_of hex) digits)
      (index_of-mark hex digits post h) (entity_code_point-mark hex digits h l m) s
