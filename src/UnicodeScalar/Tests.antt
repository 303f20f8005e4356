-- ===== src/UnicodeScalar/Tests.antt =====
-- Runs of the text and the reference checks on concrete code units.
use open_rfc.Common.{
  get_elem?, All, ok, ℕ, ◌+◌, ◌-◌, ◌≡◌, refl, ◌↔◌, inl, true, some, List, [], ◌∷◌, arith,
}
use open_rfc.UnicodeScalar.{
  entity_code_point, assert_unicode_scalar_text, decode_xml_entity_reference,
}
use open_rfc.UnicodeScalar.Scalars.{assert_unicode_scalar_text-Spelled, IsScalar, utf16}
use open_rfc.UnicodeScalar.References.{
  decode_xml_entity_reference-IsScalar, decode_xml_entity_reference-run_value,
}

-- A letter and the pair of U+1F600.
assert_unicode_scalar_text-Spelled_example :
    (assert_unicode_scalar_text (65 ∷ 0xd83d ∷ 0xde00 ∷ []) ≡ ok tt)
    ↔ ((ss : List ℕ) × (All IsScalar ss × (utf16 ss ≡ 65 ∷ 0xd83d ∷ 0xde00 ∷ [])))
assert_unicode_scalar_text-Spelled_example =
    assert_unicode_scalar_text-Spelled (65 ∷ 0xd83d ∷ 0xde00 ∷ [])
      (omega arith, (omega arith, (omega arith, tt)))

pair_admitted : assert_unicode_scalar_text (65 ∷ 0xd83d ∷ 0xde00 ∷ []) ≡ ok tt
unfolding assert_unicode_scalar_text
pair_admitted = refl

decode_amp : decode_xml_entity_reference (65 ∷ 38 ∷ 97 ∷ 109 ∷ 112 ∷ 59 ∷ []) 1 ≡ ok (38, 5)
unfolding decode_xml_entity_reference entity_code_point
decode_amp = refl

-- `A&amp;` from the second code unit on.
decode_xml_entity_reference-IsScalar_example :
    IsScalar 38 × (get_elem? {A = ℕ} (65 ∷ 38 ∷ 97 ∷ 109 ∷ 112 ∷ 59 ∷ []) (1 + 5 - 1) ≡ some 59)
decode_xml_entity_reference-IsScalar_example =
    decode_xml_entity_reference-IsScalar (65 ∷ 38 ∷ 97 ∷ 109 ∷ 112 ∷ 59 ∷ []) 1 38 5 decode_amp

-- `&#x004a;` behind one letter.
decode_xml_entity_reference-run_value_example :
    decode_xml_entity_reference (65 ∷ 38 ∷ 35 ∷ 120 ∷ 48 ∷ 48 ∷ 52 ∷ 97 ∷ 59 ∷ []) 1 ≡ ok (0x4a, 8)
decode_xml_entity_reference-run_value_example =
    decode_xml_entity_reference-run_value true (48 ∷ 48 ∷ 52 ∷ 97 ∷ []) (65 ∷ []) [] refl
      (omega arith) (omega arith) (inl (omega arith))
