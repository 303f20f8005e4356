-- ===== src/Lz4/Unchecked.antt =====
-- The encoder without the checks that its Buffer accesses make: every read has its bytes, and a distance
-- is written whatever it is. It is what the proofs compute with; Checks shows that it is the encoder.
use open_rfc.Bytes.Words.{le_value}
use open_rfc.Common.{
  length, take, drop, Result, ◌>>=◌, ltb, leb, ◌==◌, if◌then◌else◌, err, ℕ, zero, suc, ◌+◌, ◌-◌,
  ◌*◌, ◌/◌, ◌%◌, ◌^◌, min, true, false, ◌||◌, not, Option, none, some, List, [], ◌∷◌,
}
use open_rfc.Lz4.Encode.{
  out_of_fuel, EncodeError, HashTable, record_position, extend_match, write_output, write_byte,
  write_extended_length, write_source, write_final,
}

abbrev pub word_at_offset : List ℕ → ℕ → ℕ
word_at_offset source offset = le_value (take 4 (drop offset source))

unfoldable pub hash_of : List ℕ → ℕ → ℕ
hash_of source offset = word_at_offset source offset * 0x9e37_79b1 % 2 ^ 32 / 2 ^ 16

unfoldable pub recorded : List ℕ → ℕ → ℕ → HashTable → HashTable
recorded source zero update table = table
recorded source (suc left) update table =
    let more =
      recorded source left (update + 1) (record_position table (hash_of source update) update) in
    if leb (update + 4) (length source) then more else table

unfoldable pub joined_sequence : ℕ → List ℕ → ℕ → ℕ → ℕ → ℕ → List ℕ → Result EncodeError (List ℕ)
joined_sequence capacity source anchor literal_length distance encoded_match_length output = do
  output₁ ← write_byte capacity (min literal_length 15 * 16 + min encoded_match_length 15) output
  output₂ ← write_extended_length capacity literal_length output₁
  output₃ ← write_source capacity source anchor literal_length output₂
  output₄ ← write_output capacity (distance % 256 ∷ distance / 256 ∷ []) output₃
  write_extended_length capacity encoded_match_length output₄

unfoldable pub taken_candidate : List ℕ → Option ℕ → ℕ → Option ℕ
taken_candidate source none position = none
taken_candidate source (some candidate) position =
    if ltb 0xffff (position - candidate)
      || not (word_at_offset source candidate == word_at_offset source position)
    then none
    else some candidate

unfoldable pub joined_loop :
    ℕ → ℕ → List ℕ → HashTable → ℕ → ℕ → List ℕ → Result EncodeError (List ℕ)
joined_loop zero capacity source table anchor position output = err out_of_fuel
joined_loop (suc fuel) capacity source table anchor position output =
    elim (leb (position + 12) (length source)) [
      | false ↦ write_final capacity source anchor output
      | true ↦
          let hash = hash_of source position in
          let table' = record_position table hash position in
          elim (taken_candidate source (table hash) position) [
            | none ↦ joined_loop fuel capacity source table' anchor (position + 1) output
            | some candidate ↦
                let match_length =
                  extend_match source candidate position (length source - 5 - (position + 4)) 4 in
                let position' = position + match_length in
                do
                  output' ←
                      joined_sequence capacity source anchor (position - anchor)
                        (position - candidate) (match_length - 4) output
                  joined_loop fuel capacity source
                      (recorded source (position' - (position + 1)) (position + 1) table') position'
                      position' output'
          ]
    ]
