-- ===== src/Lz4/Encode.antt =====
-- `encodeLz4Block` of src/protocol/lz4-block.ts. The output is the list of the bytes written so far.
use open_rfc.Bytes.Words.{le_value}
use open_rfc.Common.{
  length, get_elem?, take, drop, Number, or_default, natural_in, Result, ◌>>=◌, ◌>>◌, guard,
  or_throw, ltb, leb, ◌==◌, if◌then◌else◌, ok, err, ℕ, zero, suc, ◌+◌, ◌-◌, ◌*◌, ◌/◌, ◌%◌, ◌^◌, min,
  Bool, true, false, not, Option, none, some, List, [], ◌∷◌, ◌++◌,
}
use open_rfc.Lz4.Decode.{max_encoded_block_length, max_block_length}

-- The codes of Lz4BlockEncodeError; `out_of_range` for the RangeError that a Buffer access throws, and
-- `out_of_fuel` for a loop of the model that gave up.
pub data EncodeError : Type 0 where
  invalid_length input_limit_exceeded output_limit_exceeded out_of_range out_of_fuel : EncodeError

pub record EncodeOptions : Type 0 where
  pub max_input_length : Option Number
  pub max_output_length : Option Number

unfoldable pub configured_encode_limit : Option Number → ℕ → ℕ → Result EncodeError ℕ
configured_encode_limit value fallback maximum =
    or_throw (natural_in (or_default value fallback) 0 maximum) invalid_length

unfoldable pub encoded_length_bound : ℕ → ℕ
encoded_length_bound zero = 1
encoded_length_bound n = n + n / 255 + 16

-- `requireOutput` and the write that follows it.
unfoldable pub write_output : ℕ → List ℕ → List ℕ → Result EncodeError (List ℕ)
write_output capacity bytes output = do
  guard (not (ltb (capacity - length output) (length bytes))) output_limit_exceeded
  ok (output ++ bytes)

unfoldable pub write_byte : ℕ → ℕ → List ℕ → Result EncodeError (List ℕ)
write_byte capacity value output = write_output capacity (value ∷ []) output

-- The loop of `writeExtendedLength`.
unfoldable pub write_length_loop : ℕ → ℕ → ℕ → List ℕ → Result EncodeError (List ℕ)
write_length_loop zero capacity remainder output = err out_of_fuel
write_length_loop (suc fuel) capacity remainder output = elim (leb 0xff remainder) [
  | true ↦ do
    output' ← write_byte capacity 0xff output
    write_length_loop fuel capacity (remainder - 0xff) output'
  | false ↦ write_byte capacity remainder output
]

unfoldable pub write_extended_length : ℕ → ℕ → List ℕ → Result EncodeError (List ℕ)
write_extended_length capacity len output =
    if ltb len 15 then ok output else write_length_loop len capacity (len - 15) output

-- `source.readUInt32LE(offset)`, which throws where fewer than four bytes are left.
unfoldable pub uint32_at : List ℕ → ℕ → Result EncodeError ℕ
uint32_at source offset = do
  guard (leb (offset + 4) (length source)) out_of_range
  ok (le_value (take 4 (drop offset source)))

-- `Math.imul(…, 0x9e3779b1) >>> 16`: the product modulo 2 ^ 32, and its upper half.
unfoldable pub hash_at : List ℕ → ℕ → Result EncodeError ℕ
hash_at source offset = do word ← uint32_at source offset; ok (word * 0x9e37_79b1 % 2 ^ 32 / 2 ^ 16)

-- The hash table: `none` is the initial -1.
abbrev pub HashTable : Type 0
HashTable = ℕ → Option ℕ

unfoldable pub record_position : HashTable → ℕ → ℕ → HashTable
record_position table hash position h = if h == hash then some position else table h

-- The two bytes of a comparison `source[i] === source[j]`.
abbrev pub same_byte : Option ℕ → Option ℕ → Bool
same_byte none none = true
same_byte none (some b) = false
same_byte (some a) none = false
same_byte (some a) (some b) = a == b

-- The loop that lengthens a match; `left` is `matchEndLimit - (position + matchLength)`, so that the
-- loop's first test is `left > 0`.
unfoldable pub extend_match : List ℕ → ℕ → ℕ → ℕ → ℕ → ℕ
extend_match source candidate position zero match_length = match_length
extend_match source candidate position (suc left) match_length =
    let more = extend_match source candidate position left (match_length + 1) in
    if same_byte (get_elem? source (candidate + match_length))
      (get_elem? source (position + match_length))
    then more
    else match_length

-- The loop that records the positions inside a match; `left` is `position - update`.
unfoldable pub record_match : List ℕ → ℕ → ℕ → HashTable → Result EncodeError HashTable
record_match source zero update table = ok table
record_match source (suc left) update table = elim (leb (update + 4) (length source)) [
  | false ↦ ok table
  | true ↦ do
    hash ← hash_at source update
    record_match source left (update + 1) (record_position table hash update)
]

-- `source.copy(output, outputOffset, start, start + length)` after `requireOutput(length)`.
unfoldable pub write_source : ℕ → List ℕ → ℕ → ℕ → List ℕ → Result EncodeError (List ℕ)
write_source capacity source start len output =
    write_output capacity (take len (drop start source)) output

-- `requireOutput(2)` and `output.writeUInt16LE(value, outputOffset)`, which throws above 0xffff.
unfoldable pub write_uint16_le : ℕ → ℕ → List ℕ → Result EncodeError (List ℕ)
write_uint16_le capacity value output = do
  guard (not (ltb (capacity - length output) 2)) output_limit_exceeded
  guard (leb value 0xffff) out_of_range
  ok (output ++ (value % 256 ∷ value / 256 ∷ []))

-- The token, the literals and the match of one sequence.
unfoldable pub write_sequence : ℕ → List ℕ → ℕ → ℕ → ℕ → ℕ → List ℕ → Result EncodeError (List ℕ)
write_sequence capacity source anchor literal_length distance encoded_match_length output = do
  output₁ ← write_byte capacity (min literal_length 15 * 16 + min encoded_match_length 15) output
  output₂ ← write_extended_length capacity literal_length output₁
  output₃ ← write_source capacity source anchor literal_length output₂
  output₄ ← write_uint16_le capacity distance output₃
  write_extended_length capacity encoded_match_length output₄

-- The candidate of a position, if the code takes it for a match. The two words are read only where the
-- candidate is near enough.
unfoldable pub usable_candidate : List ℕ → Option ℕ → ℕ → Result EncodeError (Option ℕ)
usable_candidate source none position = ok none
usable_candidate source (some candidate) position = elim (ltb 0xffff (position - candidate)) [
  | true ↦ ok none
  | false ↦ do
    there ← uint32_at source candidate
    here ← uint32_at source position
    ok (if there == here then some candidate else none)
]

-- The final literals.
unfoldable pub write_final : ℕ → List ℕ → ℕ → List ℕ → Result EncodeError (List ℕ)
write_final capacity source anchor output = do
  let final_length = length source - anchor
  output₁ ← write_byte capacity (min final_length 15 * 16) output
  output₂ ← write_extended_length capacity final_length output₁
  write_source capacity source anchor final_length output₂

-- The end of a round that has found a match: its sequence, and the positions inside it.
unfoldable pub encode_match :
    ℕ → List ℕ → HashTable → ℕ → ℕ → ℕ → ℕ → List ℕ → Result EncodeError (HashTable × List ℕ)
encode_match capacity source table anchor position candidate match_length output = do
  output' ←
      write_sequence capacity source anchor (position - anchor) (position - candidate)
        (match_length - 4) output
  table' ← record_match source (position + match_length - (position + 1)) (position + 1) table
  ok (table', output')

-- The main loop, and the final literals behind it. `position <= lastMatchStart` is written without the
-- subtraction, since `lastMatchStart` is negative for a short source.
unfoldable pub encode_loop :
    ℕ → ℕ → List ℕ → HashTable → ℕ → ℕ → List ℕ → Result EncodeError (List ℕ)
encode_loop zero capacity source table anchor position output = err out_of_fuel
encode_loop (suc fuel) capacity source table anchor position output =
    elim (leb (position + 12) (length source)) [
      | false ↦ write_final capacity source anchor output
      | true ↦ do
        hash ← hash_at source position
        let table' = record_position table hash position
        usable ← usable_candidate source (table hash) position
        elim usable [
          | none ↦ encode_loop fuel capacity source table' anchor (position + 1) output
          | some candidate ↦
              let match_length =
                extend_match source candidate position (length source - 5 - (position + 4)) 4 in
              do
                (table'', output') ←
                    encode_match capacity source table' anchor position candidate match_length
                      output
                encode_loop fuel capacity source table'' (position + match_length)
                    (position + match_length) output'
        ]
    ]

abbrev pub empty_table : HashTable
empty_table hash = none

unfoldable pub encode_lz4_block : List ℕ → EncodeOptions → Result EncodeError (List ℕ)
encode_lz4_block source options = do
  max_input ← configured_encode_limit options.max_input_length max_block_length max_block_length
  max_output ←
      configured_encode_limit options.max_output_length max_encoded_block_length
        max_encoded_block_length
  guard (not (ltb max_input (length source))) input_limit_exceeded
  let capacity = min (encoded_length_bound (length source)) max_output
  if length source == 0
      then write_byte capacity 0 []
      else encode_loop (suc (length source)) capacity source empty_table 0 0 []
