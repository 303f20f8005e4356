-- ===== src/Lz4/Decode.antt =====
-- `decodeLz4Block` of src/protocol/lz4-block.ts. The source offset is kept as the list of bytes from
-- that offset on, and the output buffer as the list of the bytes written so far, whose length is the
-- output offset: the code reads the output only below that offset, and writes it only there.
use open_rfc.Common.{
  length, get_elem?, take, drop, Number, max_safe, natural, or_default, natural_in, Result, ◌>>=◌,
  ◌>>◌, guard, or_throw, ltb, ◌==◌, if◌then◌else◌, ok, err, ℕ, zero, suc, ◌+◌, ◌-◌, ◌*◌, ◌/◌, ◌%◌,
  ◌||◌, not, Option, none, some, List, [], ◌∷◌, ◌++◌,
}

abbrev pub max_block_length : ℕ
max_block_length = 16 * 1024 * 1024

abbrev pub max_encoded_block_length : ℕ
max_encoded_block_length = max_block_length + max_block_length / 255 + 16

-- The codes of Lz4BlockDecodeError. The last two are no codes of the program: `undefined_read` is a
-- read of the output outside what was written, `out_of_fuel` a loop of the model that gave up.
pub data DecodeError : Type 0 where
  invalid_length input_limit_exceeded output_limit_exceeded truncated_input : DecodeError
  invalid_offset output_length_mismatch output_overrun : DecodeError
  undefined_read out_of_fuel : DecodeError

pub record DecodeOptions : Type 0 where
  pub max_input_length : Option Number
  pub max_output_length : Option Number

unfoldable pub bounded_length : Number → ℕ → DecodeError → Result DecodeError ℕ
bounded_length value maximum maximum_code = do
  n ← or_throw (natural_in value 0 max_safe) invalid_length
  guard (not (ltb maximum n)) maximum_code
  ok n

unfoldable pub configured_limit : Option Number → ℕ → ℕ → Result DecodeError ℕ
configured_limit value fallback maximum =
    or_throw (natural_in (or_default value fallback) 0 maximum) invalid_length

-- The loop of `readExtendedLength`.
unfoldable pub extend_length : ℕ → ℕ → List ℕ → Result DecodeError (ℕ × List ℕ)
extend_length max_output len [] = err truncated_input
extend_length max_output len (extension ∷ source) =
    let rest = extend_length max_output (len + extension) source in
    if ltb max_safe (len + extension) || ltb max_output (len + extension)
    then err output_overrun
    else if extension == 0xff
    then rest
    else ok (len + extension, source)

unfoldable pub read_extended_length : ℕ → ℕ → List ℕ → Result DecodeError (ℕ × List ℕ)
read_extended_length max_output base source =
    if base == 15 then extend_length max_output base source else ok (base, source)

-- `for (index = 0; index < matchLength; index += 1) output[outputOffset++] = output[outputOffset - matchOffset]`
unfoldable pub copy_match : ℕ → ℕ → List ℕ → Result DecodeError (List ℕ)
copy_match zero offset output = ok output
copy_match (suc n) offset output = elim (get_elem? output (length output - offset)) [
  | none ↦ err undefined_read
  | some byte ↦ copy_match n offset (output ++ (byte ∷ []))
]

-- `source.readUInt16LE(sourceOffset)`, after the check that two bytes are left.
unfoldable pub read_match_offset : List ℕ → Result DecodeError (ℕ × List ℕ)
read_match_offset [] = err truncated_input
read_match_offset (lo ∷ []) = err truncated_input
read_match_offset (lo ∷ hi ∷ source) = ok (lo + 256 * hi, source)

-- A sequence's literals: the source and the output behind them.
unfoldable pub read_literals : ℕ → ℕ → ℕ → List ℕ → List ℕ → Result DecodeError (List ℕ × List ℕ)
read_literals output_length max_output token source output = do
  (literal_length, source') ← read_extended_length max_output (token / 16) source
  guard (not (ltb (length source') literal_length)) truncated_input
  guard (not (ltb (output_length - length output) literal_length)) output_overrun
  ok (drop literal_length source', output ++ take literal_length source')

-- A sequence's match, likewise.
unfoldable pub read_match : ℕ → ℕ → ℕ → List ℕ → List ℕ → Result DecodeError (List ℕ × List ℕ)
read_match output_length max_output token source output = do
  (match_offset, source') ← read_match_offset source
  guard (not (match_offset == 0 || ltb (length output) match_offset)) invalid_offset
  (base_length, source'') ← read_extended_length max_output (token % 16) source'
  guard (not (ltb (output_length - length output) (base_length + 4))) output_overrun
  output' ← copy_match (base_length + 4) match_offset output
  ok (source'', output')

-- The rest of a round, behind the literals: the final sequence has literals only, and ends with the
-- block. `next` is the loop's next round.
unfoldable pub end_or_match :
    ℕ
    → ℕ
    → ℕ
    → (List ℕ → List ℕ → Result DecodeError (List ℕ))
    → List ℕ
    → List ℕ
    → Result DecodeError (List ℕ)
end_or_match output_length max_output token next [] output = ok output
end_or_match output_length max_output token next (b ∷ source) output = do
  (source', output') ← read_match output_length max_output token (b ∷ source) output
  next source' output'

-- The main loop.
unfoldable pub decode_loop : ℕ → ℕ → ℕ → List ℕ → List ℕ → Result DecodeError (List ℕ)
unfolding end_or_match
decode_loop zero output_length max_output source output = err out_of_fuel
decode_loop (suc fuel) output_length max_output [] output = ok output
decode_loop (suc fuel) output_length max_output (token ∷ source) output = do
  (source', output') ← read_literals output_length max_output token source output
  end_or_match output_length max_output token (decode_loop fuel output_length max_output) source'
      output'

unfoldable pub decode_lz4_block : List ℕ → Number → DecodeOptions → Result DecodeError (List ℕ)
decode_lz4_block input output_length options = do
  max_input ←
      configured_limit options.max_input_length max_encoded_block_length max_encoded_block_length
  max_output ← configured_limit options.max_output_length max_block_length max_block_length
  input_length ← bounded_length (natural (length input)) max_input input_limit_exceeded
  n ← bounded_length output_length max_output output_limit_exceeded
  guard (not (length input == 0)) truncated_input
  output ← decode_loop (suc (length input)) n max_output input []
  guard (length output == n) output_length_mismatch
  ok output
