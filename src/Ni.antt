-- ===== src/Ni.antt =====
-- src/protocol/ni.ts: the four-byte length-prefixed records of SAP's Network Interface layer.
pub mod Stream
pub mod Queue
pub mod Take
pub mod Refines
pub mod Frames
mod Tests
use open_rfc.Common.{
  length, get_elem?, take, drop, Number, max_safe, natural_in, Result, ◌>>=◌, ◌>>◌, guard, or_throw,
  JsError, ltb, leb, ◌==◌, if◌then◌else◌, ok, err, range_error, ℕ, zero, suc, ◌+◌, ◌-◌, ◌*◌, min,
  true, false, ◌&&◌, not, none, some, List, [], ◌∷◌, ◌++◌,
}
use open_rfc.Bytes.Words.{be32, be_from}

abbrev pub ni_length_bytes : ℕ
ni_length_bytes = 4

abbrev pub default_max_ni_payload_length : ℕ
default_max_ni_payload_length = 256 * 1024 * 1024

-- `encodeNiFrame`.
unfoldable pub encode_ni_frame : List ℕ → Result JsError (List ℕ)
encode_ni_frame payload = do
  guard (not (ltb 0xffff_ffff (length payload))) range_error
  ok (be32 (length payload) ++ payload)

-- What NiFrameDecoder throws. `out_of_fuel` is no JavaScript error: a loop of the model gave up.
pub data NiError : Type 0 where
  limit_exceeded queue_inconsistent consume_beyond truncated out_of_fuel : NiError

-- The private fields of NiFrameDecoder. A chunk is the decoder's own copy of a received buffer.
pub record Decoder : Type 0 where
  pub max_payload_length : ℕ
  pub chunks : List (List ℕ)
  pub head_index : ℕ
  pub head_offset : ℕ
  pub buffered : ℕ

-- A method returns the decoder as it leaves it, also when it throws.
abbrev pub Outcome {ℓ} : Type ℓ → Type ℓ
Outcome A = Decoder × Result NiError A

abbrev pub and_then {ℓ κ} :
    {A : Type ℓ} {B : Type κ} → Outcome A → (A → Decoder → Outcome B) → Outcome B
and_then o f = elim o.1 [ ok a ↦ f a o.0 | err e ↦ (o.0, err e) ]

unfoldable pub open_decoder : Number → Result JsError Decoder
open_decoder limit = do
  n ← or_throw (natural_in limit 0 max_safe) range_error
  ok (record { max_payload_length = n; chunks = []; head_index = 0; head_offset = 0; buffered = 0 })

-- `#peekUInt32BE`: the loop walks the chunks from the head on.
unfoldable pub peek_loop : List (List ℕ) → ℕ → ℕ → ℕ → Result NiError ℕ
peek_loop [] offset remaining value = if remaining == 0 then ok value else err queue_inconsistent
peek_loop (current ∷ later) offset remaining value =
    let n = min remaining (length current - offset) in
    let rest = peek_loop later 0 (remaining - n) (be_from value (take n (drop offset current))) in
    if remaining == 0 then ok value else rest

unfoldable pub peek_uint32_be : Decoder → Result NiError ℕ
peek_uint32_be d = peek_loop (drop d.head_index d.chunks) d.head_offset ni_length_bytes 0

-- The head moves on by `n` bytes within the chunk `current`.
unfoldable pub move_head : List ℕ → ℕ → Decoder → Decoder
move_head current n d =
    if d.head_offset + n == length current
    then record d { head_index = d.head_index + 1; head_offset = 0 }
    else record d { head_offset = d.head_offset + n }

-- The loop of `#consume`; `need` is `length - written`.
unfoldable pub consume_loop : ℕ → ℕ → List ℕ → Decoder → Outcome (List ℕ)
consume_loop zero need out d = (d, err out_of_fuel)
consume_loop (suc fuel) need out d = elim (need == 0) [
  | true ↦ (d, ok out)
  | false ↦ elim (get_elem? d.chunks d.head_index) [
    | none ↦ (d, err queue_inconsistent)
    | some current ↦
        let n = min need (length current - d.head_offset) in
        consume_loop fuel (need - n) (out ++ take n (drop d.head_offset current))
          (move_head current n d)
  ]
]

-- `#compactQueue`; the wiping of the chunks that it drops is not modelled.
unfoldable pub compact_queue : Decoder → Decoder
compact_queue d =
    if d.head_index == length d.chunks
    then record d { chunks = []; head_index = 0 }
    else if leb 64 d.head_index && leb (length d.chunks) (d.head_index * 2)
    then record d { chunks = drop d.head_index d.chunks; head_index = 0 }
    else d

unfoldable pub consume : ℕ → Decoder → Outcome (List ℕ)
consume len d =
    if ltb d.buffered len
    then (d, err consume_beyond)
    else and_then (consume_loop (length d.chunks + 2) len [] d)
        λ out d'. (compact_queue (record d' { buffered = d'.buffered - len }), ok out)

-- The loop of `push`.
unfoldable pub push_loop : ℕ → List (List ℕ) → Decoder → Outcome (List (List ℕ))
push_loop zero payloads d = (d, err out_of_fuel)
push_loop (suc fuel) payloads d = elim (ltb d.buffered ni_length_bytes) [
  | true ↦ (d, ok payloads)
  | false ↦
      and_then (d, peek_uint32_be d)
        λ len d₁. elim (ltb d₁.max_payload_length len) [
          | true ↦ (d₁, err limit_exceeded)
          | false ↦ elim (ltb d₁.buffered (ni_length_bytes + len)) [
            | true ↦ (d₁, ok payloads)
            | false ↦ and_then (consume ni_length_bytes d₁) λ _ d₂.
                and_then (consume len d₂)
                  λ payload d₃. push_loop fuel (payloads ++ (payload ∷ [])) d₃
          ]
        ]
]

abbrev pub receive : List ℕ → Decoder → Decoder
receive chunk d =
    if ltb 0 (length chunk)
    then record d { chunks = d.chunks ++ (chunk ∷ []); buffered = d.buffered + length chunk }
    else d

-- A frame takes four bytes at least, so the bytes that are buffered bound the rounds.
unfoldable pub push : List ℕ → Decoder → Outcome (List (List ℕ))
push chunk d = let d' = receive chunk d in push_loop (suc d'.buffered) [] d'

unfoldable pub finish_decoder : Decoder → Result NiError (Unit {0})
finish_decoder d = guard (d.buffered == 0) truncated

unfoldable pub reset : Decoder → Decoder
reset d = record d { chunks = []; head_index = 0; head_offset = 0; buffered = 0 }
