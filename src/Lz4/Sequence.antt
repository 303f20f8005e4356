-- ===== src/Lz4/Sequence.antt =====
-- One sequence of an LZ4 block, written by the encoder and read by the decoder.
use open_rfc.Lz4.Writes.{write_extended_length_lem, first-then}
use open_rfc.Lz4.Decode.{decode_loop, copy_match, read_match_offset, read_match, read_literals}
use open_rfc.Lz4.Encode.{write_output, write_source, write_byte, write_final}
use open_rfc.Lz4.Unchecked.{joined_sequence}
use open_rfc.Common.{
  length, take, drop, length-append, take-length_append, drop-length_append, max_safe, le→ltb,
  gt→==, ok, ℕ, suc, ◌+◌, ◌-◌, ◌*◌, ◌/◌, ◌%◌, ◌≤◌, ◌<◌, min, ◌≡◌, refl, List, [], ◌∷◌, ◌++◌,
  append-nil, append_assoc, arith,
}
use open_rfc.Lz4.Lengths.{read_extended_length-ext_bytes, ext_bytes}

-- The bytes of a sequence: token, literals, distance, and the match's length less four.
pub sequence_bytes : List ℕ → ℕ → ℕ → List ℕ
sequence_bytes literals distance extra =
    (min (length literals) 15 * 16 + min extra 15)
    ∷ (ext_bytes (length literals)
        ++ (literals ++ (distance % 256 ∷ distance / 256 ∷ ext_bytes extra)))

-- The bytes of the final sequence.
pub final_bytes : List ℕ → List ℕ
final_bytes literals = (min (length literals) 15 * 16) ∷ (ext_bytes (length literals) ++ literals)

module _ (capacity : ℕ) (source : List ℕ) where
  pub write_sequence_lem :
      (literals : List ℕ) (anchor len distance extra : ℕ) (out : List ℕ)
      → take len (drop anchor source) ≡ literals
      → length literals ≡ len
      → length out ≤ capacity
      → joined_sequence capacity source anchor len distance extra out
        ≡ write_output capacity (sequence_bytes literals distance extra) out
  unfolding joined_sequence sequence_bytes write_byte write_source
  write_sequence_lem literals anchor len distance extra out e l h =
      rw (e, l)
        (first-then capacity (_ ∷ []) _ out h _ λ o₁ h₁.
          rw (write_extended_length_lem capacity len o₁ h₁) (
            first-then capacity (ext_bytes len) _ o₁ h₁ _ λ o₂ h₂.
              first-then capacity literals _ o₂ h₂ _ λ o₃ h₃.
                first-then capacity (distance % 256 ∷ distance / 256 ∷ []) _ o₃ h₃ _
                  λ o₄ h₄. write_extended_length_lem capacity extra o₄ h₄))

  pub write_final_lem :
      (literals : List ℕ) (anchor : ℕ) (out : List ℕ)
      → take (length source - anchor) (drop anchor source) ≡ literals
      → length literals ≡ length source - anchor
      → length out ≤ capacity
      → write_final capacity source anchor out ≡ write_output capacity (final_bytes literals) out
  unfolding write_final final_bytes write_byte write_source
  write_final_lem literals anchor out e l h = rw (← l) (
      first-then capacity (_ ∷ []) _ out h _ λ o₁ h₁.
        rw (write_extended_length_lem capacity (length literals) o₁ h₁)
          (first-then capacity (ext_bytes (length literals)) _ o₁ h₁ _ λ o₂ h₂. rw (l, e) refl))

-- The decoder on a sequence whose parts fit the output.
module _ (n limit : ℕ) (safe : limit ≤ max_safe) where
  read_literals_lem :
      (token : ℕ) (literals tail out : List ℕ)
      → token / 16 ≡ min (length literals) 15
      → length literals ≤ limit
      → length out + length literals ≤ n
      → read_literals n limit token (ext_bytes (length literals) ++ (literals ++ tail)) out
        ≡ ok (tail, out ++ literals)
  unfolding read_literals
  read_literals_lem token literals tail out t h k = rw (
    t,
    read_extended_length-ext_bytes limit (length literals) (literals ++ tail) h safe,
    le→ltb (length (literals ++ tail)) (length literals)
        (omega (arith, length-append literals tail)),
    le→ltb (n - length out) (length literals) (omega arith),
    drop-length_append literals tail,
    take-length_append literals tail,
  )

  read_match_lem :
      (token distance extra : ℕ) (tail out out' : List ℕ)
      → token % 16 ≡ min extra 15
      → 0 < distance
      → distance ≤ length out
      → extra ≤ limit
      → length out + (extra + 4) ≤ n
      → copy_match (extra + 4) distance out ≡ ok out'
      → read_match n limit token (distance % 256 ∷ distance / 256 ∷ (ext_bytes extra ++ tail)) out
        ≡ ok (tail, out')
  unfolding read_match read_match_offset
  read_match_lem token distance extra tail out out' t p d x k c =
      let v : distance % 256 + 256 * (distance / 256) ≡ distance = omega arith in
      rw (
        v,
        t,
        read_extended_length-ext_bytes limit extra tail x safe,
        gt→== distance 0 p,
        le→ltb (length out) distance d,
        le→ltb (n - length out) (extra + 4) (omega arith),
        c,
      )

  -- A sequence gives its literals and its match, and the loop goes on behind it.
  pub decode_sequence :
      (fuel : ℕ) (literals : List ℕ) (distance extra : ℕ) (tail out out' : List ℕ)
      → length literals ≤ limit
      → 0 < distance
      → distance ≤ length (out ++ literals)
      → extra ≤ limit
      → length (out ++ literals) + (extra + 4) ≤ n
      → copy_match (extra + 4) distance (out ++ literals) ≡ ok out'
      → decode_loop (suc fuel) n limit (sequence_bytes literals distance extra ++ tail) out
        ≡ decode_loop fuel n limit tail out'
  unfolding decode_loop sequence_bytes
  decode_sequence fuel literals distance extra tail out out' l p d x k c =
      let token : ℕ = min (length literals) 15 * 16 + min extra 15 in
      let match_bytes : List ℕ = distance % 256 ∷ distance / 256 ∷ ext_bytes extra in
      rw
        (
          append_assoc (ext_bytes (length literals)) (literals ++ match_bytes) tail,
          append_assoc literals match_bytes tail,
          read_literals_lem token literals (match_bytes ++ tail) out (omega arith) l
              (omega (arith, length-append out literals)),
        )
        (rw
          (read_match_lem token distance extra tail (out ++ literals) out' (omega arith) p d x k c)
          refl)

  -- The final sequence ends the block.
  pub decode_final :
      (fuel : ℕ) (literals out : List ℕ)
      → length literals ≤ limit
      → length out + length literals ≤ n
      → decode_loop (suc fuel) n limit (final_bytes literals) out ≡ ok (out ++ literals)
  unfolding decode_loop final_bytes
  decode_final fuel literals out l k =
      let token : ℕ = min (length literals) 15 * 16 in
      let r = read_literals_lem token literals [] out (omega arith) l k in
      rw (rw (append-nil literals) at r)

pub length-sequence_bytes :
    (literals : List ℕ) (distance extra : ℕ)
    → length (sequence_bytes literals distance extra)
      ≡ length literals + length (ext_bytes (length literals)) + length (ext_bytes extra) + 3
unfolding sequence_bytes
length-sequence_bytes literals distance extra = omega (
  arith,
  length-append (ext_bytes (length literals))
      (literals ++ (distance % 256 ∷ distance / 256 ∷ ext_bytes extra)),
  length-append literals (distance % 256 ∷ distance / 256 ∷ ext_bytes extra),
)

pub length-final_bytes :
    (literals : List ℕ)
    → length (final_bytes literals) ≡ length literals + length (ext_bytes (length literals)) + 1
unfolding final_bytes
length-final_bytes literals = omega (arith, length-append (ext_bytes (length literals)) literals)
