-- ===== src/Lz4/Checks.antt =====
-- The checks of the encoder's Buffer accesses hold: no read is short of bytes, and every distance that is
-- written fits in 16 bits.
use open_rfc.Common.{
  length, get_elem?, Result, ◌>>=◌, Result-cases, ltb, leb, ◌==◌, leb→le, le→leb, Bool-cases,
  Option-cases, ok, ℕ, zero, suc, ◌+◌, ◌-◌, ◌*◌, ◌/◌, ◌%◌, ◌≤◌, ◌<◌, min, ◌≡◌, refl, ap, inl, inr,
  Option, none, some, List, [], ◌∷◌, arith,
}
use open_rfc.Lz4.Rounds.{
  TableBelow, record_position-TableBelow, TableBelow-mono, recorded-TableBelow,
}
use mathlib.Core.Path.{fun_ext}
use open_rfc.Lz4.Encode.{
  same_byte, extend_match, EncodeError, HashTable, record_position, uint32_at, hash_at,
  record_match, usable_candidate, write_byte, write_output, write_source, write_extended_length,
  write_uint16_le, write_sequence, encode_match, encode_loop,
}
use open_rfc.Lz4.Unchecked.{
  word_at_offset, hash_of, recorded, taken_candidate, joined_sequence, joined_loop,
}

pub extend_match_bounds :
    (source : List ℕ) (c p left m : ℕ)
    → let m' = extend_match source c p left m in (m ≤ m') × (m' ≤ m + left)
unfolding extend_match
extend_match_bounds source c p zero m = omega arith
extend_match_bounds source c p (suc left) m =
    elim (Bool-cases (same_byte (get_elem? source (c + m)) (get_elem? source (p + m)))) [
      | inl more ↦
          let (lo, hi) = extend_match_bounds source c p left (m + 1) in
          rw (more, extend_match) (omega arith, omega arith)
      | inr stop ↦ rw (stop, extend_match) (omega arith)
    ]

uint32_at-word_at_offset :
    (source : List ℕ) (offset : ℕ)
    → offset + 4 ≤ length source
    → uint32_at source offset ≡ ok (word_at_offset source offset)
unfolding uint32_at
uint32_at-word_at_offset source offset h = rw (le→leb (offset + 4) (length source) h) refl

hash_at-hash_of :
    (source : List ℕ) (offset : ℕ)
    → offset + 4 ≤ length source
    → hash_at source offset ≡ ok (hash_of source offset)
unfolding hash_at hash_of
hash_at-hash_of source offset h = rw (uint32_at-word_at_offset source offset h) refl

record_match-recorded :
    (source : List ℕ) (left update : ℕ) (table : HashTable)
    → record_match source left update table ≡ ok (recorded source left update table)
unfolding record_match recorded
record_match-recorded source zero update table = refl
record_match-recorded source (suc left) update table =
    elim (Bool-cases (leb (update + 4) (length source))) [
      | inr stop ↦ rw (stop, record_match, recorded) refl
      | inl more ↦
          rw (more, hash_at-hash_of source update (leb→le _ _ more), record_match, recorded)
            (record_match-recorded source left (update + 1)
              (record_position table (hash_of source update) update))
    ]

usable_candidate-taken_candidate :
    (source : List ℕ) (entry : Option ℕ) (position : ℕ)
    → position + 12 ≤ length source
    → ((c : ℕ) → entry ≡ some c → c < position)
    → usable_candidate source entry position ≡ ok (taken_candidate source entry position)
unfolding usable_candidate taken_candidate
usable_candidate-taken_candidate source none position h b = refl
usable_candidate-taken_candidate source (some c) position h b =
    elim (Bool-cases (ltb 0xffff (position - c))) [
      | inl far ↦ rw (far, usable_candidate, taken_candidate) refl
      | inr near ↦
          let below = b c refl in
          let e = uint32_at-word_at_offset source c (omega arith) in
          let f = uint32_at-word_at_offset source position (omega arith) in
          elim (Bool-cases (word_at_offset source c == word_at_offset source position)) [
            | inl same ↦ rw (near, same, usable_candidate, taken_candidate) (rw (e, f, same) refl)
            | inr other ↦
                rw (near, other, usable_candidate, taken_candidate) (rw (e, f, other) refl)
          ]
    ]

-- The distance of a match that is taken fits in the two bytes.
taken_candidate-near :
    (source : List ℕ) (entry : Option ℕ) (position : ℕ) {c : ℕ}
    → taken_candidate source entry position ≡ some c
    → position - c ≤ 0xffff
unfolding taken_candidate
taken_candidate-near source none position e = absurd (cc)
taken_candidate-near source (some d) position e = ground arith

write_uint16_le-write_output :
    (capacity value : ℕ) (out : List ℕ)
    → value ≤ 0xffff
    → write_uint16_le capacity value out
      ≡ write_output capacity (value % 256 ∷ value / 256 ∷ []) out
unfolding write_uint16_le write_output
write_uint16_le-write_output capacity value out h = rw (le→leb value 0xffff h) refl

write_sequence-joined_sequence :
    (capacity : ℕ) (source : List ℕ) (anchor len distance extra : ℕ) (out : List ℕ)
    → distance ≤ 0xffff
    → write_sequence capacity source anchor len distance extra out
      ≡ joined_sequence capacity source anchor len distance extra out
unfolding write_sequence joined_sequence
write_sequence-joined_sequence capacity source anchor len distance extra out h =
    ap
      (λ (w : List ℕ → Result EncodeError (List ℕ)).
        write_byte capacity (min len 15 * 16 + min extra 15) out >>= λ o₁.
        write_extended_length capacity len o₁ >>= λ o₂.
        write_source capacity source anchor len o₂ >>= λ o₃.
        w o₃ >>= λ o₄. write_extended_length capacity extra o₄)
      (fun_ext (λ o. write_uint16_le-write_output capacity distance o h))

-- Over a table of earlier positions the main loop is the loop without the checks.
pub encode_loop-joined_loop :
    (fuel capacity : ℕ) (source : List ℕ) (table : HashTable) (anchor position : ℕ) (out : List ℕ)
    → TableBelow table position
    → encode_loop fuel capacity source table anchor position out
      ≡ joined_loop fuel capacity source table anchor position out
unfolding encode_loop joined_loop encode_match
encode_loop-joined_loop zero capacity source table anchor position out b = refl
encode_loop-joined_loop (suc fuel) capacity source table anchor position out b =
    elim (Bool-cases (leb (position + 12) (length source))) [
      | inr last ↦ rw (last, encode_loop, joined_loop) refl
      | inl more ↦
          let room : position + 12 ≤ length source = leb→le _ _ more in
          let hash = hash_of source position in
          let read = hash_at-hash_of source position (omega arith) in
          let usable =
            usable_candidate-taken_candidate source (table hash) position room (b hash) in
          let later = record_position table hash position in
          elim (Option-cases (taken_candidate source (table hash) position)) [
            | inl none_taken ↦
                rw (more, read, usable, none_taken, encode_loop, joined_loop)
                  (encode_loop-joined_loop fuel capacity source later anchor (position + 1) out (
                    record_position-TableBelow table hash position (position + 1) (omega arith)
                      (TableBelow-mono table (omega arith) b)))
            | inr (c, taken) ↦
                let left = length source - 5 - (position + 4) in
                let len = extend_match source c position left 4 in
                let (lo, hi) = extend_match_bounds source c position left 4 in
                let near = taken_candidate-near source (table hash) position taken in
                let steps = position + len - (position + 1) in
                let below =
                  recorded-TableBelow source steps (position + 1) (position + len) later
                    (omega arith)
                    (record_position-TableBelow table hash position (position + len) (omega arith)
                      (TableBelow-mono table (omega arith) b)) in
                let written =
                  write_sequence-joined_sequence capacity source anchor (position - anchor)
                    (position - c) (len - 4) out near in
                let positions = record_match-recorded source steps (position + 1) later in
                rw (more, read, usable, taken, encode_loop, joined_loop)
                  (elim (Result-cases (
                    joined_sequence capacity source anchor (position - anchor) (position - c)
                      (len - 4) out)) [
                        | inl (out', e) ↦
                            rw (encode_match, written, e, positions)
                              (encode_loop-joined_loop fuel capacity source
                                (recorded source steps (position + 1) later) (position + len)
                                (position + len) out' below)
                        | inr (thrown, e) ↦ rw (encode_match, written, e) refl
                      ])
          ]
    ]
