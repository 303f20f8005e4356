-- ===== src/Lz4/Rounds.antt =====
-- The rounds of the encoder's main loop: what is written so far decodes to the source up to the anchor.
use open_rfc.Lz4.Writes.{write_output-eq-ok}
use open_rfc.Bytes.Words.{IsByte}
use open_rfc.Lz4.Encode.{extend_match, write_final, HashTable, record_position}
use open_rfc.Lz4.Unchecked.{
  joined_loop, joined_sequence, word_at_offset, taken_candidate, hash_of, recorded,
}
use open_rfc.Lz4.Sequence.{
  write_sequence_lem, write_final_lem, decode_sequence, length-sequence_bytes, decode_final,
  sequence_bytes, final_bytes,
}
use open_rfc.Common.{
  length, take, drop, All, length-append, length-take, length-drop, take_all, take-take-drop,
  max_safe, >>=-eq-ok, leb, leb→le, Bool-cases, Option-cases, ok, ℕ, zero, suc, ◌+◌, ◌-◌, ◌≤◌, ◌<◌,
  ◌≡◌, refl, sym, ap, ◌∙◌, inl, inr, Option, none, some, List, [], ◌++◌, append_assoc, arith,
}
use open_rfc.Lz4.Decode.{copy_match, decode_loop}
use open_rfc.Lz4.Copy.{word_at_offset-Repeats, extend_match-Repeats, copy_match-take, Repeats}

-- Every recorded position lies below the bound.
abbrev pub TableBelow : HashTable → ℕ → Type 0
TableBelow table bound = (h c : ℕ) → table h ≡ some c → c < bound

pub record_position-TableBelow :
    (table : HashTable) (hash position bound : ℕ)
    → position < bound
    → TableBelow table bound
    → TableBelow (record_position table hash position) bound
unfolding record_position
record_position-TableBelow table hash position bound h b k c e = ground (arith, b k c)

pub TableBelow-mono :
    (table : HashTable) {a b : ℕ} → a ≤ b → TableBelow table a → TableBelow table b
TableBelow-mono table h t k c e = omega (arith, t k c e)

pub recorded-TableBelow :
    (source : List ℕ) (left update bound : ℕ) (table : HashTable)
    → update + left ≤ bound
    → TableBelow table bound
    → TableBelow (recorded source left update table) bound
unfolding recorded
recorded-TableBelow source zero update bound table h b = b
recorded-TableBelow source (suc left) update bound table h b =
    elim (Bool-cases (leb (update + 4) (length source))) [
      | inl more ↦
          rw (more, recorded)
            (recorded-TableBelow source left (update + 1) bound
              (record_position table (hash_of source update) update) (omega arith)
              (record_position-TableBelow table _ update bound (omega arith) b))
      | inr stop ↦ rw (stop, recorded) b
    ]

-- What was written so far decodes to the first `anchor` bytes, in at most as many rounds as bytes.
pub record Emitted (n limit : ℕ) (source : List ℕ) (anchor : ℕ) (out : List ℕ) : Type 0 where
  pub rounds : ℕ
  pub few : rounds ≤ length out
  pub decodes :
      (fuel : ℕ) (tail : List ℕ)
      → decode_loop (rounds + fuel) n limit (out ++ tail) []
        ≡ decode_loop fuel n limit tail (take anchor source)

pub Emitted-empty : (n limit : ℕ) (source : List ℕ) → Emitted n limit source 0 []
Emitted-empty n limit source = record {
  rounds = 0;
  few = omega arith;
  decodes = λ fuel tail. ap (λ (k : ℕ). decode_loop k n limit tail []) (omega arith);
}

literals_of :
    (source : List ℕ) (a b : ℕ)
    → a ≤ b
    → b ≤ length source
    → take a source ++ take (b - a) (drop a source) ≡ take b source
literals_of source a b h k = take-take-drop a (b - a) b source (omega arith)

usable_candidate_sound :
    (source : List ℕ) (entry : Option ℕ) (position : ℕ) {c : ℕ}
    → taken_candidate source entry position ≡ some c
    → (entry ≡ some c) × (word_at_offset source c ≡ word_at_offset source position)
unfolding taken_candidate
usable_candidate_sound source none position e = absurd (cc)
usable_candidate_sound source (some d) position e = ground arith

module _ (limit : ℕ) (safe : limit ≤ max_safe) (source : List ℕ)
    (fits : length source ≤ limit) where
  -- Writing one more sequence.
  Emitted-sequence :
      (anchor position candidate extra : ℕ) (out : List ℕ)
      → anchor ≤ position
      → candidate < position
      → position + (extra + 4) ≤ length source
      → Repeats source candidate position (extra + 4)
      → Emitted (length source) limit source anchor out
      → Emitted (length source) limit source (position + (extra + 4)) (
          out
          ++ sequence_bytes
              (take (position - anchor) (drop anchor source))
              (position - candidate)
              extra)
  Emitted-sequence anchor position candidate extra out a c p r e =
      let literals : List ℕ = take (position - anchor) (drop anchor source) in
      let len : length literals ≡ position - anchor =
        omega (
          arith,
          length-take (position - anchor) (drop anchor source),
          length-drop anchor source,
        ) in
      let before : take anchor source ++ literals ≡ take position source =
        literals_of source anchor position a (omega arith) in
      let at : length (take anchor source ++ literals) ≡ position =
        omega (arith, ap length before, length-take position source) in
      let copied : copy_match (extra + 4) (position - candidate) (take anchor source ++ literals)
          ≡ ok (take (position + (extra + 4)) source) =
        rw before (
          copy_match-take (extra + 4) (position - candidate) candidate position source (omega arith)
            (omega arith) p r) in
      record {
        rounds = e.rounds + 1;
        few = omega (
          arith,
          e.few,
          length-append out (sequence_bytes literals (position - candidate) extra),
          length-sequence_bytes literals (position - candidate) extra,
        );
        decodes = λ fuel tail.
            rw (append_assoc out (sequence_bytes literals (position - candidate) extra) tail) (
              ap
                (λ (k : ℕ).
                  decode_loop k (length source) limit
                    (out ++ (sequence_bytes literals (position - candidate) extra ++ tail)) [])
                (regroup e.rounds fuel)
              ∙ (e.decodes (suc fuel) (sequence_bytes literals (position - candidate) extra ++ tail)
                  ∙ decode_sequence (length source) limit safe fuel literals (position - candidate)
                      extra tail (take anchor source) (take (position + (extra + 4)) source)
                      (omega arith) (omega arith) (omega arith) (omega arith) (omega arith)
                      copied));
      }
    where
      regroup : (k f : ℕ) → k + 1 + f ≡ k + suc f
      regroup k f = omega arith

  -- The whole block.
  decode-Emitted :
      (anchor : ℕ) (out : List ℕ)
      → anchor ≤ length source
      → Emitted (length source) limit source anchor out
      → let enc = out ++ final_bytes (take (length source - anchor) (drop anchor source)) in
        decode_loop (suc (length enc)) (length source) limit enc [] ≡ ok source
  decode-Emitted anchor out a e =
      let literals : List ℕ = take (length source - anchor) (drop anchor source) in
      let enc : List ℕ = out ++ final_bytes literals in
      let len : length literals ≡ length source - anchor = omega (
        arith,
        length-take (length source - anchor) (drop anchor source),
        length-drop anchor source,
      ) in
      let fuel : suc (length enc) ≡ e.rounds + suc (length enc - e.rounds) =
        omega (arith, e.few, length-append out (final_bytes literals)) in
      rw fuel (
        e.decodes (suc (length enc - e.rounds)) (final_bytes literals)
        ∙ (decode_final (length source) limit safe (length enc - e.rounds) literals
              (take anchor source) (omega arith) (omega (arith, length-take anchor source))
            ∙ ap ok (
                literals_of source anchor (length source) a (omega arith)
                ∙ take_all (length source) source (omega arith))))

  -- A block is good if it keeps to the capacity and decodes to the source.
  abbrev pub IsGood : ℕ → List ℕ → Type 0
  IsGood capacity enc =
      (length enc ≤ capacity)
      × (decode_loop (suc (length enc)) (length source) limit enc [] ≡ ok source)

  write_final-IsGood :
      (capacity anchor : ℕ) (out enc : List ℕ)
      → anchor ≤ length source
      → length out ≤ capacity
      → Emitted (length source) limit source anchor out
      → write_final capacity source anchor out ≡ ok enc
      → IsGood capacity enc
  write_final-IsGood capacity anchor out enc a l e w =
      let literals : List ℕ = take (length source - anchor) (drop anchor source) in
      let written =
        write_final_lem capacity source literals anchor out refl
          (omega (
            arith,
            length-take (length source - anchor) (drop anchor source),
            length-drop anchor source,
          ))
          l in
      let (same, fit) =
        write_output-eq-ok capacity (final_bytes literals) out l (sym written ∙ w) in
      (fit, rw same (decode-Emitted anchor out a e))

  module _ (bytes : All IsByte source) (capacity : ℕ) where
    -- What the main loop keeps true.
    pub record Going (table : HashTable) (anchor position : ℕ) (out : List ℕ) : Type 0 where
      pub below : TableBelow table position
      pub behind : anchor ≤ position
      pub inside : position ≤ length source
      pub room : length out ≤ capacity
      pub emitted : Emitted (length source) limit source anchor out

    Going-step :
        (table : HashTable) (anchor position : ℕ) (out : List ℕ)
        → position + 12 ≤ length source
        → Going table anchor position out
        → Going (record_position table (hash_of source position) position) anchor (position + 1) out
    Going-step table anchor position out h g = record {
      below =
          record_position-TableBelow table _ position (position + 1) (omega arith)
            (TableBelow-mono table (omega arith) g.below);
      behind = omega (arith, g.behind);
      inside = omega arith;
      room = g.room;
      emitted = g.emitted;
    }

    Going-match :
        (table : HashTable) (anchor position candidate len extra : ℕ) (out out' : List ℕ)
        → len ≡ extra + 4
        → position + len ≤ length source
        → candidate < position
        → Repeats source candidate position len
        → joined_sequence capacity source anchor
            (position - anchor)
            (position - candidate)
            extra
            out
          ≡ ok out'
        → Going table anchor position out
        → Going
            (recorded source
              (position + len - (position + 1))
              (position + 1)
              (record_position table (hash_of source position) position))
            (position + len)
            (position + len)
            out'
    Going-match table anchor position candidate len extra out out' e h c r w g =
        let literals : List ℕ = take (position - anchor) (drop anchor source) in
        let behind : anchor ≤ position = g.behind in
        let written =
          write_sequence_lem capacity source literals anchor (position - anchor)
            (position - candidate) extra out refl
            (omega (
              arith,
              length-take (position - anchor) (drop anchor source),
              length-drop anchor source,
            ))
            g.room in
        let (same, fit) = write_output-eq-ok capacity _ out g.room (sym written ∙ w) in
        record {
          below =
              recorded-TableBelow source (position + len - (position + 1)) (position + 1)
                (position + len) _ (omega arith)
                (record_position-TableBelow table _ position (position + len) (omega arith)
                  (TableBelow-mono table (omega arith) g.below));
          behind = omega arith;
          inside = h;
          room = fit;
          emitted =
              rw (same, e)
                (Emitted-sequence anchor position candidate extra out behind c (omega arith)
                  (rw e at r) g.emitted);
        }

    pub joined_loop-IsGood :
        (fuel : ℕ) (table : HashTable) (anchor position : ℕ) (out enc : List ℕ)
        → Going table anchor position out
        → joined_loop fuel capacity source table anchor position out ≡ ok enc
        → IsGood capacity enc
    unfolding joined_loop
    joined_loop-IsGood zero table anchor position out enc g e = absurd (cc)
    joined_loop-IsGood (suc fuel) table anchor position out enc g e =
        elim (Bool-cases (leb (position + 12) (length source))) [
          | inr last ↦
              write_final-IsGood capacity anchor out enc (omega (arith, g.behind, g.inside)) g.room
                g.emitted (rw (last, joined_loop) at e)
          | inl more ↦
              let h : position + 12 ≤ length source = leb→le _ _ more in
              elim (Option-cases
                (taken_candidate source (table (hash_of source position)) position)) [
                  | inl unusable ↦
                      joined_loop-IsGood fuel _ anchor (position + 1) out enc
                        (Going-step table anchor position out h g)
                        (rw (more, unusable, joined_loop) at e)
                  | inr (c, usable) ↦
                      let left : ℕ = length source - 5 - (position + 4) in
                      let len : ℕ = extend_match source c position left 4 in
                      let (entry, same) =
                        usable_candidate_sound source (table (hash_of source position)) position
                          usable in
                      let below : c < position = g.below _ c entry in
                      let (r, lo, hi) = extend_match-Repeats source c position left 4 (
                        word_at_offset-Repeats source c position bytes (omega arith) (omega arith)
                          same) in
                      let (out', w, rest) =
                        >>=-eq-ok
                          (joined_sequence capacity source anchor (position - anchor) (position - c)
                            (len - 4) out)
                          _ (rw (more, usable, joined_loop) at e) in
                      joined_loop-IsGood fuel _ (position + len) (position + len) out' enc
                        (Going-match table anchor position c len (len - 4) out out' (omega arith)
                          (omega arith) below r w g)
                        rest
                ]
        ]
