-- ===== src/Ni/Take.antt =====
-- `consume_loop` of Ni.antt takes bytes off the front of the chunk queue.
use open_rfc.Common.{
  length, take, drop, concat, length-drop, drop-length_append, drop-drop, take-append_le,
  drop-append_le, get_elem?-drop, All-drop, take-take-drop, suc_eq_zero, eq→==, lt→==, ok, ℕ, zero,
  suc, ◌+◌, ◌-◌, ◌≤◌, ◌<◌, min, ◌≡◌, refl, sym, ap, ◌∙◌, List, [], ◌∷◌, ◌++◌, append-nil,
  append_assoc, arith,
}
use native.Mathlib.Decide.{dec_le}
use open_rfc.Ni.{move_head, consume_loop, Outcome, Decoder}
use open_rfc.Ni.Queue.{Ahead-next, Ahead, IsQueue, pending}

-- What taking `n` bytes off the queue changes.
pub record TakesOff (n : ℕ) (d d' : Decoder) : Type 0 where
  pub queue : IsQueue d'
  pub left : pending d' ≡ drop n (pending d)
  pub same_buffered : d'.buffered ≡ d.buffered
  pub same_limit : d'.max_payload_length ≡ d.max_payload_length

TakesOff-trans :
    {m n : ℕ} (k : ℕ) {d e f : Decoder}
    → m + n ≡ k
    → TakesOff m d e
    → TakesOff n e f
    → TakesOff k d f
TakesOff-trans {m} {n} k {d} h s t = record {
  queue = t.queue;
  left =
      t.left
      ∙ (ap (drop n) s.left ∙ (drop-drop n m (pending d) ∙ ap (λ (i : ℕ). drop i (pending d)) h));
  same_buffered = t.same_buffered ∙ s.same_buffered;
  same_limit = t.same_limit ∙ s.same_limit;
}

-- The loop's result: `need` bytes off the front, appended to `out`.
abbrev pub Taken : ℕ → List ℕ → Decoder → Outcome (List ℕ) → Type 0
Taken need out d r =
    (d' : Decoder) × (r ≡ (d', ok (out ++ take need (pending d)))) × TakesOff need d d'

Taken-step :
    (m n k : ℕ) (out : List ℕ) (d e : Decoder) {r : Outcome (List ℕ)}
    → m + n ≡ k
    → TakesOff m d e
    → Taken n (out ++ take m (pending d)) e r
    → Taken k out d r
Taken-step m n k out d e h t (f, eq, u) = (f, eq ∙ ap (λ l. (f, ok l)) path, TakesOff-trans k h t u)
  where
    path : (out ++ take m (pending d)) ++ take n (pending e) ≡ out ++ take k (pending d)
    path =
        append_assoc out (take m (pending d)) (take n (pending e))
        ∙ ap (λ l. out ++ l)
            (ap (λ l. take m (pending d) ++ take n l) t.left ∙ take-take-drop m n k (pending d) h)

-- At the head chunk `c`, with `cs` behind it.
module _ (d : Decoder) (c : List ℕ) (cs : List (List ℕ)) (q : IsQueue d)
    (e : drop d.head_index d.chunks ≡ c ∷ cs) where
  next_chunk : drop (d.head_index + 1) d.chunks ≡ cs
  next_chunk =
      let i : d.head_index + 1 ≡ suc d.head_index = omega arith in
      rw i (get_elem?-drop d.head_index d.chunks c cs e).1

  head-Ahead : Ahead d.head_offset (c ∷ cs)
  head-Ahead = rw e at (
      let a : Ahead d.head_offset (drop d.head_index d.chunks) =
        (All-drop _ d.head_index d.chunks q.nonempty, q.within) in
      a)

  pending-head : pending d ≡ drop d.head_offset (c ++ concat cs)
  pending-head = ap (λ l. drop d.head_offset (concat l)) e

  next_chunk-TakesOff :
      (n : ℕ)
      → d.head_offset + n ≡ length c
      → TakesOff n d (record d { head_index = d.head_index + 1; head_offset = 0 })
  next_chunk-TakesOff n h = record {
    queue = record {
      nonempty = q.nonempty;
      head = omega (arith, length-drop d.head_index d.chunks, ap length e);
      within = rw next_chunk (Ahead-next cs head-Ahead.0.1).1;
    };
    left =
        ap concat next_chunk
        ∙ sym (
            ap (drop n) pending-head
            ∙ (drop-drop n d.head_offset _
                ∙ (ap (λ (i : ℕ). drop i (c ++ concat cs)) h ∙ drop-length_append c (concat cs))));
    same_buffered = refl;
    same_limit = refl;
  }

  same_chunk-TakesOff :
      (n : ℕ)
      → d.head_offset + n < length c
      → TakesOff n d (record d { head_offset = d.head_offset + n })
  same_chunk-TakesOff n h = record {
    queue = record { nonempty = q.nonempty; head = q.head; within = rw e h };
    left = sym (drop-drop n d.head_offset _);
    same_buffered = refl;
    same_limit = refl;
  }

  chunk_front :
      (n : ℕ) → n ≤ length c - d.head_offset → take n (drop d.head_offset c) ≡ take n (pending d)
  chunk_front n h =
      let off : d.head_offset < length c = head-Ahead.1 in
      sym (
        ap (take n) (pending-head ∙ drop-append_le d.head_offset c (concat cs) (omega arith))
        ∙ take-append_le n (drop d.head_offset c) (concat cs)
            (omega (arith, length-drop d.head_offset c)))

  step_eq :
      (fuel need n : ℕ) (out : List ℕ)
      → n ≡ min (suc need) (length c - d.head_offset)
      → consume_loop (suc fuel) (suc need) out d
        ≡ consume_loop fuel (suc need - n) (out ++ take n (pending d)) (move_head c n d)
  unfolding consume_loop
  step_eq fuel need n out e' = rw (
    suc_eq_zero need,
    (get_elem?-drop d.head_index d.chunks c cs e).0,
    ← e',
    chunk_front n (omega arith),
    consume_loop,
  )

  move_head_whole :
      (n : ℕ)
      → d.head_offset + n ≡ length c
      → move_head c n d ≡ record d { head_index = d.head_index + 1; head_offset = 0 }
  unfolding move_head
  move_head_whole n h = rw (eq→== _ _ h)

  move_head_part :
      (n : ℕ)
      → d.head_offset + n < length c
      → move_head c n d ≡ record d { head_offset = d.head_offset + n }
  unfolding move_head
  move_head_part n h = rw (lt→== _ _ h)

consume_done :
    (fuel need : ℕ) (out : List ℕ) (d : Decoder)
    → need ≡ 0
    → 0 < fuel
    → IsQueue d
    → Taken need out d (consume_loop fuel need out d)
unfolding consume_loop
consume_done zero need out d e h q = absurd (omega arith)
consume_done (suc fuel) (suc need) out d e h q = absurd (omega arith)
consume_done (suc fuel) zero out d e h q = (
  d,
  ap (λ l. (d, ok l)) (sym (append-nil out)),
  record { queue = q; left = refl; same_buffered = refl; same_limit = refl },
)

-- One round of the loop at the head chunk, with the rounds that follow as `rest`.
module _ (d : Decoder) (c : List ℕ) (cs : List (List ℕ)) (q : IsQueue d)
    (e : drop d.head_index d.chunks ≡ c ∷ cs) where
  round_whole :
      (fuel need : ℕ) (out : List ℕ)
      → length c - d.head_offset ≤ suc need
      → ((d' : Decoder)
          → IsQueue d'
          → drop d'.head_index d'.chunks ≡ cs
          → length (pending d') ≡ length (pending d) - (length c - d.head_offset)
          → Taken
              (suc need - (length c - d.head_offset))
              (out ++ take (length c - d.head_offset) (pending d))
              d'
              (consume_loop fuel
                (suc need - (length c - d.head_offset))
                (out ++ take (length c - d.head_offset) (pending d))
                d'))
      → Taken (suc need) out d (consume_loop (suc fuel) (suc need) out d)
  round_whole fuel need out h rest =
      let n : ℕ = length c - d.head_offset in
      let off : d.head_offset < length c = (head-Ahead d c cs q e).1 in
      let at : d.head_offset + n ≡ length c = omega arith in
      let t : TakesOff n d (record d { head_index = d.head_index + 1; head_offset = 0 }) =
        next_chunk-TakesOff d c cs q e n at in
      let shorter : length (drop 0 (concat (drop (d.head_index + 1) d.chunks)))
          ≡ length (pending d) - n =
        omega (arith, length-drop n (pending d), ap length t.left) in
      rw (step_eq d c cs q e fuel need n out (omega arith), move_head_whole d c cs q e n at)
        (Taken-step n (suc need - n) (suc need) out d _ (omega arith) t
          (rest _ t.queue (next_chunk d c cs q e) shorter))

  round_part :
      (fuel need : ℕ) (out : List ℕ)
      → suc need < length c - d.head_offset
      → 0 < fuel
      → Taken (suc need) out d (consume_loop (suc fuel) (suc need) out d)
  round_part fuel need out h hf =
      let t : TakesOff (suc need) d (record d { head_offset = d.head_offset + suc need }) =
        same_chunk-TakesOff d c cs q e (suc need) (omega arith) in
      rw
        (
          step_eq d c cs q e fuel need (suc need) out (omega arith),
          move_head_part d c cs q e (suc need) (omega arith),
        )
        (Taken-step (suc need) (suc need - suc need) (suc need) out d _ (omega arith) t
          (consume_done fuel (suc need - suc need) _ _ (omega arith) hf t.queue))

-- The loop takes `need` bytes off the front of the queue, if the queue holds them.
pub consume_loop_lem :
    (cs : List (List ℕ)) (fuel need : ℕ) (out : List ℕ) (d : Decoder)
    → IsQueue d
    → drop d.head_index d.chunks ≡ cs
    → need ≤ length (pending d)
    → length cs + 1 < fuel
    → Taken need out d (consume_loop fuel need out d)
consume_loop_lem cs fuel zero out d q e h hf = consume_done fuel 0 out d refl (omega arith) q
consume_loop_lem cs zero (suc need) out d q e h hf = absurd (omega arith)
consume_loop_lem [] (suc fuel) (suc need) out d q e h hf = absurd (
    omega (
      arith,
      ap (λ (l : List (List ℕ)). length (concat l)) e,
      length-drop d.head_offset (concat (drop d.head_index d.chunks)),
    ))
consume_loop_lem (c ∷ cs) (suc fuel) (suc need) out d q e h hf =
    elim (dec_le (length c - d.head_offset) (suc need)) [
      | yes fits ↦ round_whole d c cs q e fuel need out fits λ d' q' e' l.
          consume_loop_lem cs fuel (suc need - (length c - d.head_offset)) _ d' q' e' (omega arith)
            (omega arith)
      | no far ↦ round_part d c cs q e fuel need out (omega arith) (omega arith)
    ]
