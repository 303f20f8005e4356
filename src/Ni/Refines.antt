-- ===== src/Ni/Refines.antt =====
-- NiFrameDecoder does over its chunk queue what `split_frames` does over one stream of bytes.
use native.Mathlib.Decide.{dec_le}
use open_rfc.Bytes.Words.{be_value}
use open_rfc.Ni.Stream.{split_wait, split_over, split_frame, split_short, split_frames}
use open_rfc.Ni.Take.{consume_loop_lem}
use open_rfc.Common.{
  length, take, drop, concat, length-append, length-drop, drop-append_le, drop_all, concat-append,
  All-drop, All-append, Result, ltb, leb, ◌==◌, lt→ltb, le→ltb, ==_iff, Bool-cases, ok, err, ℕ,
  zero, suc, ◌+◌, ◌-◌, ◌*◌, ◌≤◌, ◌≡◌, refl, sym, ap, ◌∙◌, inl, inr, true, false, ◌&&◌, List, [],
  ◌∷◌, ◌++◌, append-nil, arith,
}
use open_rfc.Ni.{
  receive, push, limit_exceeded, peek_uint32_be, push_loop, Outcome, compact_queue, consume,
  NiError, Decoder,
}
use open_rfc.Ni.Queue.{peek_uint32_be_lem, IsQueue, HeadWithin, pending}

-- The invariant of the decoder between two calls.
pub record IsDecoder (d : Decoder) : Type 0 where
  pub queue : IsQueue d
  pub counted : d.buffered ≡ length (pending d)

record Keeps (d d' : Decoder) : Type 0 where
  queue : IsQueue d'
  same : pending d' ≡ pending d
  same_buffered : d'.buffered ≡ d.buffered
  same_limit : d'.max_payload_length ≡ d.max_payload_length

drop_empty : (n : ℕ) → drop {A = ℕ} n [] ≡ []
drop_empty n = drop_all n [] (omega arith)

HeadWithin-empty : (offset : ℕ) (cs : List (List ℕ)) → cs ≡ [] → HeadWithin offset cs → offset ≡ 0
HeadWithin-empty offset [] e h = h
HeadWithin-empty offset (c ∷ cs) e h = absurd (cc)

compact_all :
    (d : Decoder)
    → IsQueue d
    → d.head_index ≡ length d.chunks
    → Keeps d (record d { chunks = []; head_index = 0 })
compact_all d q e =
    let gone : drop d.head_index d.chunks ≡ [] = drop_all d.head_index d.chunks (omega arith) in
    record {
      queue = record {
        nonempty = tt;
        head = omega arith;
        within = HeadWithin-empty d.head_offset _ gone q.within;
      };
      same = sym (ap (λ l. drop d.head_offset (concat l)) gone);
      same_buffered = refl;
      same_limit = refl;
    }

compact_front :
    (d : Decoder)
    → IsQueue d
    → Keeps d (record d { chunks = drop d.head_index d.chunks; head_index = 0 })
compact_front d q = record {
  queue = record {
    nonempty = All-drop _ d.head_index d.chunks q.nonempty;
    head = omega arith;
    within = q.within;
  };
  same = refl;
  same_buffered = refl;
  same_limit = refl;
}

compact_queue-Keeps : (d : Decoder) → IsQueue d → Keeps d (compact_queue d)
unfolding compact_queue
compact_queue-Keeps d q = elim (Bool-cases (d.head_index == length d.chunks)) [
  | inl all ↦ rw all (compact_all d q ((==_iff _ _).0 all))
  | inr more ↦
      rw more (elim (Bool-cases (leb 64 d.head_index && leb (length d.chunks) (d.head_index * 2))) [
        | inl front ↦ rw front (compact_front d q)
        | inr none_of ↦
            rw none_of (record { queue = q; same = refl; same_buffered = refl; same_limit = refl })
      ])
]

-- A call that leaves `s` in the decoder and answers `r`.
abbrev pub Leaves {ℓ} : {A : Type ℓ} → Decoder → List ℕ → Result NiError A → Outcome A → Type ℓ
Leaves d s r o =
    (d' : Decoder) × (o ≡ (d', r))
    × IsDecoder d'
    × (pending d' ≡ s)
    × (d'.max_payload_length ≡ d.max_payload_length)

recount : (n : ℕ) (d : Decoder) → IsQueue d → IsQueue (record d { buffered = n })
recount n d q = record { nonempty = q.nonempty; head = q.head; within = q.within }

-- `consume` takes `n` bytes off a decoder that holds them.
pub consume_lem :
    (n : ℕ) (d : Decoder)
    → IsDecoder d
    → n ≤ length (pending d)
    → Leaves d (drop n (pending d)) (ok (take n (pending d))) (consume n d)
unfolding consume
consume_lem n d v h =
    let (d₁, e, t) =
      consume_loop_lem (drop d.head_index d.chunks) (length d.chunks + 2) n [] d v.queue refl h
        (omega (arith, length-drop d.head_index d.chunks)) in
    let k =
      compact_queue-Keeps (record d₁ { buffered = d₁.buffered - n })
        (recount (d₁.buffered - n) d₁ t.queue) in
    (
      compact_queue (record d₁ { buffered = d₁.buffered - n }),
      rw (le→ltb d.buffered n (omega (arith, v.counted)), e),
      record {
        queue = k.queue;
        counted = omega (
          arith,
          k.same_buffered,
          ap length k.same,
          ap length t.left,
          length-drop n (pending d),
          t.same_buffered,
          v.counted,
        );
      },
      k.same ∙ t.left,
      k.same_limit ∙ t.same_limit,
    )

Leaves-self {ℓ} :
    {A : Type ℓ} (d : Decoder) (r : Result NiError A) → IsDecoder d → Leaves d (pending d) r (d, r)
Leaves-self d r v = (d, refl, v, refl, refl)

-- The rounds of the two loops, branch by branch.
module _ (fuel : ℕ) (out : List (List ℕ)) (d : Decoder) where
  push_short : ltb d.buffered 4 ≡ true → push_loop (suc fuel) out d ≡ (d, ok out)
  unfolding push_loop
  push_short h = rw (h, push_loop)

  module _ (len : ℕ) (full : ltb d.buffered 4 ≡ false) (peeked : peek_uint32_be d ≡ ok len) where
    push_over :
        ltb d.max_payload_length len ≡ true → push_loop (suc fuel) out d ≡ (d, err limit_exceeded)
    unfolding push_loop
    push_over h = ground arith

    push_wait :
        ltb d.max_payload_length len ≡ false
        → ltb d.buffered (4 + len) ≡ true
        → push_loop (suc fuel) out d ≡ (d, ok out)
    unfolding push_loop
    push_wait h k = ground arith

    push_frame :
        ltb d.max_payload_length len ≡ false
        → ltb d.buffered (4 + len) ≡ false
        → {d₂ d₃ : Decoder} {bs payload : List ℕ} → consume 4 d ≡ (d₂, ok bs)
        → consume len d₂ ≡ (d₃, ok payload)
        → push_loop (suc fuel) out d ≡ push_loop fuel (out ++ (payload ∷ [])) d₃
    unfolding push_loop
    push_frame h k a b = ground arith

-- The decoder answers as `spec` does.
abbrev pub Answers :
    Decoder → List ℕ × Result NiError (List (List ℕ)) → Outcome (List (List ℕ)) → Type 0
Answers d spec o = Leaves d spec.0 spec.1 o

Answers-self :
    (d : Decoder) (spec : List ℕ × Result NiError (List (List ℕ))) (o : Outcome (List (List ℕ)))
    (r : Result NiError (List (List ℕ)))
    → IsDecoder d
    → spec ≡ (pending d, r)
    → o ≡ (d, r)
    → Answers d spec o
Answers-self d spec o r v a b = rw (a, b) (d, refl, v, refl, refl)

-- A round that takes a frame, with the rounds that follow as `rest`.
round_frame :
    (fuel limit len : ℕ) (out : List (List ℕ)) (d d₂ d₃ : Decoder)
    → d.max_payload_length ≡ limit
    → be_value (take 4 (pending d)) ≡ len
    → len ≤ limit
    → 4 + len ≤ length (pending d)
    → d.buffered ≡ length (pending d)
    → peek_uint32_be d ≡ ok len
    → consume 4 d ≡ (d₂, ok (take 4 (pending d)))
    → pending d₂ ≡ drop 4 (pending d)
    → consume len d₂ ≡ (d₃, ok (take len (pending d₂)))
    → pending d₃ ≡ drop len (pending d₂)
    → d₃.max_payload_length ≡ limit
    → Answers d₃
        (split_frames fuel limit (out ++ (take len (pending d₂) ∷ [])) (pending d₃))
        (push_loop fuel (out ++ (take len (pending d₂) ∷ [])) d₃)
    → Answers d (split_frames (suc fuel) limit out (pending d)) (push_loop (suc fuel) out d)
round_frame fuel limit len out d d₂ d₃ hl hv fits whole counted peeked e₂ p₂ e₃ p₃ l₃
      (d₄, e₄, v₄, p₄, l₄) =
    let spec : split_frames (suc fuel) limit out (pending d)
        ≡ split_frames fuel limit (out ++ (take len (pending d₂) ∷ [])) (pending d₃) =
      rw (p₃, p₂, ← hv)
        (split_frame fuel limit out (pending d) (omega arith) (omega arith) (omega arith)) in
    let run : push_loop (suc fuel) out d ≡ push_loop fuel (out ++ (take len (pending d₂) ∷ [])) d₃ =
      push_frame fuel out d len (le→ltb _ _ (omega arith)) peeked (le→ltb _ _ (omega arith))
        (le→ltb _ _ (omega arith)) e₂ e₃ in
    rw spec (d₄, run ∙ e₄, v₄, p₄, l₄ ∙ (l₃ ∙ sym hl))

-- The loop of `push` cuts the frames off the stream that the queue holds.
pub push_loop_lem :
    (fuel limit : ℕ) (out : List (List ℕ)) (d : Decoder)
    → IsDecoder d
    → d.max_payload_length ≡ limit
    → Answers d (split_frames fuel limit out (pending d)) (push_loop fuel out d)
unfolding push_loop split_frames
push_loop_lem zero limit out d v hl = (d, refl, v, refl, refl)
push_loop_lem (suc fuel) limit out d v hl = elim (dec_le 4 (length (pending d))) [
  | no short ↦
      Answers-self d _ _ (ok out) v (split_short fuel limit out (pending d) (omega arith))
        (push_short fuel out d (lt→ltb _ _ (omega (arith, v.counted))))
  | yes full ↦ elim (dec_le len limit) [
    | no over ↦
        Answers-self d _ _ (err limit_exceeded) v
          (split_over fuel limit out (pending d) full (omega arith))
          (push_over fuel out d len (not_short full) (peeked full) (lt→ltb _ _ (omega arith)))
    | yes fits ↦ elim (dec_le (4 + len) (length (pending d))) [
      | no wait ↦
          Answers-self d _ _ (ok out) v
            (split_wait fuel limit out (pending d) full fits (omega arith))
            (push_wait fuel out d len (not_short full) (peeked full) (le→ltb _ _ (omega arith))
              (lt→ltb _ _ (omega (arith, v.counted))))
      | yes whole ↦
          let (d₂, e₂, v₂, p₂, l₂) = consume_lem 4 d v full in
          let (d₃, e₃, v₃, p₃, l₃) =
            consume_lem len d₂ v₂ (omega (arith, ap length p₂, length-drop 4 (pending d))) in
          round_frame fuel limit len out d d₂ d₃ hl refl fits whole v.counted (peeked full) e₂ p₂ e₃
            p₃ (l₃ ∙ (l₂ ∙ hl))
            (push_loop_lem fuel limit (out ++ (take len (pending d₂) ∷ [])) d₃ v₃ (l₃ ∙ (l₂ ∙ hl)))
    ]
  ]
]
  where
    len : ℕ
    len = be_value (take 4 (pending d))

    peeked : 4 ≤ length (pending d) → peek_uint32_be d ≡ ok len
    peeked full = peek_uint32_be_lem d v.queue full

    not_short : 4 ≤ length (pending d) → ltb d.buffered 4 ≡ false
    not_short full = le→ltb _ _ (omega (arith, v.counted))

HeadWithin-snoc :
    (cs : List (List ℕ)) (offset : ℕ) (b : ℕ) (bs : List ℕ)
    → HeadWithin offset cs
    → HeadWithin offset (cs ++ ((b ∷ bs) ∷ []))
HeadWithin-snoc [] offset b bs h = omega arith
HeadWithin-snoc (c ∷ cs) offset b bs h = h

drop_head-snoc :
    (cs : List (List ℕ)) (offset : ℕ) (c : List ℕ)
    → HeadWithin offset cs
    → drop offset (concat (cs ++ (c ∷ []))) ≡ drop offset (concat cs) ++ c
drop_head-snoc cs offset c h =
    rw (concat-append cs (c ∷ []), append-nil c)
      (drop-append_le offset (concat cs) c (within-length cs h))
  where
    within-length : (cs : List (List ℕ)) → HeadWithin offset cs → offset ≤ length (concat cs)
    within-length [] h = omega arith
    within-length (e ∷ es) h = omega (arith, length-append e (concat es))

abbrev queued : List ℕ → Decoder → Decoder
queued chunk d = record d {
  chunks = d.chunks ++ (chunk ∷ []);
  buffered = d.buffered + length chunk;
}

receive-cons : (b : ℕ) (bs : List ℕ) (d : Decoder) → receive (b ∷ bs) d ≡ queued (b ∷ bs) d
receive-cons b bs d = rw (lt→ltb 0 (length (b ∷ bs)) (omega arith))

pending-queued :
    (chunk : List ℕ) (d : Decoder) → IsDecoder d → pending (queued chunk d) ≡ pending d ++ chunk
pending-queued chunk d v =
    ap (λ l. drop d.head_offset (concat l))
      (drop-append_le d.head_index d.chunks (chunk ∷ []) v.queue.head)
    ∙ drop_head-snoc (drop d.head_index d.chunks) d.head_offset chunk v.queue.within

queued-IsDecoder : (b : ℕ) (bs : List ℕ) (d : Decoder) → IsDecoder d → IsDecoder (queued (b ∷ bs) d)
queued-IsDecoder b bs d v = record {
  queue = record {
    nonempty = All-append _ d.chunks ((b ∷ bs) ∷ []) v.queue.nonempty (omega arith, tt);
    head = omega (arith, length-append d.chunks ((b ∷ bs) ∷ []), v.queue.head);
    within =
        rw (drop-append_le d.head_index d.chunks ((b ∷ bs) ∷ []) v.queue.head)
          (HeadWithin-snoc (drop d.head_index d.chunks) d.head_offset b bs v.queue.within);
  };
  counted = omega (
    arith,
    ap length (pending-queued (b ∷ bs) d v),
    length-append (pending d) (b ∷ bs),
    v.counted,
  );
}

-- Each call of `push` answers as the cutting of one stream does: what was pending before the call,
-- followed by the chunk. What the decoder holds afterwards is what the cutting leaves.
pub push-split_frames :
    (chunk : List ℕ) (d : Decoder)
    → IsDecoder d
    → let s = pending d ++ chunk in
      Answers d (split_frames (suc (length s)) d.max_payload_length [] s) (push chunk d)
unfolding push
push-split_frames [] d v =
    rw (append-nil (pending d), ← v.counted)
      (push_loop_lem (suc d.buffered) d.max_payload_length [] d v refl)
push-split_frames (b ∷ bs) d v =
    let q = queued-IsDecoder b bs d v in
    rw (receive-cons b bs d, ← pending-queued (b ∷ bs) d v, ← q.counted)
      (push_loop_lem (suc (queued (b ∷ bs) d).buffered) d.max_payload_length [] (queued (b ∷ bs) d)
        q refl)
