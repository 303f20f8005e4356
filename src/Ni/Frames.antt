-- ===== src/Ni/Frames.antt =====
-- Frames that `encode_ni_frame` wrote come back from the decoder, however the network cuts them.
use open_rfc.Ni.Queue.{pending}
use open_rfc.Ni.Refines.{push-split_frames, Leaves, IsDecoder}
use open_rfc.Bytes.Words.{be_value-be32, be_value}
use native.Mathlib.Decide.{dec_le}
use open_rfc.Common.{
  length, take, drop, concat, All, length-append, length-drop, take-length_append,
  drop-length_append, take-append_le, drop-append_le, max_safe, natural, natural_in_range,
  natural_in_above, Result, ◌>>=◌, guard, >>=-eq-ok, JsError, ◌==◌, eq→==, ok, err, ℕ, zero, suc,
  ◌+◌, ◌^◌, ◌≤◌, ◌<◌, ◌≡◌, refl, sym, ap, ◌∙◌, ◌≢◌, ◌⊎◌, List, [], ◌∷◌, ◌++◌, append-nil,
  append_assoc, arith,
}
use open_rfc.Ni.{
  truncated, limit_exceeded, open_decoder, encode_ni_frame, finish_decoder, push, and_then, be32,
  Outcome, Decoder,
}
use open_rfc.Ni.Stream.{split_total, split_wait, split_frame, split_short, split_frames}

-- The bytes of one frame, and of frames one after the other.
abbrev pub frame : List ℕ → List ℕ
frame p = be32 (length p) ++ p

abbrev pub frames : List (List ℕ) → List ℕ
frames [] = []
frames (p ∷ ps) = frame p ++ frames ps

abbrev pub Fits : ℕ → List ℕ → Type 0
Fits limit p = (length p ≤ limit) × (length p < 2 ^ 32)

-- The stream `s ++ t` holds the frames of `ps`, and only `s` has arrived.
record Arrived (ps : List (List ℕ)) (s t : List ℕ) : Type 0 where
  later : List (List ℕ)
  done : List (List ℕ)
  rest : List ℕ
  all : ps ≡ done ++ later
  left : rest ++ t ≡ frames later
  whole : t ≡ [] → later ≡ []

-- The first frame of the stream, by what has arrived of it.
module _ (p : List ℕ) (r s t : List ℕ) (e : s ++ t ≡ frame p ++ r) where
  header : 4 ≤ length s → be_value (take 4 s) ≡ length p
  header h = ap be_value (sym (take-append_le 4 s t h) ∙ ap (take 4) e) ∙ be_value-be32 (length p)

  after_header : 4 ≤ length s → drop 4 s ++ t ≡ p ++ r
  after_header h = sym (drop-append_le 4 s t h) ∙ ap (drop 4) e

  body : 4 + length p ≤ length s → take (length p) (drop 4 s) ≡ p
  body h =
      sym (take-append_le (length p) (drop 4 s) t (omega (arith, length-drop 4 s)))
      ∙ (ap (take (length p)) (after_header (omega arith)) ∙ take-length_append p r)

  after_body : 4 + length p ≤ length s → drop (length p) (drop 4 s) ++ t ≡ r
  after_body h =
      sym (drop-append_le (length p) (drop 4 s) t (omega (arith, length-drop 4 s)))
      ∙ (ap (drop (length p)) (after_header (omega arith)) ∙ drop-length_append p r)

  not_whole : length s < 4 + length p → t ≢ []
  not_whole h n =
      absurd (omega (arith, ap length e, length-append s t, ap length n, length-append p r))

  split_partial :
      (fuel limit : ℕ) (out : List (List ℕ))
      → length p ≤ limit
      → length s < 4 + length p
      → split_frames (suc fuel) limit out s ≡ (s, ok out)
  split_partial fuel limit out h k = elim (dec_le 4 (length s)) [
    | no short ↦ split_short fuel limit out s (omega arith)
    | yes full ↦
        split_wait fuel limit out s full (omega (arith, header full)) (omega (arith, header full))
  ]

  split_whole :
      (fuel limit : ℕ) (out : List (List ℕ))
      → length p ≤ limit
      → 4 + length p ≤ length s
      → split_frames (suc fuel) limit out s
        ≡ split_frames fuel limit (out ++ (p ∷ [])) (drop (length p) (drop 4 s))
  split_whole fuel limit out h k =
      let v = header (omega arith) in
      split_frame fuel limit out s (omega arith) (omega (arith, v)) (omega (arith, v))
      ∙ rw (v, body k)

split-Arrived :
    (ps : List (List ℕ)) (fuel limit : ℕ) (out : List (List ℕ)) (s t : List ℕ)
    → All (Fits limit) ps
    → s ++ t ≡ frames ps
    → length s < fuel
    → (a : Arrived ps s t) × (split_frames fuel limit out s ≡ (a.rest, ok (out ++ a.done)))
split-Arrived ps zero limit out s t fits e h = absurd (omega arith)
split-Arrived [] (suc fuel) limit out s t fits e h = (
  record { later = []; done = []; rest = s; all = refl; left = e; whole = λ _. refl },
  split_short fuel limit out s (omega (arith, ap length e, length-append s t))
      ∙ rw (append-nil out),
)
split-Arrived (p ∷ ps) (suc fuel) limit out s t fits e h = elim (dec_le (4 + length p) (length s)) [
  | no part ↦
      let e' : s ++ t ≡ frame p ++ frames ps = e in
      (
        record {
          later = p ∷ ps;
          done = [];
          rest = s;
          all = refl;
          left = e;
          whole = λ n. absurd (not_whole p (frames ps) s t e' (omega arith) n);
        },
        split_partial p (frames ps) s t e' fuel limit out fits.0.0 (omega arith)
            ∙ rw (append-nil out),
      )
  | yes whole ↦
      let e' : s ++ t ≡ frame p ++ frames ps = e in
      let (a, b) =
        split-Arrived ps fuel limit (out ++ (p ∷ [])) (drop (length p) (drop 4 s)) t fits.1
          (after_body p (frames ps) s t e' whole)
          (omega (arith, length-drop (length p) (drop 4 s), length-drop 4 s)) in
      (
        record {
          later = a.later;
          done = p ∷ a.done;
          rest = a.rest;
          all = ap (λ l. p ∷ l) a.all;
          left = a.left;
          whole = a.whole;
        },
        split_whole p (frames ps) s t e' fuel limit out fits.0.0 whole
            ∙ (b ∙ rw (append_assoc out (p ∷ []) a.done)),
      )
]

-- A connection hands each received chunk to `push` and collects the payloads.
unfoldable pub feed : List (List ℕ) → List (List ℕ) → Decoder → Outcome (List (List ℕ))
feed [] out d = (d, ok out)
feed (c ∷ cs) out d = and_then (push c d) λ ps d'. feed cs (out ++ ps) d'

feed-Arrived :
    (chunks ps out : List (List ℕ)) (d : Decoder)
    → IsDecoder d
    → All (Fits d.max_payload_length) ps
    → pending d ++ concat chunks ≡ frames ps
    → (chunks ≡ [] → ps ≡ [])
    → Leaves d [] (ok (out ++ ps)) (feed chunks out d)
unfolding feed
feed-Arrived [] [] out d v fits e n =
    (d, rw (append-nil out), v, sym (append-nil (pending d)) ∙ e, refl)
feed-Arrived [] (p ∷ ps) out d v fits e n = absurd (cc (n refl))
feed-Arrived (c ∷ cs) ps out d v fits e n =
    let (a, cut) =
      split-Arrived ps (suc (length (pending d ++ c))) d.max_payload_length [] (pending d ++ c)
        (concat cs) fits (append_assoc (pending d) c (concat cs) ∙ e) (omega arith) in
    let (d', run, v', left, l) = push-split_frames c d v in
    let here : push c d ≡ (d', ok a.done) = run ∙ ap (λ o. (d', o)) (ap (λ o. o.1) cut) in
    let stays : pending d' ≡ a.rest = left ∙ ap (λ o. o.0) cut in
    let (d'', run', v'', left', l') =
      feed-Arrived cs a.later (out ++ a.done) d' v'
        (rw l (All-later a.done a.later (rw a.all at fits))) (rw stays a.left)
        (λ m. a.whole (ap concat m)) in
    (d'', rw (here, a.all) (run' ∙ rw (append_assoc out a.done a.later)), v'', left', l' ∙ l)
  where
    All-later :
        (xs ys : List (List ℕ))
        → All (Fits d.max_payload_length) (xs ++ ys)
        → All (Fits d.max_payload_length) ys
    All-later [] ys h = h
    All-later (x ∷ xs) ys h = All-later xs ys h.1

-- The stream of the encoded payloads.
unfoldable pub sent : List (List ℕ) → Result JsError (List ℕ)
sent [] = ok []
sent (p ∷ ps) = do front ← encode_ni_frame p; back ← sent ps; ok (front ++ back)

encode_ni_frame-frame :
    (p : List ℕ) {bs : List ℕ} → encode_ni_frame p ≡ ok bs → (length p < 2 ^ 32) × (bs ≡ frame p)
unfolding encode_ni_frame
encode_ni_frame-frame p h = ground arith

sent-frames :
    (limit : ℕ) (ps : List (List ℕ)) {s : List ℕ}
    → All (λ p. length p ≤ limit) ps
    → sent ps ≡ ok s
    → All (Fits limit) ps × (s ≡ frames ps)
unfolding sent
sent-frames limit [] h e = (tt, cc)
sent-frames limit (p ∷ ps) h e =
    let (a, ea, e') = >>=-eq-ok (encode_ni_frame p) _ e in
    let (b, eb, e'') = >>=-eq-ok (sent ps) _ e' in
    let (short, fa) = encode_ni_frame-frame p ea in
    let (fits, fb) = sent-frames limit ps h.1 eb in (((h.0, short), fits), cc)

fresh : ℕ → Decoder
fresh n = record {
  max_payload_length = n;
  chunks = [];
  head_index = 0;
  head_offset = 0;
  buffered = 0;
}

fresh-IsDecoder :
    (n : ℕ) → IsDecoder (fresh n) × (pending (fresh n) ≡ []) × ((fresh n).max_payload_length ≡ n)
unfolding fresh
fresh-IsDecoder n = (
  record { queue = record { nonempty = tt; head = omega arith; within = refl }; counted = refl },
  refl,
  refl,
)

open_decoder-fresh : (n : ℕ) {d : Decoder} → open_decoder (natural n) ≡ ok d → d ≡ fresh n
unfolding open_decoder fresh
open_decoder-fresh n e = elim (dec_le n max_safe) [
  | yes safe ↦ cc (natural_in_range n 0 max_safe (omega arith) (omega arith) safe)
  | no big ↦ cc (natural_in_above n 0 max_safe (omega arith))
]

-- A decoder that `open_decoder` returns satisfies the invariant, and nothing is pending.
pub open_decoder-IsDecoder :
    (n : ℕ) {d : Decoder}
    → open_decoder (natural n) ≡ ok d
    → IsDecoder d × (pending d ≡ []) × (d.max_payload_length ≡ n)
open_decoder-IsDecoder n e = rw (open_decoder-fresh n e) (fresh-IsDecoder n)

frames_empty : (ps : List (List ℕ)) → frames ps ≡ [] → ps ≡ []
frames_empty [] e = refl
frames_empty (p ∷ ps) e = absurd (cc)

-- Payloads within the decoder's limit that are encoded and sent as one stream come out of a fresh
-- decoder in order and complete, for every way in which the stream is cut into chunks, empty chunks
-- included; afterwards `finish` accepts, since no byte is left.
pub feed-sent :
    (limit : ℕ) (ps chunks : List (List ℕ)) (d : Decoder)
    → open_decoder (natural limit) ≡ ok d
    → All (λ p. length p ≤ limit) ps
    → sent ps ≡ ok (concat chunks)
    → ((feed chunks [] d).1 ≡ ok ps) × (finish_decoder (feed chunks [] d).0 ≡ ok tt)
unfolding finish_decoder
feed-sent limit ps chunks d o h e =
    let (v, p, l) = open_decoder-IsDecoder limit o in
    let (fits, s) = sent-frames limit ps h e in
    let (d', run, v', left, l') =
      feed-Arrived chunks ps [] d v (rw l fits) (rw p s)
        (λ m. frames_empty ps (sym s ∙ ap concat m)) in
    (
      ap (λ o. o.1) run,
      ap (λ o. guard (o.0.buffered == 0) truncated) run
          ∙ rw (eq→== d'.buffered 0 (omega (arith, v'.counted, ap length left))),
    )

-- From a decoder that satisfies the invariant every call of `push` keeps the invariant, and either
-- delivers payloads or reports a frame beyond the limit: the checks for an inconsistent queue and for
-- reading beyond it never fail, and neither loop of the model runs out of fuel.
pub push_total :
    (chunk : List ℕ) (d : Decoder)
    → IsDecoder d
    → IsDecoder (push chunk d).0
      × (((ps : List (List ℕ)) × ((push chunk d).1 ≡ ok ps))
          ⊎ ((push chunk d).1 ≡ err limit_exceeded))
push_total chunk d v =
    let s = pending d ++ chunk in
    let (d', run, v', left, l) = push-split_frames chunk d v in
    rw run (v', split_total (suc (length s)) d.max_payload_length [] s (omega arith))
