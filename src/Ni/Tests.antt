-- ===== src/Ni/Tests.antt =====
-- The NI theorems at concrete inputs: two frames, cut inside a header, an empty chunk among them.
use open_rfc.Ni.Stream.{split_frames}
use open_rfc.Ni.Frames.{feed-sent, push_total, sent, feed, open_decoder-IsDecoder}
use open_rfc.Common.{concat, natural, ok, err, ℕ, ◌≡◌, refl, ◌⊎◌, List, [], ◌∷◌, arith}
use open_rfc.Ni.{encode_ni_frame, finish_decoder, limit_exceeded, open_decoder, Decoder, push}
use open_rfc.Ni.Refines.{push-split_frames, Answers, IsDecoder}

abbrev payloads : List (List ℕ)
payloads = (7 ∷ 8 ∷ []) ∷ (9 ∷ []) ∷ []

abbrev chunks : List (List ℕ)
chunks = (0 ∷ 0 ∷ 0 ∷ []) ∷ [] ∷ (2 ∷ 7 ∷ 8 ∷ 0 ∷ 0 ∷ []) ∷ (0 ∷ 1 ∷ 9 ∷ []) ∷ []

abbrev started : Decoder
started = record {
  max_payload_length = 100;
  chunks = [];
  head_index = 0;
  head_offset = 0;
  buffered = 0;
}

open_started : open_decoder (natural 100) ≡ ok started
unfolding open_decoder
open_started = refl

sent-payloads : sent payloads ≡ ok (concat chunks)
unfolding sent encode_ni_frame
sent-payloads = refl

started-IsDecoder : IsDecoder started
started-IsDecoder = (open_decoder-IsDecoder 100 open_started).0

feed-sent_example :
    ((feed chunks [] started).1 ≡ ok payloads) × (finish_decoder (feed chunks [] started).0 ≡ ok tt)
feed-sent_example = feed-sent 100 payloads chunks started open_started (omega arith) sent-payloads

push-split_frames_example :
    Answers started
      (split_frames 9 100 [] (0 ∷ 0 ∷ 0 ∷ 2 ∷ 7 ∷ 8 ∷ 0 ∷ 0 ∷ []))
      (push (0 ∷ 0 ∷ 0 ∷ 2 ∷ 7 ∷ 8 ∷ 0 ∷ 0 ∷ []) started)
push-split_frames_example =
    push-split_frames (0 ∷ 0 ∷ 0 ∷ 2 ∷ 7 ∷ 8 ∷ 0 ∷ 0 ∷ []) started started-IsDecoder

push_total_example :
    IsDecoder (push (0 ∷ 0 ∷ 0 ∷ 101 ∷ []) started).0
    × (((ps : List (List ℕ)) × ((push (0 ∷ 0 ∷ 0 ∷ 101 ∷ []) started).1 ≡ ok ps))
        ⊎ ((push (0 ∷ 0 ∷ 0 ∷ 101 ∷ []) started).1 ≡ err limit_exceeded))
push_total_example = push_total (0 ∷ 0 ∷ 0 ∷ 101 ∷ []) started started-IsDecoder
