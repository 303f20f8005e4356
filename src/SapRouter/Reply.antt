-- ===== src/SapRouter/Reply.antt =====
-- The error replies that `decodeSapRouterRouteResponse` accepts.
use open_rfc.Common.{
  length, drop, length-append, drop-length_append, drop-drop, ◌==◌, le→ltb, eq→==, gt→==, ok,
  negsuc, ℕ, ◌+◌, ◌^◌, ◌≤◌, ◌<◌, ◌≡◌, refl, sym, ap, ◌∙◌, Bool, true, false, List, [], ◌∷◌, ◌++◌,
  arith,
}
use open_rfc.Bytes.Words.{be_value-be32, be_value, signed32, be32, pattern32}
use open_rfc.SapRouter.Response.{
  byte_at, max_response_payload_bytes, trailer_valid, decode_route_response, error_eyecatcher,
  rejected,
}

-- An error reply: the eyecatcher, the version, two zero bytes, the negative return code, the length of
-- the text and the text, with or without the trailer of four zero bytes.
abbrev pub trailer : Bool → List ℕ
trailer true = 0 ∷ 0 ∷ 0 ∷ 0 ∷ []
trailer false = []

abbrev pub error_reply : ℕ → ℕ → List ℕ → Bool → List ℕ
error_reply version code text modern =
    error_eyecatcher
    ++ ((version ∷ 0 ∷ 0 ∷ [])
        ++ (be32 (pattern32 (negsuc code)) ++ (be32 (length text) ++ (text ++ trailer modern))))

trailer_valid-reply :
    (head text : List ℕ) (modern : Bool)
    → length head ≡ 20
    → trailer_valid (head ++ (text ++ trailer modern)) (20 + length text) ≡ true
trailer_valid-reply head text false h =
    let n : length (head ++ (text ++ [])) ≡ 20 + length text =
      omega (arith, length-append head (text ++ []), length-append text []) in
    rw (eq→== (length (head ++ (text ++ []))) (20 + length text) n) refl
trailer_valid-reply head text true h =
    let n : length (head ++ (text ++ trailer true)) ≡ 20 + length text + 4 =
      omega (arith, length-append head (text ++ trailer true), length-append text (trailer true)) in
    let k : 20 + length text ≡ length head + length text = omega arith in
    let d : drop (20 + length text) (head ++ (text ++ trailer true)) ≡ trailer true =
      ap (λ i. drop i (head ++ (text ++ trailer true))) k
      ∙ (sym (drop-drop (length text) (length head) _)
          ∙ (ap (drop (length text)) (drop-length_append head (text ++ trailer true))
              ∙ drop-length_append text (trailer true))) in
    rw
      (
        gt→== (length (head ++ (text ++ trailer true))) (20 + length text) (omega arith),
        eq→== (length (head ++ (text ++ trailer true))) (20 + length text + 4) n,
        d,
      )
      refl

abbrev reply_head : ℕ → ℕ → ℕ → List ℕ
reply_head version code len =
    error_eyecatcher ++ ((version ∷ 0 ∷ 0 ∷ []) ++ (be32 (pattern32 (negsuc code)) ++ be32 len))

word_at-code :
    (code : ℕ) → code < 2 ^ 31 → signed32 (be_value (be32 (pattern32 (negsuc code)))) ≡ negsuc code
word_at-code code h = rw (be_value-be32 (pattern32 (negsuc code))) (ground arith)

-- An error reply of at most 1 MiB, with a version in 1..255 and a return code -1 - `code` that fits in 32
-- bits, is decoded to these and to the length of its text, with the trailer and without it.
pub decode_route_response-error_reply :
    (version code : ℕ) (text : List ℕ) (modern : Bool)
    → 1 ≤ version
    → version ≤ 255
    → code < 2 ^ 31
    → length (error_reply version code text modern) ≤ 1048576
    → decode_route_response (error_reply version code text modern)
      ≡ ok (rejected version code (length text))
unfolding decode_route_response
decode_route_response-error_reply version code text modern lo hi c t =
    let n : be_value (be32 (length text)) ≡ length text = be_value-be32 (length text) in
    let w : signed32 (be_value (be32 (pattern32 (negsuc code)))) ≡ negsuc code =
      word_at-code code c in
    let b : byte_at 9 (error_reply version code text modern) ≡ version = omega arith in
    let z : (version == 0) ≡ false = gt→== version 0 (omega arith) in
    let v : trailer_valid (error_reply version code text modern) (20 + length text) ≡ true =
      trailer_valid-reply (reply_head version code (length text)) text modern refl in
    rw (
      le→ltb max_response_payload_bytes (length (error_reply version code text modern)) t,
      le→ltb (length (error_reply version code text modern)) 20 (omega arith),
      w,
      n,
      b,
      z,
      v,
    )
