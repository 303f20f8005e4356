-- ===== src/SapRouter/Response.antt =====
-- The answer to a route request: the acknowledgement, or an error status.
use open_rfc.Common.{
  length, take, drop, ℤ, Result, ◌>>=◌, ◌>>◌, guard, or_throw, JsError, ltb, ◌==◌, if◌then◌else◌,
  ok, range_error, pos, negsuc, ℕ, ◌+◌, Bool, ◌&&◌, ◌||◌, not, Option, none, some, List, [], ◌∷◌,
}
use open_rfc.Bytes.Words.{be_value, signed32}
use open_rfc.UnicodeScalar.{text_eq}

abbrev pub max_response_payload_bytes : ℕ
max_response_payload_bytes = 1048576

-- "NI_PONG" and a zero byte.
abbrev pub pong : List ℕ
pong = 78 ∷ 73 ∷ 95 ∷ 80 ∷ 79 ∷ 78 ∷ 71 ∷ 0 ∷ []

-- "NI_RTERR" and a zero byte.
abbrev pub error_eyecatcher : List ℕ
error_eyecatcher = 78 ∷ 73 ∷ 95 ∷ 82 ∷ 84 ∷ 69 ∷ 82 ∷ 82 ∷ 0 ∷ []

-- `SapRouterRouteResponse`; the return code is negative, and `return_code` is its distance from -1.
pub data RouteResponse : Type 0 where
  accepted : RouteResponse
  rejected : (ni_version return_code error_text_byte_length : ℕ) → RouteResponse

abbrev pub byte_at : ℕ → List ℕ → ℕ
byte_at i payload = be_value (take 1 (drop i payload))

-- `payload.readUInt32BE(i)`
abbrev pub word_at : ℕ → List ℕ → ℕ
word_at i payload = be_value (take 4 (drop i payload))

abbrev pub negative : ℤ → Option ℕ
negative (pos n) = none
negative (negsuc n) = some n

abbrev pub trailer_valid : List ℕ → ℕ → Bool
trailer_valid payload documented =
    (length payload == documented)
    || ((length payload == documented + 4) && (word_at documented payload == 0))

unfoldable pub decode_route_response : List ℕ → Result JsError RouteResponse
decode_route_response payload = do
  guard (not (ltb max_response_payload_bytes (length payload))) range_error
  if text_eq payload pong then ok accepted else (do
    guard (text_eq (take 9 payload) error_eyecatcher) range_error
    guard (not (ltb (length payload) 20)) range_error
    code ← or_throw (negative (signed32 (word_at 12 payload))) range_error
    guard
        (not (
          (byte_at 9 payload == 0)
          || not (byte_at 10 payload == 0)
          || not (byte_at 11 payload == 0)))
        range_error
    guard (trailer_valid payload (20 + word_at 16 payload)) range_error
    ok (rejected (byte_at 9 payload) code (word_at 16 payload)))
