-- ===== src/SapRouter/Request.antt =====
-- The NI_ROUTE request of an admitted route.
use open_rfc.Common.{
  length, Number, or_default, natural_in, Result, ◌>>=◌, ◌>>◌, guard, or_throw, JsError, ◌==◌, ok,
  range_error, general_error, ℕ, ◌+◌, ◌-◌, Option, List, [], ◌∷◌, ◌++◌,
}
use open_rfc.Bytes.Words.{be16, be32}
use open_rfc.SapRouter.Route.{Hop, Route, or_empty, internal_hop_byte_length}

abbrev pub route_information_version : ℕ
route_information_version = 2

abbrev pub default_ni_version : ℕ
default_ni_version = 40

abbrev pub route_header_length : ℕ
route_header_length = 0x18

-- "NI_ROUTE" and a zero byte.
abbrev pub route_eyecatcher : List ℕ
route_eyecatcher = 78 ∷ 73 ∷ 95 ∷ 82 ∷ 79 ∷ 85 ∷ 84 ∷ 69 ∷ 0 ∷ []

abbrev pub normalized_ni_version : Number → Result JsError ℕ
normalized_ni_version v = or_throw (natural_in v 1 255) range_error

-- A field and the zero byte behind it.
abbrev pub write_field : List ℕ → List ℕ
write_field field = field ++ (0 ∷ [])

abbrev pub write_hop : Hop → List ℕ
write_hop hop =
    write_field hop.host
    ++ (write_field (or_empty hop.service) ++ write_field (or_empty hop.password))

abbrev pub write_hops : List Hop → List ℕ
write_hops [] = []
write_hops (hop ∷ hops) = write_hop hop ++ write_hops hops

abbrev pub first_length : List Hop → ℕ
first_length [] = 0
first_length (hop ∷ hops) = internal_hop_byte_length hop

abbrev pub route_header : Route → ℕ → List ℕ
route_header route ni_version =
    route_eyecatcher
    ++ ((route_information_version ∷ ni_version ∷ length route.hops ∷ 0 ∷ [])
        ++ (be16 0
            ++ (((length route.hops - 1) ∷ [])
                ++ (be32 route.byte_length ++ be32 (first_length route.hops)))))

-- `encodeSapRouterRouteRequestPayload`: the header, and the fields behind it. A payload that is not
-- filled exactly is an internal error.
unfoldable pub encode_route_request_payload : Route → Option Number → Result JsError (List ℕ)
encode_route_request_payload route ni_version = do
  version ← normalized_ni_version (or_default ni_version default_ni_version)
  let body = write_hops route.hops
  guard (route_header_length + length body == route_header_length + route.byte_length) general_error
  ok (route_header route version ++ body)
