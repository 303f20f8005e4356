-- ===== src/SapRouter/Prefix.antt =====
-- Route prefixes, and their completion with the endpoint of a gateway.
use open_rfc.UnicodeScalar.{text_eq}
use open_rfc.Common.{
  length, drop, Number, natural_in, Result, ◌>>=◌, ◌>>◌, guard, or_throw, JsError, ltb, leb, ok,
  range_error, ℕ, ◌-◌, Bool, ◌&&◌, ◌||◌, not, some, List, [], ◌∷◌, ◌++◌,
}
use open_rfc.Int8.{decimal}
use open_rfc.SapRouter.Route.{
  between, all_of, max_route_bytes, host_field, admit_route, Route, route_field,
}

-- "open-rfc-target.invalid" and "65535".
abbrev pub route_prefix_sentinel_host : List ℕ
route_prefix_sentinel_host =
    111 ∷ 112 ∷ 101 ∷ 110 ∷ 45 ∷ 114 ∷ 102 ∷ 99 ∷ 45 ∷ 116 ∷ 97 ∷ 114 ∷ 103 ∷ 101 ∷ 116 ∷ 46 ∷ 105
    ∷ 110 ∷ 118 ∷ 97 ∷ 108 ∷ 105 ∷ 100 ∷ []

abbrev pub route_prefix_sentinel_port : ℕ
route_prefix_sentinel_port = 65535

-- `input.endsWith("/H/")`
abbrev pub ends_with_placeholder : List ℕ → Bool
ends_with_placeholder input =
    leb 3 (length input) && text_eq (drop (length input - 3) input) (47 ∷ 72 ∷ 47 ∷ [])

-- The digits of a port.
unfoldable pub port_text : ℕ → List ℕ
port_text port = decimal 4 port

-- The host and the port behind a prefix.
abbrev pub endpoint : List ℕ → ℕ → List ℕ
endpoint host port = host ++ (47 ∷ 83 ∷ 47 ∷ port_text port)

-- `assertSapRouterRoutePrefix` on a string.
unfoldable pub assert_route_prefix : List ℕ → Result JsError (Unit {0})
assert_route_prefix input = do
  guard
      (not (
        not (ends_with_placeholder input)
        || ltb max_route_bytes (length input)
        || not (all_of (between 0x20 0x7e) input)))
      range_error
  route ← admit_route (input ++ endpoint route_prefix_sentinel_host route_prefix_sentinel_port)
  ok tt

-- `completeSapRouterRoute` on a string.
unfoldable pub complete_route : List ℕ → List ℕ → Number → Result JsError Route
complete_route prefix gateway_host gateway_port = do
  assert_route_prefix prefix
  host ← route_field (some gateway_host) host_field
  port ← or_throw (natural_in gateway_port 1 0xffff) range_error
  admit_route (prefix ++ endpoint host port)
