-- ===== src/SapRouter/Tests.antt =====
-- Runs of the parser and the encoder on a route of two hops.
use open_rfc.Common.{
  length, take, natural, ok, ℕ, ◌+◌, ◌≤◌, ◌≡◌, refl, true, none, some, List, [], ◌∷◌, ◌++◌, arith,
}
use open_rfc.SapRouter.Route.{
  hops_byte_length, parse_options, public_hops, redacted_route, route_field, parse_hops, Hop, Route,
  admit_route,
}
use open_rfc.SapRouter.Parse.{admit_route-route_text, route_text}
use open_rfc.SapRouter.Safety.{
  encode_route_request_payload-admit_route, redacted_route-SameButPasswords,
}
use open_rfc.SapRouter.Reply.{decode_route_response-error_reply, error_reply}
use open_rfc.SapRouter.Response.{decode_route_response, rejected}
use open_rfc.SapRouter.Complete.{complete_route-gateway, prefix_text, gateway}
use open_rfc.SapRouter.Prefix.{complete_route, port_text}
use open_rfc.SapRouter.Request.{encode_route_request_payload}

-- The host "r1" with the service "99" and the password "pw", and the host "db".
abbrev two_hops : List Hop
two_hops =
    record { host = 114 ∷ 49 ∷ []; service = some (57 ∷ 57 ∷ []); password = some (112 ∷ 119 ∷ []) }
    ∷ record { host = 100 ∷ 98 ∷ []; service = none; password = none }
    ∷ []

abbrev other_password : List Hop
other_password =
    record { host = 114 ∷ 49 ∷ []; service = some (57 ∷ 57 ∷ []); password = some (120 ∷ []) }
    ∷ record { host = 100 ∷ 98 ∷ []; service = none; password = none }
    ∷ []

abbrev two_hops_route : Route
two_hops_route = record { hops = two_hops; byte_length = 14 }

admitted : admit_route (route_text two_hops) ≡ ok two_hops_route
unfolding admit_route parse_hops parse_options route_field
admitted = refl

admit_route-route_text_example : admit_route (route_text two_hops) ≡ ok two_hops_route
unfolding route_field
admit_route-route_text_example =
    admit_route-route_text two_hops ((refl, refl, refl), ((refl, tt, tt), tt)) (omega arith)
      (omega arith) refl (omega arith) (omega arith)

encode_route_request_payload-admit_route_example :
    (payload : List ℕ) × (encode_route_request_payload two_hops_route (some (natural 40))
      ≡ ok payload)
    × (length payload ≡ 24 + 14)
    × (length payload ≤ 2072)
encode_route_request_payload-admit_route_example =
    encode_route_request_payload-admit_route (route_text two_hops) two_hops_route 40 admitted
      (omega arith) (omega arith)

redacted_route-SameButPasswords_example :
    (redacted_route two_hops ≡ redacted_route other_password)
    × (public_hops two_hops ≡ public_hops other_password)
redacted_route-SameButPasswords_example =
    redacted_route-SameButPasswords two_hops other_password
      ((refl, refl, refl), ((refl, refl, refl), tt))

-- The reply of version 40 with return code -94 and the text "no", with the trailer.
decode_route_response-error_reply_example :
    decode_route_response (error_reply 40 93 (110 ∷ 111 ∷ []) true) ≡ ok (rejected 40 93 2)
decode_route_response-error_reply_example =
    decode_route_response-error_reply 40 93 (110 ∷ 111 ∷ []) true (omega arith) (omega arith)
      (omega arith) (omega arith)

-- The prefix of the router alone, completed with the host "gw" and the port 3300.
complete_route-gateway_example :
    complete_route (prefix_text (take 1 two_hops)) (103 ∷ 119 ∷ []) (natural 3300)
    ≡ ok (record {
      hops = take 1 two_hops ++ (gateway (103 ∷ 119 ∷ []) 3300 ∷ []);
      byte_length = hops_byte_length (take 1 two_hops ++ (gateway (103 ∷ 119 ∷ []) 3300 ∷ []));
    })
unfolding route_field port_text
complete_route-gateway_example =
    complete_route-gateway (take 1 two_hops) (103 ∷ 119 ∷ []) 3300 ((refl, refl, refl), tt) refl
      (omega arith) (omega arith) (omega arith, omega arith, omega arith, omega arith)
      (omega arith, omega arith, omega arith, omega arith)
