-- ===== src/SapRouter/Complete.antt =====
-- A prefix of routers is completed to the routers and the gateway.
use open_rfc.Int8.Decimal.{length-decimal, is_positive_run-decimal, HasDigits}
use open_rfc.Int8.{is_positive_run, decimal}
use open_rfc.SapRouter.Prefix.{
  route_prefix_sentinel_port, route_prefix_sentinel_host, assert_route_prefix, port_text,
  complete_route, ends_with_placeholder, endpoint,
}
use open_rfc.UnicodeScalar.{all_digits}
use open_rfc.Common.{
  length, All, length-append, drop-length_append, All-append, natural, natural_in_range, le→ltb,
  le→leb, gt→==, ok, ℕ, suc, ◌-◌, ◌≤◌, ◌≡◌, refl, sym, ap, true, none, some, List, [], ◌∷◌, ◌++◌,
  append-nil, append_assoc, arith,
}
use open_rfc.SapRouter.Route.{
  token_h, max_route_bytes, between, admit_route, host_field, hops_byte_length, is_service_char,
  all_of, service_field, route_field, last_open, Hop,
}
use open_rfc.SapRouter.Parse.{
  token-Plain, route_parts-Plain, Plain, all_of-join_slash, admit_route-route_text, ValidHop,
  hop_parts, join_slash, route_parts, route_text,
}

-- The hop of a gateway.
abbrev pub gateway : List ℕ → ℕ → Hop
gateway host port = record { host = host; service = some (port_text port); password = none }

-- The prefix of the routers: their text and the placeholder.
abbrev pub prefix_text : List Hop → List ℕ
prefix_text routers = route_text routers ++ (47 ∷ 72 ∷ 47 ∷ [])

join_slash-append : (ps qs : List (List ℕ)) → join_slash (ps ++ qs) ≡ join_slash ps ++ join_slash qs
join_slash-append [] qs = refl
join_slash-append (p ∷ ps) qs =
    rw (join_slash-append ps qs, append_assoc p (join_slash ps) (join_slash qs)) refl

route_parts-append :
    (as' bs : List Hop) → route_parts (as' ++ bs) ≡ route_parts as' ++ route_parts bs
route_parts-append [] bs = refl
route_parts-append (a ∷ as') bs =
    rw (route_parts-append as' bs, append_assoc (hop_parts a) (route_parts as') (route_parts bs))
      refl

completed-text :
    (routers : List Hop) (host : List ℕ) (port : ℕ)
    → prefix_text routers ++ endpoint host port ≡ route_text (routers ++ (gateway host port ∷ []))
completed-text routers host port =
    rw
      (
        route_parts-append routers (gateway host port ∷ []),
        join_slash-append (route_parts routers) (route_parts (gateway host port ∷ [])),
        append_assoc (route_text routers) (47 ∷ 72 ∷ 47 ∷ []) (endpoint host port),
        append-nil (port_text port),
      )
      refl

is_service_char-digits : (ds : List ℕ) → all_digits 10 ds ≡ true → all_of is_service_char ds ≡ true
is_service_char-digits [] h = refl
is_service_char-digits (d ∷ ds) h =
    let r : all_digits 10 ds ≡ true = ground arith in
    let e : all_of is_service_char ds ≡ true = is_service_char-digits ds r in ground arith

run-valid :
    (ds : List ℕ)
    → is_positive_run ds ≡ true
    → length ds ≤ 5
    → route_field (some ds) service_field ≡ ok ds
unfolding route_field
run-valid [] h l = absurd (cc)
run-valid (d ∷ ds) h l =
    let r : all_digits 10 ds ≡ true = ground arith in
    let e : all_of is_service_char ds ≡ true = is_service_char-digits ds r in
    let c : is_service_char d ≡ true = ground arith in
    rw (le→ltb 63 (suc (length ds)) (omega arith), c, e, gt→== (suc (length ds)) 0 (omega arith))

port-valid :
    (port : ℕ)
    → 1 ≤ port
    → port ≤ 0xffff
    → route_field (some (port_text port)) service_field ≡ ok (port_text port)
unfolding route_field port_text
port-valid port lo hi =
    let f : HasDigits 4 port = omega arith in
    let r = is_positive_run-decimal 4 port (omega arith) f in
    let l = length-decimal 4 port in run-valid (decimal 4 port) r l

last_open-gateway :
    (routers : List Hop) (host : List ℕ) (port : ℕ)
    → last_open (routers ++ (gateway host port ∷ [])) ≡ true
last_open-gateway [] host port = refl
last_open-gateway (r ∷ []) host port = refl
last_open-gateway (r ∷ r' ∷ rs) host port = last_open-gateway (r' ∷ rs) host port

ends_with_placeholder-prefix_text :
    (routers : List Hop) → ends_with_placeholder (prefix_text routers) ≡ true
ends_with_placeholder-prefix_text routers =
    let n = length-append (route_text routers) (47 ∷ 72 ∷ 47 ∷ []) in
    let k : length (prefix_text routers) - 3 ≡ length (route_text routers) = omega (arith, n) in
    rw
      (
        le→leb 3 (length (prefix_text routers)) (omega (arith, n)),
        k,
        drop-length_append (route_text routers) (47 ∷ 72 ∷ 47 ∷ []),
      )
      refl

-- The limits that the completion of the routers with an endpoint keeps to.
abbrev pub Within : List Hop → Type 0
Within hops =
    (2 ≤ length hops)
    × (length hops ≤ 255)
    × (length (route_text hops) ≤ 2048)
    × (hops_byte_length hops ≤ 2048)

admit-completed :
    (routers : List Hop) (host : List ℕ) (port : ℕ)
    → All ValidHop routers
    → route_field (some host) host_field ≡ ok host
    → 1 ≤ port
    → port ≤ 0xffff
    → Within (routers ++ (gateway host port ∷ []))
    → admit_route (prefix_text routers ++ endpoint host port)
      ≡ ok (record {
        hops = routers ++ (gateway host port ∷ []);
        byte_length = hops_byte_length (routers ++ (gateway host port ∷ []));
      })
admit-completed routers host port v h lo hi (w₀, w₁, w₂, w₃) =
    rw (completed-text routers host port) (
      admit_route-route_text (routers ++ (gateway host port ∷ []))
        (All-append ValidHop routers (gateway host port ∷ []) v
          ((h, port-valid port lo hi, tt), tt))
        w₀ w₁ (last_open-gateway routers host port) w₂ w₃)

all_of-prefix_text :
    (routers : List Hop)
    → All ValidHop routers
    → all_of (between 0x20 0x7e) (prefix_text routers) ≡ true
all_of-prefix_text routers v =
    rw (sym (join_slash-append (route_parts routers) (token_h ∷ [] ∷ []))) (
      all_of-join_slash (route_parts routers ++ (token_h ∷ [] ∷ [])) (
        All-append Plain (route_parts routers) (token_h ∷ [] ∷ []) (route_parts-Plain routers v)
          (token-Plain 72 refl refl, (tt, tt))))

assert_route_prefix-prefix_text :
    (routers : List Hop)
    → All ValidHop routers
    → Within (routers ++ (gateway route_prefix_sentinel_host route_prefix_sentinel_port ∷ []))
    → assert_route_prefix (prefix_text routers) ≡ ok tt
unfolding assert_route_prefix route_field
assert_route_prefix-prefix_text routers v s =
    let n =
      length-append (prefix_text routers)
        (endpoint route_prefix_sentinel_host route_prefix_sentinel_port) in
    let e =
      ap length (completed-text routers route_prefix_sentinel_host route_prefix_sentinel_port) in
    rw
      (
        ends_with_placeholder-prefix_text routers,
        le→ltb max_route_bytes (length (prefix_text routers)) (omega (arith, n, e, s.2)),
        all_of-prefix_text routers v,
        admit-completed routers route_prefix_sentinel_host route_prefix_sentinel_port v refl
            (omega arith) (omega arith) s,
      )
      refl

-- A prefix that consists of the text of valid routers and the placeholder `/H/` is completed with a
-- valid host and a port in 1..65535 to the routers, with their passwords, and the gateway behind them,
-- if both the gateway's route and the route of the check keep to the limits.
pub complete_route-gateway :
    (routers : List Hop) (host : List ℕ) (port : ℕ)
    → All ValidHop routers
    → route_field (some host) host_field ≡ ok host
    → 1 ≤ port
    → port ≤ 0xffff
    → Within (routers ++ (gateway host port ∷ []))
    → Within (routers ++ (gateway route_prefix_sentinel_host route_prefix_sentinel_port ∷ []))
    → complete_route (prefix_text routers) host (natural port)
      ≡ ok (record {
        hops = routers ++ (gateway host port ∷ []);
        byte_length = hops_byte_length (routers ++ (gateway host port ∷ []));
      })
unfolding complete_route
complete_route-gateway routers host port v h lo hi w s =
    rw
      (
        assert_route_prefix-prefix_text routers v s,
        h,
        natural_in_range port 1 0xffff (omega arith) lo hi,
      )
      (admit-completed routers host port v h lo hi w)
