-- ===== src/SapRouter/Safety.antt =====
-- What an admitted route guarantees: its request is written without an internal error, and what it
-- shows does not depend on its passwords.
use open_rfc.UnicodeScalar.{text_eq}
use open_rfc.Common.{
  length, drop, length-append, natural, natural_in_range, guard, >>=-eq-ok, ok_inj, guard_sound,
  ltb, ◌==◌, eq→==, ok, range_error, ℕ, ◌+◌, ◌≤◌, ◌≡◌, refl, sym, ap, ap₂, ◌||◌, not, Option, none,
  some, List, [], ◌∷◌, ◌++◌, arith,
}
use open_rfc.SapRouter.Request.{
  write_field, route_header_length, write_hop, route_header, write_hops,
  encode_route_request_payload,
}
use open_rfc.SapRouter.Route.{
  redacted, last_open, token_s, token_h, token_w, max_route_hops, field_text, public_hops,
  parse_hops, redacted_route, public_hop, is_some, split_slash, redacted_hop, part_at, between,
  or_empty, all_of, internal_hop_byte_length, max_route_bytes, hops_byte_length, admit_route, Route,
  Hop,
}

length-write_hop : (hop : Hop) → length (write_hop hop) ≡ internal_hop_byte_length hop
length-write_hop hop = omega (
  arith,
  length-append hop.host (0 ∷ []),
  length-append (or_empty hop.service) (0 ∷ []),
  length-append (or_empty hop.password) (0 ∷ []),
  length-append (write_field (or_empty hop.service)) (write_field (or_empty hop.password)),
  length-append (write_field hop.host)
      (write_field (or_empty hop.service) ++ write_field (or_empty hop.password)),
)

length-write_hops : (hops : List Hop) → length (write_hops hops) ≡ hops_byte_length hops
length-write_hops [] = refl
length-write_hops (hop ∷ hops) = omega (
  arith,
  length-append (write_hop hop) (write_hops hops),
  length-write_hop hop,
  length-write_hops hops,
)

admit_route-byte_length :
    (input : List ℕ) (route : Route)
    → admit_route input ≡ ok route
    → (route.byte_length ≡ hops_byte_length route.hops) × (route.byte_length ≤ max_route_bytes)
unfolding admit_route
admit_route-byte_length input route h =
    let (u₁, e₁, h₁) =
      >>=-eq-ok
        (guard
          (not (
            ltb max_route_bytes (length input)
            || (length input == 0)
            || not (all_of (between 0x20 0x7e) input)))
          range_error)
        _ h in
    let (u₂, e₂, h₂) =
      >>=-eq-ok
        (guard
          (not (
            not (text_eq (or_empty (part_at (split_slash input))) [])
            || ltb (length (split_slash input)) 5))
          range_error)
        _ h₁ in
    let (hops, e₃, h₃) = >>=-eq-ok (parse_hops (drop 1 (split_slash input))) _ h₂ in
    let (u₄, e₄, h₄) =
      >>=-eq-ok (guard (not (ltb max_route_hops (length hops))) range_error) _ h₃ in
    let (u₅, e₅, h₅) =
      >>=-eq-ok (guard (not (ltb (length hops) 2 || not (last_open hops))) range_error) _ h₄ in
    let (u₆, e₆, h₆) =
      >>=-eq-ok (guard (not (ltb max_route_bytes (hops_byte_length hops))) range_error) _ h₅ in
    let t = guard_sound _ range_error e₆ in
    let r : record { hops = hops; byte_length = hops_byte_length hops } ≡ route = ok_inj h₆ in
    let k : hops_byte_length hops ≤ max_route_bytes = ground arith in rw (sym r) (refl, k)

-- For an admitted route and an NI version in 1..255 the request is written: the internal length test
-- never fails. The payload has the 24 bytes of the header and the bytes of the route, at most 2072.
pub encode_route_request_payload-admit_route :
    (input : List ℕ) (route : Route) (version : ℕ)
    → admit_route input ≡ ok route
    → 1 ≤ version
    → version ≤ 255
    → (payload : List ℕ) × (encode_route_request_payload route (some (natural version))
        ≡ ok payload)
      × (length payload ≡ 24 + route.byte_length)
      × (length payload ≤ 2072)
unfolding encode_route_request_payload
encode_route_request_payload-admit_route input route version h lo hi =
    let b = admit_route-byte_length input route h in
    let n = length-write_hops route.hops in
    (
      route_header route version ++ write_hops route.hops,
      rw
          (
            natural_in_range version 1 255 (omega arith) lo hi,
            eq→== (route_header_length + length (write_hops route.hops))
                (route_header_length + route.byte_length) (omega (arith, b.0, n)),
          )
          refl,
      omega (arith, b.0, n, length-append (route_header route version) (write_hops route.hops)),
      omega
          (arith, b.0, b.1, n, length-append (route_header route version) (write_hops route.hops)),
    )

-- Two hops that differ at most in what their passwords are.
abbrev pub SameButPassword : Hop → Hop → Type 0
SameButPassword a b =
    (a.host ≡ b.host) × (a.service ≡ b.service) × (is_some a.password ≡ is_some b.password)

abbrev pub SameButPasswords : List Hop → List Hop → Type 0
SameButPasswords [] [] = Unit
SameButPasswords [] (y ∷ ys) = ⊥
SameButPasswords (x ∷ xs) [] = ⊥
SameButPasswords (x ∷ xs) (y ∷ ys) = SameButPassword x y × SameButPasswords xs ys

masked :
    (p q : Option (List ℕ))
    → is_some p ≡ is_some q
    → elim p [ none ↦ [] | some w ↦ field_text token_w redacted ]
      ≡ elim q [ none ↦ [] | some w ↦ field_text token_w redacted ]
masked none none e = refl
masked none (some w) e = absurd (cc)
masked (some w) none e = absurd (cc)
masked (some w) (some w') e = refl

redacted_hop-same : (a b : Hop) → SameButPassword a b → redacted_hop a ≡ redacted_hop b
redacted_hop-same a b (h, s, p) =
    rw (h, s)
      (ap
        (λ t.
          field_text token_h b.host
          ++ (elim (b.service) [ none ↦ [] | some v ↦ field_text token_s v ] ++ t))
        (masked a.password b.password p))

public_hop-same : (a b : Hop) → SameButPassword a b → public_hop a ≡ public_hop b
public_hop-same a b (h, s, p) = rw (h, s, p) refl

-- Routes whose hops differ only in the texts of their passwords show the same hops and the same
-- redacted route string.
pub redacted_route-SameButPasswords :
    (xs ys : List Hop)
    → SameButPasswords xs ys
    → (redacted_route xs ≡ redacted_route ys) × (public_hops xs ≡ public_hops ys)
redacted_route-SameButPasswords [] [] h = (refl, refl)
redacted_route-SameButPasswords [] (y ∷ ys) h = absurd h
redacted_route-SameButPasswords (x ∷ xs) [] h = absurd h
redacted_route-SameButPasswords (x ∷ xs) (y ∷ ys) h =
    let rest = redacted_route-SameButPasswords xs ys h.1 in
    (
      ap₂ (λ s t. s ++ t) (redacted_hop-same x y h.0) rest.0,
      ap₂ (λ s t. s ∷ t) (public_hop-same x y h.0) rest.1,
    )
