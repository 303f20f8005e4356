-- ===== src/SapRouter/Parse.antt =====
-- The parser of route strings against the printer of hops.
use open_rfc.Common.{
  length, All, length-append, All-append, ◌>>=◌, guard, >>=-eq-ok, guard_sound, ◌==◌, le→ltb,
  Bool-cases, gt→==, ok, range_error, ℕ, suc, ◌*◌, ◌≤◌, ◌<◌, ◌≡◌, refl, sym, ap, ◌∙◌, inl, inr,
  Bool, true, false, not, Option, none, some, List, [], ◌∷◌, ◌++◌, append_assoc, arith,
}
use open_rfc.SapRouter.Route.{
  max_route_hops, max_route_bytes, hops_byte_length, last_open, field_valid, admit_route,
  is_host_char, all_of, between, is_service_char, is_password_char, token_w, service_field,
  password_field, host_field, token_s, parse_options, parse_hops, route_field, token_h, Kind, Hop,
  split_slash,
}

-- The parts that a hop puts between slashes.
abbrev pub option_parts : List ℕ → Option (List ℕ) → List (List ℕ)
option_parts token none = []
option_parts token (some v) = token ∷ v ∷ []

abbrev pub hop_parts : Hop → List (List ℕ)
hop_parts hop =
    token_h ∷ hop.host ∷ (option_parts token_s hop.service ++ option_parts token_w hop.password)

abbrev pub route_parts : List Hop → List (List ℕ)
route_parts [] = []
route_parts (hop ∷ hops) = hop_parts hop ++ route_parts hops

-- Every part behind its slash.
abbrev pub join_slash : List (List ℕ) → List ℕ
join_slash [] = []
join_slash (part ∷ parts) = 47 ∷ (part ++ join_slash parts)

-- The canonical text `/H/host[/S/service][/W/password]` of the hops.
abbrev pub route_text : List Hop → List ℕ
route_text hops = join_slash (route_parts hops)

abbrev pub ValidOption : Kind → Option (List ℕ) → Type 0
ValidOption kind none = Unit
ValidOption kind (some v) = route_field (some v) kind ≡ ok v

abbrev pub ValidHop : Hop → Type 0
ValidHop hop =
    (route_field (some hop.host) host_field ≡ ok hop.host)
    × ValidOption service_field hop.service
    × ValidOption password_field hop.password

parse_option_service :
    (h : List ℕ) (s : Option (List ℕ)) (rest : List (List ℕ))
    → ValidOption service_field s
    → parse_options
        (record { host = h; service = none; password = none })
        (option_parts token_s s ++ rest)
      ≡ parse_options (record { host = h; service = s; password = none }) rest
unfolding parse_options
parse_option_service h none rest v = refl
parse_option_service h (some s) rest v = rw v refl

parse_option_password :
    (h : List ℕ) (s w : Option (List ℕ)) (rest : List (List ℕ))
    → ValidOption password_field w
    → parse_options
        (record { host = h; service = s; password = none })
        (option_parts token_w w ++ rest)
      ≡ parse_options (record { host = h; service = s; password = w }) rest
unfolding parse_options
parse_option_password h s none rest v = refl
parse_option_password h s (some w) rest v = rw v refl

parse_host :
    (hop : Hop) (h : List ℕ) (rest : List (List ℕ))
    → route_field (some h) host_field ≡ ok h
    → parse_options hop (token_h ∷ h ∷ rest) ≡ (
        parse_options (record { host = h; service = none; password = none }) rest >>= λ hops.
        ok (hop ∷ hops))
unfolding parse_options
parse_host hop h rest v = rw v refl

parse_fields :
    (hop : Hop) (rest : List (List ℕ))
    → ValidHop hop
    → parse_options
        (record { host = hop.host; service = none; password = none })
        ((option_parts token_s hop.service ++ option_parts token_w hop.password) ++ rest)
      ≡ parse_options hop rest
parse_fields hop rest v =
    rw (append_assoc (option_parts token_s hop.service) (option_parts token_w hop.password) rest) (
      parse_option_service hop.host hop.service _ v.1
      ∙ parse_option_password hop.host hop.service hop.password rest v.2)

parse_options-route_parts :
    (hop : Hop) (hops : List Hop)
    → All ValidHop hops
    → parse_options hop (route_parts hops) ≡ ok (hop ∷ hops)
unfolding parse_options
parse_options-route_parts hop [] v = refl
parse_options-route_parts hop (next ∷ hops) v =
    parse_host hop next.host
      ((option_parts token_s next.service ++ option_parts token_w next.password)
        ++ route_parts hops)
      v.0.0
    ∙ ap (λ r. r >>= λ hs. ok (hop ∷ hs))
        (parse_fields next (route_parts hops) v.0 ∙ parse_options-route_parts next hops v.1)

parse_hops-route_parts :
    (hops : List Hop) → All ValidHop hops → parse_hops (route_parts hops) ≡ ok hops
unfolding parse_hops
parse_hops-route_parts [] v = refl
parse_hops-route_parts (hop ∷ hops) v =
    let f : route_field (some hop.host) host_field ≡ ok hop.host = v.0.0 in
    rw f (parse_fields hop (route_parts hops) v.0 ∙ parse_options-route_parts hop hops v.1)

abbrev pub NoSlash : List ℕ → Type 0
NoSlash part = All (λ c. (c == 47) ≡ false) part

split-head :
    (c : ℕ) (cs part : List ℕ) (parts : List (List ℕ))
    → (c == 47) ≡ false
    → split_slash cs ≡ part ∷ parts
    → split_slash (c ∷ cs) ≡ (c ∷ part) ∷ parts
split-head c cs part parts n e = rw (n, split_slash) (rw e refl)

split_slash-join_slash :
    (part : List ℕ) (parts : List (List ℕ))
    → NoSlash part
    → All NoSlash parts
    → split_slash (part ++ join_slash parts) ≡ part ∷ parts
split_slash-join_slash [] [] n ns = refl
split_slash-join_slash [] (p ∷ ps) n ns = ap (λ t. [] ∷ t) (split_slash-join_slash p ps ns.0 ns.1)
split_slash-join_slash (c ∷ cs) parts n ns =
    split-head c (cs ++ join_slash parts) cs parts n.0 (split_slash-join_slash cs parts n.1 ns)

-- A valid field has no slash in it, whatever its kind, and only printable characters.
abbrev pub Plain : List ℕ → Type 0
Plain part = All (λ c. ((c == 47) ≡ false) × (between 0x20 0x7e c ≡ true)) part

all_of-Plain :
    (p : ℕ → Bool)
    → ((c : ℕ) → p c ≡ true → ((c == 47) ≡ false) × (between 0x20 0x7e c ≡ true))
    → (cs : List ℕ) → all_of p cs ≡ true
    → Plain cs
all_of-Plain p k [] h = tt
all_of-Plain p k (c ∷ cs) h = elim (Bool-cases (p c)) [
  | inl e ↦ (k c e, all_of-Plain p k cs (sym (rw e refl) ∙ h))
  | inr e ↦ absurd (let f : all_of p (c ∷ cs) ≡ false = rw e refl in cc)
]

field_valid-Plain : (kind : Kind) (v : List ℕ) → field_valid kind v ≡ true → Plain v
field_valid-Plain host_field v h =
    all_of-Plain is_host_char (λ c e. (ground arith, ground arith)) v (ground arith)
field_valid-Plain service_field v h =
    all_of-Plain is_service_char (λ c e. (ground arith, ground arith)) v (ground arith)
field_valid-Plain password_field v h =
    all_of-Plain is_password_char (λ c e. (ground arith, ground arith)) v (ground arith)

route_field-Plain : (v : List ℕ) (kind : Kind) → route_field (some v) kind ≡ ok v → Plain v
unfolding route_field
route_field-Plain v kind h =
    let (u, e, h₁) = >>=-eq-ok (guard (not (length v == 0)) range_error) _ h in
    let (u₁, e₁, h₂) = >>=-eq-ok (guard (field_valid kind v) range_error) _ h₁ in
    field_valid-Plain kind v (guard_sound (field_valid kind v) range_error e₁)

pub token-Plain : (c : ℕ) → (c == 47) ≡ false → between 0x20 0x7e c ≡ true → Plain (c ∷ [])
token-Plain c e f = ((e, f), tt)

option_parts-Plain :
    (token : List ℕ) (kind : Kind) (o : Option (List ℕ))
    → Plain token
    → ValidOption kind o
    → All Plain (option_parts token o)
option_parts-Plain token kind none t v = tt
option_parts-Plain token kind (some w) t v = (t, (route_field-Plain w kind v, tt))

pub route_parts-Plain : (hops : List Hop) → All ValidHop hops → All Plain (route_parts hops)
route_parts-Plain [] v = tt
route_parts-Plain (hop ∷ hops) v = (
  token-Plain 72 refl refl,
  (
    route_field-Plain hop.host host_field v.0.0,
    All-append Plain (option_parts token_s hop.service ++ option_parts token_w hop.password)
        (route_parts hops)
        (All-append Plain (option_parts token_s hop.service) (option_parts token_w hop.password)
          (option_parts-Plain token_s service_field hop.service (token-Plain 83 refl refl) v.0.1)
          (option_parts-Plain token_w password_field hop.password (token-Plain 87 refl refl) v.0.2))
        (route_parts-Plain hops v.1),
  ),
)

Plain-NoSlash : (cs : List ℕ) → Plain cs → NoSlash cs
Plain-NoSlash [] h = tt
Plain-NoSlash (c ∷ cs) h = (h.0.0, Plain-NoSlash cs h.1)

All-NoSlash : (parts : List (List ℕ)) → All Plain parts → All NoSlash parts
All-NoSlash [] h = tt
All-NoSlash (p ∷ ps) h = (Plain-NoSlash p h.0, All-NoSlash ps h.1)

all_of-append :
    (cs ds : List ℕ)
    → Plain cs
    → all_of (between 0x20 0x7e) ds ≡ true
    → all_of (between 0x20 0x7e) (cs ++ ds) ≡ true
all_of-append [] ds h k = k
all_of-append (c ∷ cs) ds h k =
    let b : between 0x20 0x7e c ≡ true = h.0.1 in
    let r : all_of (between 0x20 0x7e) (cs ++ ds) ≡ true = all_of-append cs ds h.1 k in ground arith

pub all_of-join_slash :
    (parts : List (List ℕ)) → All Plain parts → all_of (between 0x20 0x7e) (join_slash parts) ≡ true
all_of-join_slash [] h = refl
all_of-join_slash (p ∷ ps) h = all_of-append p (join_slash ps) h.0 (all_of-join_slash ps h.1)

length-route_parts : (hops : List Hop) → 2 * length hops ≤ length (route_parts hops)
length-route_parts [] = omega arith
length-route_parts (hop ∷ hops) = omega (
  arith,
  length-route_parts hops,
  length-append (option_parts token_s hop.service ++ option_parts token_w hop.password)
      (route_parts hops),
)

length-route_text : (hops : List Hop) → 0 < length hops → 0 < length (route_text hops)
length-route_text [] h = absurd (omega arith)
length-route_text (hop ∷ hops) h = omega arith

-- The canonical text of two to 255 valid hops, the last without a password, is admitted as those
-- hops, if the text and the encoded hops keep to 2048 bytes each.
pub admit_route-route_text :
    (hops : List Hop)
    → All ValidHop hops
    → 2 ≤ length hops
    → length hops ≤ 255
    → last_open hops ≡ true
    → length (route_text hops) ≤ 2048
    → hops_byte_length hops ≤ 2048
    → admit_route (route_text hops)
      ≡ ok (record { hops = hops; byte_length = hops_byte_length hops })
unfolding admit_route
admit_route-route_text hops v lo hi last t b =
    let plain = route_parts-Plain hops v in
    let parts : split_slash (route_text hops) ≡ [] ∷ route_parts hops =
      split_slash-join_slash [] (route_parts hops) tt (All-NoSlash (route_parts hops) plain) in
    rw (
      le→ltb max_route_bytes (length (route_text hops)) t,
      gt→== (length (route_text hops)) 0 (length-route_text hops (omega arith)),
      all_of-join_slash (route_parts hops) plain,
      parts,
      le→ltb (suc (length (route_parts hops))) 5 (omega (arith, length-route_parts hops)),
      parse_hops-route_parts hops v,
      le→ltb max_route_hops (length hops) hi,
      le→ltb (length hops) 2 lo,
      last,
      le→ltb max_route_bytes (hops_byte_length hops) b,
    )
