-- ===== src/SapRouter/Route.antt =====
-- The admission of a route string: the fields of its hops, the parser and the limits.
use open_rfc.Common.{
  length, drop, Result, ◌>>=◌, ◌>>◌, guard, JsError, ltb, leb, ◌==◌, ok, err, range_error, ℕ, ◌+◌,
  Bool, true, false, ◌&&◌, ◌||◌, not, Option, none, some, List, [], ◌∷◌, ◌++◌,
}
use open_rfc.UnicodeScalar.{text_eq}

abbrev pub max_route_bytes : ℕ
max_route_bytes = 2048

abbrev pub max_route_hops : ℕ
max_route_hops = 255

-- "3299"
abbrev pub default_service : List ℕ
default_service = 51 ∷ 50 ∷ 57 ∷ 57 ∷ []

-- `InternalSapRouterHop`.
pub record Hop : Type 0 where
  pub host : List ℕ
  pub service : Option (List ℕ)
  pub password : Option (List ℕ)

-- `InternalSapRouterRoute`.
pub record Route : Type 0 where
  pub hops : List Hop
  pub byte_length : ℕ

abbrev pub all_of : (ℕ → Bool) → List ℕ → Bool
all_of p [] = true
all_of p (c ∷ cs) = p c && all_of p cs

abbrev pub between : ℕ → ℕ → ℕ → Bool
between lo hi c = leb lo c && leb c hi

-- `[A-Za-z0-9_.-]`
abbrev pub is_service_char : ℕ → Bool
is_service_char c =
    between 65 90 c || between 97 122 c || between 48 57 c || (c == 95) || (c == 46) || (c == 45)

-- `[A-Za-z0-9_.:%\[\]-]`
abbrev pub is_host_char : ℕ → Bool
is_host_char c = is_service_char c || (c == 58) || (c == 37) || (c == 91) || (c == 93)

-- `[\x20-\x2e\x30-\x7e]`
abbrev pub is_password_char : ℕ → Bool
is_password_char c = between 0x20 0x2e c || between 0x30 0x7e c

pub data Kind : Type 0 where
  host_field service_field password_field : Kind

abbrev pub field_valid : Kind → List ℕ → Bool
field_valid host_field v =
    not (ltb (length v) 2 || ltb 255 (length v) || not (all_of is_host_char v))
field_valid service_field v = not (ltb 63 (length v) || not (all_of is_service_char v))
field_valid password_field v = not (ltb 255 (length v) || not (all_of is_password_char v))

-- `routeField`; `invalidRoute` throws a RangeError.
unfoldable pub route_field : Option (List ℕ) → Kind → Result JsError (List ℕ)
route_field none kind = err range_error
route_field (some v) kind = do
  guard (not (length v == 0)) range_error
  guard (field_valid kind v) range_error
  ok v

abbrev pub is_some {ℓ} : {A : Type ℓ} → Option A → Bool
is_some none = false
is_some (some a) = true

abbrev pub or_empty : Option (List ℕ) → List ℕ
or_empty none = []
or_empty (some v) = v

abbrev pub internal_hop_byte_length : Hop → ℕ
internal_hop_byte_length hop =
    length hop.host + 1 + (length (or_empty hop.service) + 1) + (length (or_empty hop.password) + 1)

-- `input.split("/")`: the part before the first slash, and the parts behind it.
abbrev pub split_slash : List ℕ → List (List ℕ)
split_slash [] = [] ∷ []
split_slash (c ∷ cs) = elim (c == 47) [
  | true ↦ [] ∷ split_slash cs
  | false ↦ elim (split_slash cs) [ [] ↦ (c ∷ []) ∷ [] | part ∷ parts ↦ (c ∷ part) ∷ parts ]
]

-- "H", "S" and "W".
abbrev pub token_h : List ℕ
token_h = 72 ∷ []

abbrev pub token_s : List ℕ
token_s = 83 ∷ []

abbrev pub token_w : List ℕ
token_w = 87 ∷ []

-- `parts[0]` from the cursor on.
abbrev pub part_at {ℓ} : {A : Type ℓ} → List A → Option A
part_at [] = none
part_at (x ∷ xs) = some x

-- The loops of the parser in one: a hop is open after its host, and the parts from the cursor on are
-- left, of which two are taken at a time. A token without a value throws, since `routeField` throws
-- on undefined.
unfoldable pub parse_options : Hop → List (List ℕ) → Result JsError (List Hop)
parse_options hop [] = ok (hop ∷ [])
parse_options hop (token ∷ []) = err range_error
parse_options hop (token ∷ value ∷ rest) = elim (text_eq token token_h) [
  | true ↦ do
    h ← route_field (some value) host_field
    hops ← parse_options (record { host = h; service = none; password = none }) rest
    ok (hop ∷ hops)
  | false ↦ elim (text_eq token token_s) [
    | true ↦ do
      guard (not (is_some hop.service || is_some hop.password)) range_error
      s ← route_field (some value) service_field
      parse_options (record hop { service = some s }) rest
    | false ↦ elim (text_eq token token_w) [
      | true ↦ do
        guard (not (is_some hop.password)) range_error
        w ← route_field (some value) password_field
        parse_options (record hop { password = some w }) rest
      | false ↦ err range_error
    ]
  ]
]

-- The parser from the second part on.
unfoldable pub parse_hops : List (List ℕ) → Result JsError (List Hop)
parse_hops [] = ok []
parse_hops (token ∷ []) = err range_error
parse_hops (token ∷ value ∷ rest) = do
  guard (text_eq token token_h) range_error
  h ← route_field (some value) host_field
  parse_options (record { host = h; service = none; password = none }) rest

abbrev pub last_open : List Hop → Bool
last_open [] = true
last_open (hop ∷ []) = not (is_some hop.password)
last_open (hop ∷ hop' ∷ hops) = last_open (hop' ∷ hops)

abbrev pub hops_byte_length : List Hop → ℕ
hops_byte_length [] = 0
hops_byte_length (hop ∷ hops) = internal_hop_byte_length hop + hops_byte_length hops

-- `admitSapRouterRoute` on a string. Every refusal is the same RangeError, so that the number of hops
-- is tested when all are there.
unfoldable pub admit_route : List ℕ → Result JsError Route
admit_route input = do
  guard
      (not (
        ltb max_route_bytes (length input)
        || (length input == 0)
        || not (all_of (between 0x20 0x7e) input)))
      range_error
  let parts = split_slash input
  guard (not (not (text_eq (or_empty (part_at parts)) []) || ltb (length parts) 5)) range_error
  hops ← parse_hops (drop 1 parts)
  guard (not (ltb max_route_hops (length hops))) range_error
  guard (not (ltb (length hops) 2 || not (last_open hops))) range_error
  guard (not (ltb max_route_bytes (hops_byte_length hops))) range_error
  ok (record { hops = hops; byte_length = hops_byte_length hops })

-- `SapRouterRouteHop`.
pub record PublicHop : Type 0 where
  pub host : List ℕ
  pub service : List ℕ
  pub uses_default_service : Bool
  pub password_protected : Bool

abbrev pub public_hop : Hop → PublicHop
public_hop hop = record {
  host = hop.host;
  service = elim (hop.service) [ none ↦ default_service | some s ↦ s ];
  uses_default_service = not (is_some hop.service);
  password_protected = is_some hop.password;
}

-- "[REDACTED]"
abbrev pub redacted : List ℕ
redacted = 91 ∷ 82 ∷ 69 ∷ 68 ∷ 65 ∷ 67 ∷ 84 ∷ 69 ∷ 68 ∷ 93 ∷ []

-- `/H/host`, `/S/service` or `/W/password`.
abbrev pub field_text : List ℕ → List ℕ → List ℕ
field_text token value = 47 ∷ (token ++ (47 ∷ value))

abbrev pub redacted_hop : Hop → List ℕ
redacted_hop hop =
    field_text token_h hop.host
    ++ (elim (hop.service) [ none ↦ [] | some s ↦ field_text token_s s ]
        ++ elim (hop.password) [ none ↦ [] | some w ↦ field_text token_w redacted ])

abbrev pub redacted_route : List Hop → List ℕ
redacted_route [] = []
redacted_route (hop ∷ hops) = redacted_hop hop ++ redacted_route hops

abbrev pub public_hops : List Hop → List PublicHop
public_hops [] = []
public_hops (hop ∷ hops) = public_hop hop ∷ public_hops hops
