-- ===== src/Config/Reader.antt =====
-- What Xray reads in a configuration of src/config/build.ts: its outbounds by their tags, and which tag
-- the routing rules give to a connection.
use react_native_nitro_xray.Prelude.{
  Bool, List, Option, Text, [], codes, false, if◌then◌else◌, none, some, text_eq, zero, ℕ, ◌==◌,
  ◌||◌, ◌∷◌,
}
use react_native_nitro_xray.Json.{
  Json, str, arr, num, decimal, Items, no_items, item, find_field, get, ◌>>=◌,
}

-- What a reader of the configuration sees: the text of a field, the values of an array.
unfoldable pub text_at : Text → Json → Option Text
text_at k j = get k j >>= λ v. elim v [ str t ↦ some t | _ ↦ none ]

unfoldable pub elems_of : Items → List Json
elems_of no_items = []
elems_of (item j js) = j ∷ elems_of js

unfoldable pub elems_at : Text → Json → List Json
elems_at k j = elim (get k j) [ none ↦ [] | some v ↦ (elim v [ arr js ↦ elems_of js | _ ↦ [] ]) ]

unfoldable pub texts_of : List Json → List Text
texts_of [] = []
texts_of (j ∷ js) = let rest = texts_of js in elim j [ str t ↦ t ∷ rest | _ ↦ rest ]

unfoldable pub routing_rules : Json → List Json
routing_rules config = elim (get (codes "routing") config) [
  | none ↦ []
  | some routing ↦ elems_at (codes "rules") routing
]

-- What a rule may ask about a connection: its destination port, the ranges of addresses that its
-- destination is in, and the inbound that it came through.
pub record Traffic : Type 0 where
  pub port : ℕ
  pub is_within : Text → Bool
  pub inbound_tag : Text

abbrev pub any_of : (Text → Bool) → List Text → Bool
any_of test [] = false
any_of test (t ∷ ts) = test t || any_of test ts

abbrev is_port : Json → ℕ → Bool
is_port (num (decimal false m zero)) p = m == p
is_port _ p = false

abbrev any_text : (Text → Bool) → Json → Bool
any_text test (arr js) = any_of test (texts_of (elems_of js))
any_text test _ = false

-- A condition that a rule has not holds of all traffic.
abbrev given : Option Json → (Json → Bool) → Option Text → Option Text → Option Text
given none test here later = here
given (some j) test here later = if test j then here else later

-- The tag of the first rule whose conditions all hold: the one that Xray takes.
unfoldable pub route_by : List Json → Traffic → Option Text
route_by [] t = none
route_by (rule ∷ rest) t =
    let later = route_by rest t in
    given (get (codes "port") rule) (λ j. is_port j t.port)
      (given (get (codes "ip") rule) (any_text t.is_within)
        (given (get (codes "inboundTag") rule) (any_text (text_eq t.inbound_tag))
          (text_at (codes "outboundTag") rule) later)
        later)
      later

unfoldable pub route : Json → Traffic → Option Text
route config = route_by (routing_rules config)

unfoldable pub reading : Unit {0}
unfolding text_at elems_of elems_at texts_of routing_rules route_by route get find_field text_eq
reading = tt

-- The first outbound with a tag: the one that Xray takes for it.
unfoldable pub find_tag : Text → List Json → Option Json
find_tag tag [] = none
find_tag tag (j ∷ js) = elim (text_at (codes "tag") j) [
  | none ↦ find_tag tag js
  | some t ↦ if text_eq t tag then some j else find_tag tag js
]

unfoldable pub resolve : Text → Json → Option Json
unfolding find_tag
resolve tag config = find_tag tag (elems_at (codes "outbounds") config)
