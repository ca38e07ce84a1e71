-- ===== src/Subscription/Parts.antt =====
-- The shared helpers of src/subscription/parse.ts: splitting a link into its parts.
pub mod Authority
use Prim.Native.String.{String}
use react_native_nitro_xray.Prelude.{
  [], Bool, List, Option, Text, codes, drop, false, if◌then◌else◌, index_of, last_index_of, map,
  none, or_default, some, split, suc, take, text_eq, trim, true, truthy, ℕ, ◌++◌, ◌==◌, ◌∷◌,
}
use react_native_nitro_xray.Json.{Number, nat, ◌>>=◌}
use react_native_nitro_xray.Subscription.Uri.{decode_uri_component}
use react_native_nitro_xray.Subscription.Numbers.{to_port, number_text}

-- The text before the first `c`, and that behind it if there is one.
unfoldable pub cut_first : ℕ → Text → Text × Option Text
cut_first c s = elim (index_of c s) [
  | none ↦ (s, none)
  | some i ↦ (take i s, some (drop (suc i) s))
]

-- The text before the last `c` if there is one, and that behind it.
unfoldable pub cut_last : ℕ → Text → Option Text × Text
cut_last c s = elim (last_index_of c s) [
  | none ↦ (none, s)
  | some i ↦ (some (take i s), drop (suc i) s)
]

unfoldable pub decode_component_safe : Text → Text
decode_component_safe input = or_default (decode_uri_component input) input

-- `splitFirst`.
unfoldable pub split_first : Text → ℕ → Option (Text × Text)
split_first input sep = elim (index_of sep input) [
  | none ↦ none
  | some i ↦ some (take i input, drop (suc i) input)
]

unfoldable pub fallback_tag : Text → Text → Number → Text
fallback_tag protocol host port = protocol ++ b'-' ∷ (host ++ b':' ∷ number_text port)

-- A `Record<string, string>`: the entry that was set last comes first. The parsers read only fixed
-- keys, which `Object.prototype` has none of.
abbrev pub Query : Type 0
Query = List (Text × Text)

unfoldable pub look_up : Text → Query → Option Text
look_up k [] = none
look_up k ((l, v) ∷ query) = if text_eq l k then some v else look_up k query

-- `query.k || undefined`
abbrev pub field_of : String → Query → Option Text
field_of k query = truthy (look_up (codes k) query)

abbrev pub set_pair : Text → Query → Query
set_pair [] out = out
set_pair (c ∷ pair) out =
    let (key, value) = cut_first b'=' (c ∷ pair) in
    (decode_component_safe key, decode_component_safe (or_default value [])) ∷ out

unfoldable pub set_pairs : List Text → Query → Query
set_pairs [] out = out
set_pairs (pair ∷ pairs) out = set_pairs pairs (set_pair pair out)

unfoldable pub parse_query : Text → Query
parse_query query = set_pairs (split b'&' query) []

-- The texts of a list that are not empty.
unfoldable pub non_empty : List Text → List Text
non_empty [] = []
non_empty ([] ∷ parts) = non_empty parts
non_empty ((c ∷ part) ∷ parts) = (c ∷ part) ∷ non_empty parts

abbrev pub some_parts : List Text → Option (List Text)
some_parts [] = none
some_parts (part ∷ parts) = some (part ∷ parts)

unfoldable pub split_csv : Option Text → Option (List Text)
split_csv value = truthy value >>= (λ v. some_parts (non_empty (map trim (split b',' v))))

abbrev pub drop_colon : Text → Text
drop_colon [] = []
drop_colon (c ∷ s) = if c == b':' then s else c ∷ s

abbrev pub starts_bracket : Text → Bool
starts_bracket [] = false
starts_bracket (c ∷ s) = c == b'['

-- An IPv6 literal stands in brackets.
unfoldable pub split_host_port : Text → Text × Number
split_host_port host_port = elim (starts_bracket host_port) [
  | true ↦
      let (before, behind) = cut_first b']' host_port in
      elim behind [ none ↦ (host_port, nat 0) | some s ↦ (drop 1 before, to_port (drop_colon s)) ]
  | false ↦
      let (before, behind) = cut_last b':' host_port in
      elim before [ none ↦ (host_port, nat 0) | some host ↦ (host, to_port behind) ]
]

pub record AuthorityParts : Type 0 where
  pub userinfo : Text
  pub host : Text
  pub port : Number
  pub query : Query
  pub fragment : Text

abbrev pub or_empty : Option Text → (Text → Text) → Text
or_empty none f = []
or_empty (some s) f = f s

abbrev pub query_of : Option Text → Query
query_of none = []
query_of (some s) = parse_query s

abbrev pub with_host : Text × Number → Text → Query → Text → Option AuthorityParts
with_host ([], port) userinfo query fragment = none
with_host (c ∷ host, port) userinfo query fragment = some (record {
  userinfo = userinfo;
  host = c ∷ host;
  port = port;
  query = query;
  fragment = fragment;
})

unfoldable pub split_authority_link : Text → Option AuthorityParts
split_authority_link after_scheme =
    let (rest1, hash) = cut_first b'#' after_scheme in
    let (rest2, query) = cut_first b'?' rest1 in
    let (userinfo, rest3) = cut_last b'@' rest2 in
    let (authority, path) = cut_first b'/' rest3 in
    with_host (split_host_port authority) (or_empty userinfo (λ s. s)) (query_of query)
      (or_empty hash decode_component_safe)
