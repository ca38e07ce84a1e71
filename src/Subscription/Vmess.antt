-- ===== src/Subscription/Vmess.antt =====
-- src/subscription/parse.ts: `parseVmess`, `parseShareLink` and `parseSubscription`.
pub mod Servers
mod Tests
use react_native_nitro_xray.Prelude.{
  [], Bool, List, Option, Text, codes, drop, false, if◌then◌else◌, lower, none, or_default, some,
  take, text_eq, trim, truthy, ℕ, ◌&&◌, ◌==◌, ◌∷◌,
}
use react_native_nitro_xray.Json.{Json, Number, Fields, null, num, str, obj, find_field, ◌>>=◌, nat}
use react_native_nitro_xray.Json.Parse.{parse}
use react_native_nitro_xray.Subscription.Types.{ParsedServer, vmess}
use react_native_nitro_xray.Subscription.Base64.{base64_to_string}
use react_native_nitro_xray.Subscription.Numbers.{to_port, finite_or_zero, is_zero}
use react_native_nitro_xray.Subscription.Parts.{cut_first, fallback_tag, split_csv}
use react_native_nitro_xray.Subscription.Links.{
  or_text, parse_vless, parse_trojan, parse_shadowsocks,
}
use react_native_nitro_xray.Subscription.Payload.{payload_text}

-- What a link gives. A vmess payload with a field of a type that `VmessJson` does not have gives an object
-- that is no `ParsedServer`, or an exception; which of them is not modelled.
pub data Parsed : Type 0 where
  parsed : ParsedServer → Parsed
  refused mistyped : Parsed

pub data StringOrNumber : Type 0 where
  a_string : Text → StringOrNumber
  a_number : Number → StringOrNumber

-- The fields that are read.
pub record VmessJson : Type 0 where
  pub ps : Option Text
  pub add : Option Text
  pub port : Option StringOrNumber
  pub id : Option Text
  pub aid : Option StringOrNumber
  pub scy : Option Text
  pub net : Option Text
  pub header : Option Text
  pub host : Option Text
  pub path : Option Text
  pub tls : Option Text
  pub sni : Option Text
  pub alpn : Option Text
  pub fp : Option Text

-- A field of the type `string`; `null` counts as no field, and all that reads it does the same for both.
unfoldable pub string_field : Option Json → Option (Option Text)
string_field none = some none
string_field (some null) = some none
string_field (some (str s)) = some (some s)
string_field (some _) = none

unfoldable pub string_or_number : Option Json → Option (Option StringOrNumber)
string_or_number none = some none
string_or_number (some null) = some none
string_or_number (some (str s)) = some (some (a_string s))
string_or_number (some (num n)) = some (some (a_number n))
string_or_number (some _) = none

-- `id` is passed on as it is, so that `null` is of another type.
unfoldable pub id_field : Option Json → Option (Option Text)
id_field (some null) = none
id_field j = string_field j

-- The cast `as VmessJson`, where the types are right.
unfoldable pub vmess_fields : Fields → Option VmessJson
vmess_fields fs = do
  ps ← string_field (find_field (codes "ps") fs)
  add ← string_field (find_field (codes "add") fs)
  port ← string_or_number (find_field (codes "port") fs)
  id ← id_field (find_field (codes "id") fs)
  aid ← string_or_number (find_field (codes "aid") fs)
  scy ← string_field (find_field (codes "scy") fs)
  net ← string_field (find_field (codes "net") fs)
  header ← string_field (find_field (codes "type") fs)
  host ← string_field (find_field (codes "host") fs)
  path ← string_field (find_field (codes "path") fs)
  tls ← string_field (find_field (codes "tls") fs)
  sni ← string_field (find_field (codes "sni") fs)
  alpn ← string_field (find_field (codes "alpn") fs)
  fp ← string_field (find_field (codes "fp") fs)
  some (record {
    ps = ps;
    add = add;
    port = port;
    id = id;
    aid = aid;
    scy = scy;
    net = net;
    header = header;
    host = host;
    path = path;
    tls = tls;
    sni = sni;
    alpn = alpn;
    fp = fp;
  })

-- `toNumber(value, 0)`
unfoldable pub number_from : Option StringOrNumber → Number
number_from none = nat 0
number_from (some (a_number n)) = finite_or_zero n
number_from (some (a_string s)) = to_port s

unfoldable pub vmess_security : Text → Text
vmess_security tls =
    if text_eq tls (codes "reality")
    then codes "reality"
    else if text_eq tls (codes "tls")
    then codes "tls"
    else codes "none"

-- The object that is returned, for an address that is not empty.
unfoldable pub vmess_object : Text → Number → VmessJson → Text → ParsedServer
vmess_object address port json raw =
    let net = or_text json.net (codes "tcp") in
    let is_grpc = text_eq net (codes "grpc") in
    record {
      protocol = vmess;
      tag = or_text json.ps (fallback_tag (codes "vmess") address port);
      address = address;
      port = port;
      id = json.id;
      password = none;
      method = none;
      alter_id = some (number_from json.aid);
      encryption = some (or_text json.scy (codes "auto"));
      flow = none;
      network = net;
      security = vmess_security (or_default json.tls []);
      sni = truthy json.sni;
      fingerprint = truthy json.fp;
      alpn = split_csv json.alpn;
      public_key = none;
      short_id = none;
      spider_x = none;
      path = if is_grpc then none else truthy json.path;
      host = truthy json.host;
      service_name = if is_grpc then truthy json.path else none;
      header_type = truthy json.header;
      raw = raw;
    }

-- `!address || port === 0` is refused.
unfoldable pub vmess_server : VmessJson → Text → Parsed
vmess_server json raw = elim (or_default json.add []) [
  | [] ↦ refused
  | c ∷ address ↦
      if is_zero (number_from json.port)
      then refused
      else parsed (vmess_object (c ∷ address) (number_from json.port) json raw)
]

abbrev or_mistyped : Option VmessJson → (VmessJson → Parsed) → Parsed
or_mistyped none f = mistyped
or_mistyped (some json) f = f json

-- A value that is no object has no address; on `null` the access throws.
unfoldable pub from_json : Option Json → Text → Parsed
from_json (some (obj fs)) raw = or_mistyped (vmess_fields fs) λ json. vmess_server json raw
from_json _ raw = refused

unfoldable pub parse_vmess : Text → Text → Parsed
parse_vmess after_scheme raw =
    let (payload, hash) = cut_first b'#' after_scheme in
    from_json (parse (base64_to_string payload)) raw

abbrev pub or_refused : Option ParsedServer → Parsed
or_refused none = refused
or_refused (some s) = parsed s

-- The parts around the first `://`.
unfoldable pub cut_scheme : Text → Option (Text × Text)
cut_scheme [] = none
cut_scheme (c ∷ s) =
    if text_eq (take 3 (c ∷ s)) (codes "://")
    then some ([], drop 3 (c ∷ s))
    else cut_scheme s >>= λ cut. some (c ∷ cut.0, cut.1)

-- The `switch` on the scheme.
unfoldable pub parse_scheme : Text → Text → Text → Parsed
parse_scheme scheme after_scheme trimmed =
    if text_eq scheme (codes "vless")
    then or_refused (parse_vless after_scheme trimmed)
    else if text_eq scheme (codes "trojan")
    then or_refused (parse_trojan after_scheme trimmed)
    else if text_eq scheme (codes "vmess")
    then parse_vmess after_scheme trimmed
    else if text_eq scheme (codes "ss")
    then or_refused (parse_shadowsocks after_scheme trimmed)
    else refused

unfoldable pub parse_share_link : Text → Parsed
parse_share_link uri = elim (cut_scheme (trim uri)) [
  | none ↦ refused
  | some cut ↦ parse_scheme (lower cut.0) cut.1 (trim uri)
]

abbrev head_cons : ℕ → List Text → List Text
head_cons c [] = (c ∷ []) ∷ []
head_cons c (s ∷ ss) = (c ∷ s) ∷ ss

abbrev starts_line : Text → Bool
starts_line [] = false
starts_line (c ∷ s) = c == 10

-- `split(/\r?\n/)`
unfoldable pub split_lines : Text → List Text
split_lines [] = [] ∷ []
split_lines (c ∷ s) =
    let rest = split_lines s in
    if c == 10 then [] ∷ rest else if c == 13 && starts_line s then rest else head_cons c rest

-- The lines, trimmed, without the empty ones.
unfoldable pub links_of : List Text → List Text
links_of [] = []
links_of (line ∷ lines) = elim (trim line) [
  | [] ↦ links_of lines
  | c ∷ link ↦ (c ∷ link) ∷ links_of lines
]

-- The servers in their order; none if a link is mistyped.
unfoldable pub servers_of : List Text → Option (List ParsedServer)
servers_of [] = some []
servers_of (link ∷ links) = elim (parse_share_link link) [
  | parsed s ↦ servers_of links >>= λ servers. some (s ∷ servers)
  | refused ↦ servers_of links
  | mistyped ↦ none
]

unfoldable pub parse_subscription : Text → Option (List ParsedServer)
parse_subscription payload = servers_of (links_of (split_lines (payload_text payload)))
