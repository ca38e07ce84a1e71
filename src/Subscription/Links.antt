-- ===== src/Subscription/Links.antt =====
-- src/subscription/parse.ts: the links of vless, trojan and shadowsocks.
pub mod Credentials
pub mod Dialable
use react_native_nitro_xray.Prelude.{
  [], Option, Text, codes, if◌then◌else◌, none, or_default, some, truthy, ◌∷◌,
}
use react_native_nitro_xray.Json.{Number, ◌>>=◌}
use react_native_nitro_xray.Subscription.Types.{
  ParsedServer, ProxyProtocol, vless, trojan, shadowsocks,
}
use react_native_nitro_xray.Subscription.Base64.{base64_to_string}
use react_native_nitro_xray.Subscription.Numbers.{is_zero}
use react_native_nitro_xray.Subscription.Parts.{
  cut_first, cut_last, decode_component_safe, split_first, fallback_tag, look_up, field_of,
  split_csv, split_host_port, or_empty, split_authority_link, AuthorityParts,
}

abbrev pub or_text : Option Text → Text → Text
or_text s d = or_default (truthy s) d

-- The object of `parseVless` or `parseTrojan`, with `streamFromQuery` spread into it.
unfoldable pub with_stream :
    ProxyProtocol
    → Text
    → AuthorityParts
    → Option Text
    → Option Text
    → Option Text
    → Text
    → Text
    → ParsedServer
with_stream protocol name parts id password encryption default_security raw = record {
  protocol = protocol;
  tag = or_text (some parts.fragment) (fallback_tag name parts.host parts.port);
  address = parts.host;
  port = parts.port;
  id = id;
  password = password;
  method = none;
  alter_id = none;
  encryption = encryption;
  flow = field_of "flow" parts.query;
  network = or_text (look_up (codes "type") parts.query) (codes "tcp");
  security = or_text (look_up (codes "security") parts.query) default_security;
  sni = elim (field_of "sni" parts.query) [
    | some sni ↦ some sni
    | none ↦ field_of "peer" parts.query
  ];
  fingerprint = field_of "fp" parts.query;
  alpn = split_csv (look_up (codes "alpn") parts.query);
  public_key = field_of "pbk" parts.query;
  short_id = field_of "sid" parts.query;
  spider_x = field_of "spx" parts.query;
  path = field_of "path" parts.query;
  host = field_of "host" parts.query;
  service_name = field_of "serviceName" parts.query;
  header_type = field_of "headerType" parts.query;
  raw = raw;
}

-- `!parts || !parts.userinfo || parts.port === 0`
abbrev pub usable : AuthorityParts → Option AuthorityParts
usable parts =
    truthy (some parts.userinfo) >>= (λ u. if is_zero parts.port then none else some parts)

unfoldable pub parse_vless : Text → Text → Option ParsedServer
parse_vless after_scheme raw = split_authority_link after_scheme >>= usable >>= (λ parts. some (
    with_stream vless (codes "vless") parts (some (decode_component_safe parts.userinfo)) none
      (some (or_text (look_up (codes "encryption") parts.query) (codes "none"))) (codes "none")
      raw))

unfoldable pub parse_trojan : Text → Text → Option ParsedServer
parse_trojan after_scheme raw = split_authority_link after_scheme >>= usable >>= (λ parts. some (
    with_stream trojan (codes "trojan") parts none (some (decode_component_safe parts.userinfo))
      none (codes "tls") raw))

-- A candidate with a method before the colon.
abbrev pub creds_of : Text → Option (Text × Text)
creds_of candidate =
    split_first candidate b':' >>= (λ pair. truthy (some pair.0) >>= (λ method. some pair))

-- `tryBase64` never throws: the decoder takes every text.
unfoldable pub decode_userinfo_creds : Text → Option (Text × Text)
decode_userinfo_creds userinfo = elim (creds_of (base64_to_string userinfo)) [
  | some creds ↦ some creds
  | none ↦ creds_of (decode_component_safe userinfo)
]

-- The legacy form: all of the body is base64.
unfoldable pub split_legacy : Text → Option ((Text × Text) × Text)
split_legacy body =
    let (userinfo, host_port) = cut_last b'@' (base64_to_string body) in
    userinfo >>= (λ u. split_first u b':' >>= (λ creds. some (creds, host_port)))

-- The method, the password and the `host:port` of the body.
unfoldable pub split_body : Text → Option ((Text × Text) × Text)
split_body body =
    let (userinfo, host_port) = cut_last b'@' body in
    elim userinfo [
      | some u ↦ decode_userinfo_creds u >>= (λ creds. some (creds, host_port))
      | none ↦ split_legacy body
    ]

abbrev pub shadowsocks_server : Text → Number → Text × Text → Option Text → Text → ParsedServer
shadowsocks_server host port creds hash raw = record {
  protocol = shadowsocks;
  tag = or_text (some (or_empty hash decode_component_safe)) (fallback_tag (codes "ss") host port);
  address = host;
  port = port;
  id = none;
  password = some creds.1;
  method = some creds.0;
  alter_id = none;
  encryption = none;
  flow = none;
  network = codes "tcp";
  security = codes "none";
  sni = none;
  fingerprint = none;
  alpn = none;
  public_key = none;
  short_id = none;
  spider_x = none;
  path = none;
  host = none;
  service_name = none;
  header_type = none;
  raw = raw;
}

-- `!host || port === 0` is refused.
unfoldable pub with_creds : Text × Number → Text × Text → Option Text → Text → Option ParsedServer
with_creds ([], port) creds hash raw = none
with_creds (c ∷ host, port) creds hash raw =
    if is_zero port then none else some (shadowsocks_server (c ∷ host) port creds hash raw)

unfoldable pub parse_shadowsocks : Text → Text → Option ParsedServer
parse_shadowsocks after_scheme raw =
    let (rest, hash) = cut_first b'#' after_scheme in
    let (body, plugin) = cut_first b'?' rest in
    split_body body >>= (λ found. with_creds (split_host_port found.1) found.0 hash raw)
