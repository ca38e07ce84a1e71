-- ===== src/Subscription/Vmess/Tests.antt =====
-- A run of `parseSubscription` on a vmess link, and its theorem there.
use react_native_nitro_xray.Prelude.{
  Text, [], codes, index_of, is_space, lower, none, refl, some, text_eq, trim, trim_end, trim_start,
  ◌++◌, ◌∷◌, ◌≡◌,
}
use react_native_nitro_xray.Json.{nat, find_field}
use react_native_nitro_xray.Json.Parse.{
  parse, tokens, read, start, mark, end_of, end_word, word_token, number_token, is_number,
  after_whole, after_fraction, after_exponent, after_digits, skip_digits, accept, accepts,
  want_value, want_key, have_value, put,
}
use react_native_nitro_xray.Subscription.UserInfo.{unsigned, behind_whole, behind_digits, bounded}
use react_native_nitro_xray.Subscription.Numbers.{
  leading_digits, digits_value, to_port, number_text, decimal_text, whole_text, digits_text,
}
use react_native_nitro_xray.Subscription.Types.{ParsedServer, vmess}
use react_native_nitro_xray.Subscription.Base64.{
  base64_to_string, base64_to_bytes, decode_from, feed, take_sextet, b64_lookup, b64_alphabet,
  standard_char, normalized, strip_padding, utf8_decode, utf8_loop,
}
use react_native_nitro_xray.Subscription.Parts.{cut_first, fallback_tag, split_csv, non_empty}
use react_native_nitro_xray.Subscription.Payload.{payload_text, looks_like_base64, has_scheme}
use react_native_nitro_xray.Subscription.Vmess.{
  string_field, string_or_number, id_field, number_from, vmess_fields, vmess_security, vmess_object,
  vmess_server, from_json, parse_vmess, cut_scheme, parse_scheme, parse_share_link, split_lines,
  links_of, servers_of, parse_subscription,
}
use react_native_nitro_xray.Subscription.Vmess.Servers.{AreServers, parse_subscription-AreServers}

-- A comment, and the link of `{"add":"h","port":443}`.
abbrev link : Text
link = codes "VMess://eyJhZGQiOiJoIiwicG9ydCI6NDQzfQ=="

abbrev payload : Text
payload = codes "# note" ++ 13 ∷ 10 ∷ 32 ∷ link

abbrev server : ParsedServer
server = record {
  protocol = vmess;
  tag = codes "vmess-h:443";
  address = codes "h";
  port = nat 443;
  id = none;
  password = none;
  method = none;
  alter_id = some (nat 0);
  encryption = some (codes "auto");
  flow = none;
  network = codes "tcp";
  security = codes "none";
  sni = none;
  fingerprint = none;
  alpn = none;
  public_key = none;
  short_id = none;
  spider_x = none;
  path = none;
  host = none;
  service_name = none;
  header_type = none;
  raw = link;
}

parsed_payload : parse_subscription payload ≡ some (server ∷ [])
unfolding parse_subscription servers_of links_of split_lines payload_text looks_like_base64
    has_scheme trim trim_start trim_end is_space parse_share_link cut_scheme parse_scheme lower
    text_eq parse_vmess cut_first index_of base64_to_string base64_to_bytes decode_from feed
    take_sextet b64_lookup b64_alphabet standard_char normalized strip_padding utf8_decode utf8_loop
    parse tokens read start mark end_of end_word word_token number_token is_number after_whole
    after_fraction after_exponent after_digits skip_digits accept accepts want_value want_key
    have_value put unsigned behind_whole behind_digits bounded leading_digits digits_value from_json
    vmess_fields string_field string_or_number id_field find_field vmess_server vmess_object
    number_from to_port fallback_tag number_text decimal_text whole_text digits_text vmess_security
    split_csv non_empty
parsed_payload = refl

parse_subscription-AreServers_example :
    AreServers (links_of (split_lines (payload_text payload))) (server ∷ [])
parse_subscription-AreServers_example =
    parse_subscription-AreServers payload (server ∷ []) parsed_payload
