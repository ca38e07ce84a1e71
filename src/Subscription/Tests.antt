-- ===== src/Subscription/Tests.antt =====
-- Runs of src/subscription/parse.ts, and its theorems at concrete links.
use react_native_nitro_xray.Prelude.{
  Bool, Option, Text, [], arith, codes, false, index_of, inl, is_some, is_space, last_index_of,
  none, refl, some, split, text_eq, trim, trim_end, trim_start, true, ◌∷◌, ◌≡◌, lower,
}
use react_native_nitro_xray.Json.{nat}
use react_native_nitro_xray.Subscription.Types.{ParsedServer, vless}
use react_native_nitro_xray.Subscription.UserInfo.{
  parse_subscription_user_info, set_parts, set_part, set_info, to_number, number_in, radix_of,
  radix_number, radix_value, bounded, decimal_of, unsigned, behind_whole, behind_digits, exponent,
  whole_of, scaled, no_info,
}
use react_native_nitro_xray.Subscription.UserInfo.Printed.{
  header, upload_key, total_key, parse_subscription_user_info-header,
}
use react_native_nitro_xray.Subscription.Base64.{
  base64_to_string, base64_to_bytes, decode_from, feed, take_sextet, b64_lookup, b64_alphabet,
  standard_char, normalized, strip_padding, utf8_decode, utf8_loop,
}
use react_native_nitro_xray.Subscription.Base64.RoundTrip.{encode}
use react_native_nitro_xray.Subscription.Base64.Utf8.{utf8_text, utf16_text}
use react_native_nitro_xray.Subscription.Payload.{
  payload_text, looks_like_base64, has_scheme, payload_text-encode,
}
use react_native_nitro_xray.Subscription.Uri.{
  decode_uri_component, pieces, hex_value, units, lead, continuation,
}
use react_native_nitro_xray.Subscription.Numbers.{
  to_port, parse_int, signed, number_of, leading_digits, digits_value, number_text, whole_text,
  digits_text,
}
use react_native_nitro_xray.Subscription.Parts.{
  split_first, split_authority_link, parse_query, decode_component_safe, look_up, split_host_port,
  cut_first, cut_last, set_pairs, split_csv, non_empty, fallback_tag,
}
use react_native_nitro_xray.Subscription.Parts.Authority.{IsPrinted, split_authority_link-printed}
use react_native_nitro_xray.Subscription.Links.{
  parse_vless, parse_trojan, decode_userinfo_creds, with_stream,
}
use react_native_nitro_xray.Subscription.Links.Credentials.{decode_userinfo_creds-encode}
use react_native_nitro_xray.Subscription.Links.Dialable.{IsDialable, parse-IsDialable}

abbrev is_text : Option Text → Text → Bool
is_text none t = false
is_text (some s) t = text_eq s t

abbrev name_of : Option ParsedServer → Option Text
name_of none = none
name_of (some s) = some s.tag

-- "é" and a code point above the basic plane.
decoded :
    is_text (decode_uri_component (codes "a%C3%A9%F0%9F%98%80")) (97 ∷ 233 ∷ 55357 ∷ 56832 ∷ [])
    ≡ true
unfolding decode_uri_component pieces hex_value units lead continuation text_eq
decoded = refl

refused : is_some (decode_uri_component (codes "100%")) ≡ false
unfolding decode_uri_component pieces hex_value units lead continuation text_eq
refused = refl

printed : IsPrinted false (codes "u@") (codes "h") (codes "443") (codes "type=ws&type=%67rpc")
printed = record {
  user = ground arith;
  host_lacks = ground arith;
  enclosed = ground arith;
  query_lacks = ground arith;
}

split_authority_link-printed_example :
    split_authority_link (codes "u@@h:443?type=ws&type=%67rpc#S")
    ≡ some (record {
      userinfo = codes "u@";
      host = codes "h";
      port = to_port (codes "443");
      query = parse_query (codes "type=ws&type=%67rpc");
      fragment = decode_component_safe (codes "S");
    })
split_authority_link-printed_example =
    split_authority_link-printed false (codes "u@") b'h' [] (codes "443")
      (codes "type=ws&type=%67rpc") (codes "S") printed

decode_userinfo_creds-encode_example :
    decode_userinfo_creds (encode false true (utf8_text (codes "aes:p:w")))
    ≡ some (utf16_text (codes "aes"), utf16_text (codes "p:w"))
decode_userinfo_creds-encode_example =
    decode_userinfo_creds-encode false true b'a' (codes "es") (codes "p:w") (ground arith)
      (ground arith) (ground arith)

abbrev password_of : Option (Text × Text) → Option Text
password_of none = none
password_of (some creds) = some creds.1

-- A userinfo that is not base64, whose letters decode to bytes with a colon at the end: the password
-- "c6" is lost.
plain_creds : password_of (decode_userinfo_creds (codes "chacha20-ietf-poly1305:c6")) ≡ some []
unfolding decode_userinfo_creds split_first index_of base64_to_string base64_to_bytes decode_from
    feed take_sextet b64_lookup b64_alphabet standard_char normalized strip_padding utf8_decode
    utf8_loop is_space
plain_creds = refl

abbrev link : Text
link = codes "u@h:443?security=reality#S"

abbrev from_link : ParsedServer
from_link = record {
  protocol = vless;
  tag = codes "S";
  address = codes "h";
  port = nat 443;
  id = some (codes "u");
  password = none;
  method = none;
  alter_id = none;
  encryption = some (codes "none");
  flow = none;
  network = codes "tcp";
  security = codes "reality";
  sni = none;
  fingerprint = none;
  alpn = none;
  public_key = none;
  short_id = none;
  spider_x = none;
  path = none;
  host = none;
  service_name = none;
  header_type = none;
  raw = codes "vless://";
}

parsed : parse_vless link (codes "vless://") ≡ some from_link
unfolding parse_vless split_authority_link split_host_port cut_first cut_last index_of last_index_of
    parse_query set_pairs split decode_component_safe look_up split_csv non_empty trim trim_end
    fallback_tag number_text whole_text digits_text with_stream to_port parse_int signed trim_start
    is_space number_of leading_digits digits_value decode_uri_component pieces hex_value units lead
    continuation text_eq
parsed = refl

parse-IsDialable_example : IsDialable (codes "vless://") from_link
parse-IsDialable_example = parse-IsDialable link (codes "vless://") from_link (inl parsed)

-- `parseInt` reads the digits that the port starts with.
port_prefix : to_port (codes " 443/x") ≡ nat 443
unfolding to_port parse_int signed trim_start is_space number_of leading_digits digits_value
port_prefix = refl

-- A port 0 is refused.
no_port : is_some (parse_trojan (codes "p@h:0") []) ≡ false
unfolding parse_trojan split_authority_link split_host_port cut_first cut_last index_of
    last_index_of parse_query set_pairs split decode_component_safe look_up split_csv non_empty trim
    trim_end fallback_tag number_text whole_text digits_text with_stream to_port parse_int signed
    trim_start is_space number_of leading_digits digits_value decode_uri_component pieces hex_value
    units lead continuation text_eq
no_port = refl

payload_text-encode_example :
    payload_text (encode true false (utf8_text (codes "ss://"))) ≡ utf16_text (codes "ss://")
payload_text-encode_example = payload_text-encode true false b's' (codes "s://") (ground arith)

-- Links that are not encoded are kept.
kept : text_eq (payload_text (codes " ss://a")) (codes " ss://a") ≡ true
unfolding payload_text looks_like_base64 has_scheme trim trim_start trim_end is_space text_eq
kept = refl

-- An empty value, an unknown key and a negative number are skipped; the keys are read in any case.
user_info_skips :
    parse_subscription_user_info (some (codes "UPLOAD= 1e3;x=1;total=-1;expire=;download=0x10"))
    ≡ some (record no_info { upload = some (nat 1000); download = some (nat 16) })
unfolding parse_subscription_user_info set_parts set_part set_info to_number number_in radix_of
    radix_number radix_value bounded decimal_of unsigned behind_whole behind_digits exponent
    whole_of scaled split index_of trim trim_start trim_end is_space lower text_eq leading_digits
    digits_value
user_info_skips = refl

parse_subscription_user_info-header_example :
    parse_subscription_user_info
      (some (header (upload_key, 4) ((total_key, 9) ∷ (upload_key, 5) ∷ [])))
    ≡ some (record no_info { upload = some (nat 5); total = some (nat 9) })
parse_subscription_user_info-header_example =
    parse_subscription_user_info-header (upload_key, 4) ((total_key, 9) ∷ (upload_key, 5) ∷ [])
      (omega arith, (omega arith, (omega arith, tt)))
