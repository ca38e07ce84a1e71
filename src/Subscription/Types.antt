-- ===== src/Subscription/Types.antt =====
-- src/subscription/types.ts: a parsed server. The parsers cast `network` and `security` from any
-- text, so they are texts; a field that may be missing is an `Option`.
use react_native_nitro_xray.Prelude.{List, Option, Text, codes}
use react_native_nitro_xray.Json.{Number}

pub data ProxyProtocol : Type 0 where
  vless vmess trojan shadowsocks : ProxyProtocol

unfoldable pub protocol_text : ProxyProtocol → Text
protocol_text vless = codes "vless"
protocol_text vmess = codes "vmess"
protocol_text trojan = codes "trojan"
protocol_text shadowsocks = codes "shadowsocks"

-- The type `Network`: the networks that the configuration has settings for.
pub data Network : Type 0 where
  tcp ws grpc httpupgrade xhttp kcp h2 : Network

unfoldable pub network_text : Network → Text
network_text tcp = codes "tcp"
network_text ws = codes "ws"
network_text grpc = codes "grpc"
network_text httpupgrade = codes "httpupgrade"
network_text xhttp = codes "xhttp"
network_text kcp = codes "kcp"
network_text h2 = codes "h2"

pub record SubscriptionInfo : Type 0 where
  pub upload : Option Number
  pub download : Option Number
  pub total : Option Number
  pub expire : Option Number

pub record ParsedServer : Type 0 where
  pub protocol : ProxyProtocol
  pub tag : Text
  pub address : Text
  pub port : Number
  pub id : Option Text
  pub password : Option Text
  pub method : Option Text
  pub alter_id : Option Number
  pub encryption : Option Text
  pub flow : Option Text
  pub network : Text
  pub security : Text
  pub sni : Option Text
  pub fingerprint : Option Text
  pub alpn : Option (List Text)
  pub public_key : Option Text
  pub short_id : Option Text
  pub spider_x : Option Text
  pub path : Option Text
  pub host : Option Text
  pub service_name : Option Text
  pub header_type : Option Text
  pub raw : Text
