-- ===== src/Client/Recalled/Contents.antt =====
-- src/client.ts: what a reader finds in the connection that `connect` stores.
use react_native_nitro_xray.Prelude.{
  Option, Text, ap, codes, none, or_default, refl, some, text_eq, ◌≡◌,
}
use react_native_nitro_xray.Json.{Json, num, get, find_field, ◌>>=◌}
use react_native_nitro_xray.Config.Reader.{text_at}
use react_native_nitro_xray.Config.Settings.{OlcrtcChainOptions, omit_undefined}
use react_native_nitro_xray.Subscription.Types.{
  ParsedServer, ProxyProtocol, protocol_text, vless, vmess, trojan, shadowsocks,
}
use react_native_nitro_xray.Client.Engine.{NitroXrayCore, World, OlcrtcClientConfig}
use react_native_nitro_xray.Client.Connection.{
  direct, olcrtc_chained, mode_text, ConnectionInfo, info_json, server_meta, olcrtc_meta,
}
use react_native_nitro_xray.Client.{connect_info}

abbrev protocol_name : ProxyProtocol → Text
protocol_name vless = codes "vless"
protocol_name vmess = codes "vmess"
protocol_name trojan = codes "trojan"
protocol_name shadowsocks = codes "shadowsocks"

-- The side-channel that a connection goes through: the armed one, if the options have a chain.
abbrev held : Option OlcrtcChainOptions → Option OlcrtcClientConfig → Option OlcrtcClientConfig
held none armed = none
held (some chain) armed = armed

-- What a reader of the connection finds in it.
pub record IsConnection (server : ParsedServer) (chain : Option OlcrtcChainOptions)
    (armed : Option OlcrtcClientConfig) (info : Json) : Type 0 where
  pub mode :
      text_at (codes "mode") info
      ≡ some (elim chain [ none ↦ codes "direct" | some c ↦ codes "olcrtc-chained" ])
  pub tag : (get (codes "server") info >>= text_at (codes "tag")) ≡ some server.tag
  pub address : (get (codes "server") info >>= text_at (codes "address")) ≡ some server.address
  pub port : (get (codes "server") info >>= get (codes "port")) ≡ some (num server.port)
  pub protocol :
      (get (codes "server") info >>= text_at (codes "protocol"))
      ≡ some (protocol_name server.protocol)
  pub carrier :
      (get (codes "olcrtc") info >>= text_at (codes "carrier"))
      ≡ (held chain armed >>= λ c. some c.carrier)
  pub room_id :
      (get (codes "olcrtc") info >>= text_at (codes "roomId"))
      ≡ (held chain armed >>= λ c. some c.room_id)
  pub transport :
      (get (codes "olcrtc") info >>= text_at (codes "transport"))
      ≡ (held chain armed >>= λ c. some (or_default c.transport (codes "vp8channel")))
  pub label : get (codes "label") info ≡ none

protocol_text-name : (p : ProxyProtocol) → protocol_text p ≡ protocol_name p
unfolding protocol_text
protocol_text-name vless = refl
protocol_text-name vmess = refl
protocol_text-name trojan = refl
protocol_text-name shadowsocks = refl

abbrev pub stored_info :
    ParsedServer → Option OlcrtcChainOptions → Option OlcrtcClientConfig → ConnectionInfo
stored_info server none armed = record {
  mode = direct;
  server = some (server_meta server);
  olcrtc = none;
  label = none;
}
stored_info server (some chain) armed = record {
  mode = olcrtc_chained;
  server = some (server_meta server);
  olcrtc = olcrtc_meta armed;
  label = none;
}

pub connect_info-stored :
    {N : Type 0} (core : NitroXrayCore N) (server : ParsedServer)
    (chain : Option OlcrtcChainOptions) (w : World N)
    → connect_info core server chain w ≡ stored_info server chain w.armed_olcrtc
unfolding connect_info
connect_info-stored core server none w = refl
connect_info-stored core server (some chain) w = refl

pub stored-IsConnection :
    (server : ParsedServer) (chain : Option OlcrtcChainOptions) (armed : Option OlcrtcClientConfig)
    → IsConnection server chain armed (info_json (stored_info server chain armed))
unfolding info_json server_meta olcrtc_meta mode_text text_at get find_field text_eq omit_undefined
stored-IsConnection server none armed = record {
  mode = refl;
  tag = refl;
  address = refl;
  port = refl;
  protocol = ap some (protocol_text-name server.protocol);
  carrier = refl;
  room_id = refl;
  transport = refl;
  label = refl;
}
stored-IsConnection server (some chain) none = record {
  mode = refl;
  tag = refl;
  address = refl;
  port = refl;
  protocol = ap some (protocol_text-name server.protocol);
  carrier = refl;
  room_id = refl;
  transport = refl;
  label = refl;
}
stored-IsConnection server (some chain) (some config) = record {
  mode = refl;
  tag = refl;
  address = refl;
  port = refl;
  protocol = ap some (protocol_text-name server.protocol);
  carrier = refl;
  room_id = refl;
  transport = refl;
  label = refl;
}
