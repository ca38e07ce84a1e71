-- ===== src/Client/Connection.antt =====
-- src/client.ts: the data that `connect` stores, and the options of `connectOlcrtcOnly`.
use react_native_nitro_xray.Prelude.{
  Bool, List, Option, Text, [], codes, false, none, or_default, some, ◌==◌, ◌||◌, ◌∷◌,
}
use react_native_nitro_xray.Json.{Json, Number, nan, infinite, decimal, str, num, object}
use react_native_nitro_xray.Subscription.Types.{ParsedServer, protocol_text}
use react_native_nitro_xray.Config.Settings.{omit_undefined, opt_str}
use react_native_nitro_xray.Config.Build.{OlcrtcTunnelOptions}
use react_native_nitro_xray.Client.Engine.{OlcrtcClientConfig, listener_eq}

pub data Mode : Type 0 where
  direct olcrtc_chained olcrtc_only : Mode

unfoldable pub mode_text : Mode → Text
mode_text direct = codes "direct"
mode_text olcrtc_chained = codes "olcrtc-chained"
mode_text olcrtc_only = codes "olcrtc-only"

pub record ConnectionInfo : Type 0 where
  pub mode : Mode
  pub server : Option Json
  pub olcrtc : Option Json
  pub label : Option Text

-- The object literal; `JSON.stringify` leaves out the keys that are undefined.
unfoldable pub info_json : ConnectionInfo → Json
info_json info = Json.obj (
    omit_undefined (
      (codes "mode", some (str (mode_text info.mode)))
      ∷ (codes "server", info.server)
      ∷ (codes "olcrtc", info.olcrtc)
      ∷ (codes "label", opt_str info.label)
      ∷ []))

-- The fields of a server that are stored.
unfoldable pub server_meta : ParsedServer → Json
server_meta server = object (
    (codes "tag", str server.tag)
    ∷ (codes "address", str server.address)
    ∷ (codes "port", num server.port)
    ∷ (codes "protocol", str (protocol_text server.protocol))
    ∷ [])

unfoldable pub olcrtc_meta : Option OlcrtcClientConfig → Option Json
olcrtc_meta none = none
olcrtc_meta (some config) = some (
    object (
      (codes "carrier", str config.carrier)
      ∷ (codes "roomId", str config.room_id)
      ∷ (codes "transport", str (or_default config.transport (codes "vp8channel")))
      ∷ []))

abbrev opt_num : Option Number → Option Json
opt_num none = none
opt_num (some n) = some (num n)

abbrev opt_bool : Option Bool → Option Json
opt_bool none = none
opt_bool (some b) = some (Json.bool b)

-- A configuration as `JSON.stringify` sees it, its keys in the order of the interface.
unfoldable pub config_json : OlcrtcClientConfig → Json
config_json c = Json.obj (
    omit_undefined (
      (codes "carrier", some (str c.carrier))
      ∷ (codes "roomId", some (str c.room_id))
      ∷ (codes "clientId", some (str c.client_id))
      ∷ (codes "keyHex", some (str c.key_hex))
      ∷ (codes "socksPort", opt_num c.socks_port)
      ∷ (codes "socksUser", opt_str c.socks_user)
      ∷ (codes "socksPass", opt_str c.socks_pass)
      ∷ (codes "socksHost", opt_str c.socks_host)
      ∷ (codes "dnsServer", opt_str c.dns_server)
      ∷ (codes "transport", opt_str c.transport)
      ∷ (codes "readyTimeoutMs", opt_num c.ready_timeout_ms)
      ∷ (codes "vp8Fps", opt_num c.vp8_fps)
      ∷ (codes "vp8BatchSize", opt_num c.vp8_batch_size)
      ∷ (codes "debug", opt_bool c.debug)
      ∷ (codes "retries", opt_num c.retries)
      ∷ []))

-- The options of `connectOlcrtcOnly`.
pub record OlcrtcOnlyOptions : Type 0 where
  pub proxy_tag : Option Text
  pub dns : Option (List Text)
  pub tun_name : Option Text
  pub mtu : Option Number
  pub log_level : Option Text
  pub enable_stats : Option Bool
  pub label : Option Text

-- `{ socksPort, ...options }`
abbrev pub tunnel_options : Number → OlcrtcOnlyOptions → OlcrtcTunnelOptions
tunnel_options port o = record {
  socks_port = port;
  socks_host = none;
  proxy_tag = o.proxy_tag;
  dns = o.dns;
  tun_name = o.tun_name;
  mtu = o.mtu;
  log_level = o.log_level;
  enable_stats = o.enable_stats;
}

-- `n <= 0`, which `NaN` is not.
abbrev pub at_most_zero : Number → Bool
at_most_zero nan = false
at_most_zero (infinite negative) = negative
at_most_zero (decimal negative m places) = negative || m == 0
