-- ===== src/Config/Build.antt =====
-- `buildXrayConfig` and `buildOlcrtcTunnelConfig` of src/config/build.ts.
use react_native_nitro_xray.Prelude.{
  Bool, List, Option, Text, [], codes, if◌then◌else◌, map, none, or_default, some, true, ◌++◌, ◌∷◌,
  truthy,
}
use react_native_nitro_xray.Json.{Number, nat, Json, bool, num, str, array, object, text}
use react_native_nitro_xray.Subscription.Types.{ParsedServer}
use react_native_nitro_xray.Config.Settings.{
  OlcrtcChainOptions, socks_server, build_olcrtc_outbound,
}
use react_native_nitro_xray.Config.Outbound.{build_outbound}

pub record BuildConfigOptions : Type 0 where
  pub proxy_tag : Option Text
  pub dns : Option (List Text)
  pub tun_name : Option Text
  pub mtu : Option Number
  pub log_level : Option Text
  pub enable_stats : Option Bool
  pub olcrtc : Option OlcrtcChainOptions

-- `options = {}`.
abbrev pub no_options : BuildConfigOptions
no_options = record {
  proxy_tag = none;
  dns = none;
  tun_name = none;
  mtu = none;
  log_level = none;
  enable_stats = none;
  olcrtc = none;
}

pub record OlcrtcTunnelOptions : Type 0 where
  pub socks_port : Number
  pub socks_host : Option Text
  pub proxy_tag : Option Text
  pub dns : Option (List Text)
  pub tun_name : Option Text
  pub mtu : Option Number
  pub log_level : Option Text
  pub enable_stats : Option Bool

unfoldable pub private_ranges : List Text
private_ranges =
    codes "127.0.0.1/32"
    ∷ codes "10.0.0.0/8"
    ∷ codes "172.16.0.0/12"
    ∷ codes "192.168.0.0/16"
    ∷ codes "169.254.0.0/16"
    ∷ codes "fc00::/7"
    ∷ codes "fe80::/10"
    ∷ []

-- The fields that both configurations share, under the defaults of their options.
unfoldable pub default_dns : Option (List Text) → Json
default_dns dns = array (map str (or_default dns (codes "1.1.1.1" ∷ codes "localhost" ∷ [])))

unfoldable pub inbound : Option Text → Option Number → Json
inbound tun_name mtu = object (
    (codes "tag", text "tun-in")
    ∷ (codes "protocol", text "tun")
    ∷ (codes "port", num (nat 0))
    ∷ (
      codes "settings",
      object (
          (codes "name", str (or_default tun_name (codes "tun0")))
          ∷ (codes "mtu", num (or_default mtu (nat 1500)))
          ∷ []),
    )
    ∷ (
      codes "sniffing",
      object (
          (codes "enabled", bool true)
          ∷ (codes "destOverride", array (text "http" ∷ text "tls" ∷ text "quic" ∷ []))
          ∷ []),
    )
    ∷ [])

-- The outbounds `direct`, `block` and `dns-out`.
unfoldable pub plain_outbounds : List Json
plain_outbounds =
    object ((codes "protocol", text "freedom") ∷ (codes "tag", text "direct") ∷ [])
    ∷ object ((codes "protocol", text "blackhole") ∷ (codes "tag", text "block") ∷ [])
    ∷ object ((codes "protocol", text "dns") ∷ (codes "tag", text "dns-out") ∷ [])
    ∷ []

unfoldable pub rules : Text → List Json
rules proxy_tag =
    object (
      (codes "type", text "field")
      ∷ (codes "port", num (nat 53))
      ∷ (codes "outboundTag", text "dns-out")
      ∷ [])
    ∷ object (
        (codes "type", text "field")
        ∷ (codes "ip", array (map str private_ranges))
        ∷ (codes "outboundTag", text "direct")
        ∷ [])
    ∷ object (
        (codes "type", text "field")
        ∷ (codes "inboundTag", array (text "tun-in" ∷ []))
        ∷ (codes "outboundTag", str proxy_tag)
        ∷ [])
    ∷ []

unfoldable pub stats_blocks : Option Bool → List (Text × Json)
stats_blocks enable_stats =
    if or_default enable_stats true
    then (codes "stats", object [])
      ∷ (
        codes "policy",
        object (
            (
              codes "levels",
              object (
                  (
                    codes "0",
                    object (
                        (codes "statsUserUplink", bool true)
                        ∷ (codes "statsUserDownlink", bool true)
                        ∷ []),
                  )
                  ∷ []),
            )
            ∷ (
              codes "system",
              object (
                  (codes "statsInboundUplink", bool true)
                  ∷ (codes "statsInboundDownlink", bool true)
                  ∷ (codes "statsOutboundUplink", bool true)
                  ∷ (codes "statsOutboundDownlink", bool true)
                  ∷ []),
            )
            ∷ []),
      )
      ∷ []
    else []

unfoldable pub config_of :
    Option Text
    → List Json
    → Option (List Text)
    → Option Text
    → Option Number
    → Text
    → Option Bool
    → Json
unfolding default_dns inbound rules stats_blocks
config_of log_level outbounds dns tun_name mtu proxy_tag enable_stats = object (
    (codes "log", object ((codes "loglevel", str (or_default log_level (codes "warning"))) ∷ []))
    ∷ (codes "inbounds", array (inbound tun_name mtu ∷ []))
    ∷ (codes "outbounds", array outbounds)
    ∷ (codes "dns", object ((codes "servers", default_dns dns) ∷ []))
    ∷ (
      codes "routing",
      object (
          (codes "domainStrategy", text "IPIfNonMatch")
          ∷ (codes "rules", array (rules proxy_tag))
          ∷ []),
    )
    ∷ stats_blocks enable_stats)

-- `options.olcrtc ? (options.olcrtc.tag ?? 'olcrtc-out') : null`.
unfoldable pub olcrtc_tag : Option OlcrtcChainOptions → Option Text
olcrtc_tag none = none
olcrtc_tag (some olcrtc) = some (or_default olcrtc.tag (codes "olcrtc-out"))

-- `options.olcrtc && olcrtcTag`: the empty tag is false.
unfoldable pub olcrtc_outbounds : Option OlcrtcChainOptions → List Json
olcrtc_outbounds none = []
olcrtc_outbounds (some olcrtc) = elim (truthy (olcrtc_tag (some olcrtc))) [
  | none ↦ []
  | some tag ↦ build_olcrtc_outbound olcrtc tag ∷ []
]

abbrev pub proxy_tag_of : Option Text → Text
proxy_tag_of tag = or_default tag (codes "proxy")

unfoldable pub build_xray_config : ParsedServer → BuildConfigOptions → Json
build_xray_config server options =
    let tag = proxy_tag_of options.proxy_tag in
    config_of options.log_level
      (build_outbound server tag (olcrtc_tag options.olcrtc) ∷ plain_outbounds
        ++ olcrtc_outbounds options.olcrtc)
      options.dns options.tun_name options.mtu tag options.enable_stats

-- The `socks` outbound that takes the proxy's place.
unfoldable pub tunnel_outbound : Text → Text → Number → Json
unfolding socks_server
tunnel_outbound tag host port = object (
    (codes "tag", str tag)
    ∷ (codes "protocol", text "socks")
    ∷ (codes "settings", socks_server host port)
    ∷ [])

unfoldable pub build_olcrtc_tunnel_config : OlcrtcTunnelOptions → Json
build_olcrtc_tunnel_config options =
    let tag = proxy_tag_of options.proxy_tag in
    config_of options.log_level
      (tunnel_outbound tag (or_default options.socks_host (codes "127.0.0.1")) options.socks_port
        ∷ plain_outbounds)
      options.dns options.tun_name options.mtu tag options.enable_stats
