-- ===== src/Config/Tests.antt =====
-- Runs of src/config/build.ts, and its theorems at concrete servers and options.
use react_native_nitro_xray.Prelude.{
  inl, inr, [], codes, false, is_some, none, refl, some, text_eq, ◌&&◌, ◌∷◌, ◌≡◌,
}
use react_native_nitro_xray.Json.{nat, get, ◌>>=◌}
use react_native_nitro_xray.Subscription.Types.{ParsedServer, vless, ws, network_text}
use react_native_nitro_xray.Config.Settings.{OlcrtcChainOptions}
use react_native_nitro_xray.Config.Outbound.{build_stream_settings}
use react_native_nitro_xray.Config.Build.{
  BuildConfigOptions, no_options, OlcrtcTunnelOptions, build_xray_config,
  build_olcrtc_tunnel_config, plain_outbounds,
}
use react_native_nitro_xray.Config.Reader.{Traffic, resolve, elems_at}
use react_native_nitro_xray.Config.Routing.{
  IsRouted, IsSplit, build-IsRouted, build-IsSplit, server_proxy, tunnel_proxy,
}
use react_native_nitro_xray.Config.Networks.{settings_key, has_settings}
use react_native_nitro_xray.Config.Streams.{get-settings_key}
use react_native_nitro_xray.Config.Security.{get-security}
use react_native_nitro_xray.Config.Chain.{proxy_dialer, socks_target, build-hop, build-direct}

abbrev server : ParsedServer
server = record {
  protocol = vless;
  tag = codes "S";
  address = codes "example.com";
  port = nat 443;
  id = some (codes "uuid");
  password = none;
  method = none;
  alter_id = none;
  encryption = some (codes "none");
  flow = none;
  network = codes "ws";
  security = codes "tls";
  sni = some (codes "sni");
  fingerprint = none;
  alpn = none;
  public_key = none;
  short_id = none;
  spider_x = none;
  path = some (codes "/p");
  host = none;
  service_name = none;
  header_type = none;
  raw = [];
}

abbrev hop : OlcrtcChainOptions
hop = record { socks_port = nat 10808; socks_host = none; tag = none }

abbrev chained : BuildConfigOptions
chained = record no_options { olcrtc = some hop }

abbrev tunnel : OlcrtcTunnelOptions
tunnel = record {
  socks_port = nat 10808;
  socks_host = none;
  proxy_tag = none;
  dns = none;
  tun_name = none;
  mtu = none;
  log_level = none;
  enable_stats = none;
}

-- A connection from the tunnel to a host of the local network.
abbrev lan : Traffic
lan = record {
  port = 443;
  is_within = λ range. text_eq range (codes "192.168.0.0/16");
  inbound_tag = codes "tun-in";
}

build-IsRouted_example :
    IsRouted lan (codes "proxy") (server_proxy server chained) (build_xray_config server chained)
    × IsRouted lan (codes "proxy") (tunnel_proxy tunnel) (build_olcrtc_tunnel_config tunnel)
build-IsRouted_example = build-IsRouted server chained tunnel lan

build-IsSplit_example :
    IsSplit (build_xray_config server chained) × IsSplit (build_olcrtc_tunnel_config tunnel)
build-IsSplit_example = build-IsSplit server chained tunnel (λ e. cc e) (λ e. cc e) refl

get-settings_key_example :
    is_some (get (settings_key ws) (build_stream_settings server none))
    ≡ (text_eq (codes "ws") (network_text ws) && has_settings ws false)
get-settings_key_example = get-settings_key server none ws

get-security_example :
    (is_some (get (codes "tlsSettings") (build_stream_settings server none))
      ≡ text_eq (codes "tls") (codes "tls"))
    × (is_some (get (codes "realitySettings") (build_stream_settings server none))
        ≡ text_eq (codes "tls") (codes "reality"))
get-security_example = get-security server none

build-hop_example :
    ((resolve (codes "proxy") (build_xray_config server chained) >>= proxy_dialer)
      ≡ some (codes "olcrtc-out"))
    × ((resolve (codes "olcrtc-out") (build_xray_config server chained) >>= socks_target)
        ≡ some (codes "127.0.0.1", nat 10808))
build-hop_example =
    build-hop server chained hop (codes "olcrtc-out") refl (inr (refl, refl)) (record {
      not_proxy = λ e. cc e;
      not_direct = λ e. cc e;
      not_block = λ e. cc e;
      not_dns = λ e. cc e;
    })

build-direct_example :
    ((resolve (codes "proxy") (build_xray_config server no_options) >>= proxy_dialer) ≡ none)
    × (elems_at (codes "outbounds") (build_xray_config server no_options)
        ≡ server_proxy server no_options ∷ plain_outbounds)
build-direct_example = build-direct server no_options (inl refl)
