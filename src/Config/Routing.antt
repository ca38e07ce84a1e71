-- ===== src/Config/Routing.antt =====
-- Every rule of a built configuration names an outbound that the configuration has.
use react_native_nitro_xray.Prelude.{
  ◌==◌, Bool, Bool-cases, List, Option, Text, [], ap, append-nil, codes, false, if◌then◌else◌, inl,
  inr, none, or_default, refl, some, text_eq, text_eq_refl, text_eq_sound, ◌++◌, ◌∙◌, ◌∷◌, ◌≡◌, ◌≢◌,
}
use react_native_nitro_xray.Json.{Number, Json, ◌>>=◌, items}
use react_native_nitro_xray.Subscription.Types.{ParsedServer}
use react_native_nitro_xray.Config.Outbound.{build_outbound}
use react_native_nitro_xray.Config.Reader.{
  text_at, elems_of, elems_at, Traffic, any_of, route, reading, find_tag, resolve,
}
use react_native_nitro_xray.Config.Build.{
  private_ranges, BuildConfigOptions, OlcrtcTunnelOptions, build_xray_config,
  build_olcrtc_tunnel_config, config_of, plain_outbounds, olcrtc_outbounds, olcrtc_tag,
  proxy_tag_of, rules, tunnel_outbound,
}

-- The destination is in a loopback, private or link-local range of IPv4 or IPv6.
abbrev pub is_private : Traffic → Bool
is_private t = any_of t.is_within (
    codes "127.0.0.1/32"
    ∷ codes "10.0.0.0/8"
    ∷ codes "172.16.0.0/12"
    ∷ codes "192.168.0.0/16"
    ∷ codes "169.254.0.0/16"
    ∷ codes "fc00::/7"
    ∷ codes "fe80::/10"
    ∷ [])

-- Where a connection is to go: what asks for port 53 to `dns-out`, else what goes to a private
-- address to `direct`, else what came through the tunnel to `tag`; no rule takes the rest.
abbrev pub destination : Text → Traffic → Option Text
destination tag t =
    if 53 == t.port
    then some (codes "dns-out")
    else if is_private t
    then some (codes "direct")
    else if any_of (text_eq t.inbound_tag) (codes "tun-in" ∷ [])
    then some tag
    else none

-- A configuration whose rules send a connection where it is to go, and where the first outbound
-- tagged `tag` is `proxy`.
pub record IsRouted (t : Traffic) (tag : Text) (proxy config : Json) : Type 0 where
  pub routed : route config t ≡ destination tag t
  pub tunnel : resolve tag config ≡ some proxy

-- The tags `direct` and `dns-out` lead to the outbounds that bypass the proxy.
pub record IsSplit (config : Json) : Type 0 where
  pub private_ranges :
      (resolve (codes "direct") config >>= text_at (codes "protocol")) ≡ some (codes "freedom")
  pub dns : (resolve (codes "dns-out") config >>= text_at (codes "protocol")) ≡ some (codes "dns")

elems_of-items : (js : List Json) → elems_of (items js) ≡ js
unfolding elems_of
elems_of-items [] = refl
elems_of-items (j ∷ js) = ap (◌∷◌ j) (elems_of-items js)

pub text_eq-ne : (s t : Text) → s ≢ t → text_eq s t ≡ false
text_eq-ne s t h = elim (Bool-cases (text_eq s t)) [
  | inl e ↦ absurd (h (text_eq_sound s t e))
  | inr e ↦ e
]

module _ (tag : Text) (proxy : Json) (h : text_at (codes "tag") proxy ≡ some tag) where
  find_tag-proxy : (rest : List Json) → find_tag tag (proxy ∷ rest) ≡ some proxy
  unfolding find_tag
  find_tag-proxy rest = rw (h, find_tag) (rw (text_eq_refl tag) refl)

  pub find_tag-later :
      (rest : List Json) (k : Text) → tag ≢ k → find_tag k (proxy ∷ rest) ≡ find_tag k rest
  unfolding find_tag
  find_tag-later rest k ne = rw (h, find_tag) (rw (text_eq-ne tag k ne) refl)

  module _ (log_level : Option Text) (more : List Json) (dns : Option (List Text))
      (tun_name : Option Text) (mtu : Option Number) (enable_stats : Option Bool) where
    abbrev pub config : Json
    config = config_of log_level (proxy ∷ plain_outbounds ++ more) dns tun_name mtu tag enable_stats

    pub outbounds-config_of : elems_at (codes "outbounds") config ≡ proxy ∷ plain_outbounds ++ more
    unfolding reading config_of
    outbounds-config_of = ap (◌∷◌ proxy) (elems_of-items (plain_outbounds ++ more))

    pub resolve-config_of :
        (k : Text) → resolve k config ≡ find_tag k (proxy ∷ plain_outbounds ++ more)
    unfolding resolve
    resolve-config_of k = ap (find_tag k) outbounds-config_of

    route-config_of : (t : Traffic) → route config t ≡ destination tag t
    unfolding reading config_of rules private_ranges
    route-config_of t = refl

    pub resolve-tag : resolve tag config ≡ some proxy
    resolve-tag = resolve-config_of tag ∙ find_tag-proxy (plain_outbounds ++ more)

    pub config_of-IsRouted : (t : Traffic) → IsRouted t tag proxy config
    config_of-IsRouted t = record { routed = route-config_of t; tunnel = resolve-tag }

    plain_direct :
        (find_tag (codes "direct") (plain_outbounds ++ more) >>= text_at (codes "protocol"))
        ≡ some (codes "freedom")
    unfolding reading find_tag plain_outbounds
    plain_direct = refl

    plain_dns :
        (find_tag (codes "dns-out") (plain_outbounds ++ more) >>= text_at (codes "protocol"))
        ≡ some (codes "dns")
    unfolding reading find_tag plain_outbounds
    plain_dns = refl

    pub config_of-IsSplit : tag ≢ codes "direct" → tag ≢ codes "dns-out" → IsSplit config
    config_of-IsSplit ne ne' = record {
      private_ranges =
          rw
            (
              resolve-config_of (codes "direct"),
              find_tag-later (plain_outbounds ++ more) (codes "direct") ne,
            )
            plain_direct;
      dns =
          rw
            (
              resolve-config_of (codes "dns-out"),
              find_tag-later (plain_outbounds ++ more) (codes "dns-out") ne',
            )
            plain_dns;
    }

pub tag-build_outbound :
    (server : ParsedServer) (tag : Text) (dialer : Option Text)
    → text_at (codes "tag") (build_outbound server tag dialer) ≡ some tag
unfolding reading build_outbound
tag-build_outbound server tag dialer = refl

-- The outbound of the olcrtc-only configuration.
tag-tunnel_outbound :
    (tag host : Text) (port : Number)
    → text_at (codes "tag") (tunnel_outbound tag host port) ≡ some tag
unfolding reading tunnel_outbound
tag-tunnel_outbound tag host port = refl

abbrev pub tunnel_proxy : OlcrtcTunnelOptions → Json
tunnel_proxy options =
    tunnel_outbound (proxy_tag_of options.proxy_tag)
      (or_default options.socks_host (codes "127.0.0.1")) options.socks_port

abbrev pub server_proxy : ParsedServer → BuildConfigOptions → Json
server_proxy server options =
    build_outbound server (proxy_tag_of options.proxy_tag) (olcrtc_tag options.olcrtc)

pub resolve-proxy :
    (server : ParsedServer) (options : BuildConfigOptions)
    → resolve (proxy_tag_of options.proxy_tag) (build_xray_config server options)
      ≡ some (server_proxy server options)
unfolding build_xray_config
resolve-proxy server options =
    resolve-tag (proxy_tag_of options.proxy_tag) (server_proxy server options)
      (tag-build_outbound server _ _) options.log_level (olcrtc_outbounds options.olcrtc)
      options.dns options.tun_name options.mtu options.enable_stats

pub resolve-tunnel :
    (tunnel : OlcrtcTunnelOptions)
    → resolve (proxy_tag_of tunnel.proxy_tag) (build_olcrtc_tunnel_config tunnel)
      ≡ some (tunnel_proxy tunnel)
unfolding build_olcrtc_tunnel_config
resolve-tunnel tunnel = rw (← append-nil plain_outbounds) (
    resolve-tag (proxy_tag_of tunnel.proxy_tag) (tunnel_proxy tunnel) (tag-tunnel_outbound _ _ _)
      tunnel.log_level [] tunnel.dns tunnel.tun_name tunnel.mtu tunnel.enable_stats)

-- For every server and options, and whatever asks for an outbound: the rules of both builders send
-- what goes to port 53 to the tag `dns-out`, other traffic to the seven private ranges to `direct` and
-- what else comes through the tunnel to the proxy tag; and the first outbound with the proxy tag is
-- the server's outbound, or the olcrtc socks outbound in the olcrtc-only configuration.
pub build-IsRouted :
    (server : ParsedServer) (options : BuildConfigOptions) (tunnel : OlcrtcTunnelOptions)
    (t : Traffic)
    → IsRouted t
        (proxy_tag_of options.proxy_tag)
        (server_proxy server options)
        (build_xray_config server options)
      × IsRouted t
          (proxy_tag_of tunnel.proxy_tag)
          (tunnel_proxy tunnel)
          (build_olcrtc_tunnel_config tunnel)
unfolding build_xray_config build_olcrtc_tunnel_config
build-IsRouted server options tunnel t = (
  config_of-IsRouted (proxy_tag_of options.proxy_tag) (server_proxy server options)
      (tag-build_outbound server _ _) options.log_level (olcrtc_outbounds options.olcrtc)
      options.dns options.tun_name options.mtu options.enable_stats t,
  rw (← append-nil plain_outbounds) (
      config_of-IsRouted (proxy_tag_of tunnel.proxy_tag) (tunnel_proxy tunnel)
        (tag-tunnel_outbound _ _ _) tunnel.log_level [] tunnel.dns tunnel.tun_name tunnel.mtu
        tunnel.enable_stats t),
)

-- With a proxy tag other than `direct` and `dns-out`, the tag `direct` leads to a `freedom` outbound
-- and `dns-out` to a `dns` outbound, in both builders.
pub build-IsSplit :
    (server : ParsedServer) (options : BuildConfigOptions) (tunnel : OlcrtcTunnelOptions)
    → proxy_tag_of options.proxy_tag ≢ codes "direct"
    → proxy_tag_of options.proxy_tag ≢ codes "dns-out"
    → tunnel.proxy_tag ≡ options.proxy_tag
    → IsSplit (build_xray_config server options) × IsSplit (build_olcrtc_tunnel_config tunnel)
unfolding build_xray_config build_olcrtc_tunnel_config
build-IsSplit server options tunnel ne ne' same = (
  config_of-IsSplit (proxy_tag_of options.proxy_tag) (server_proxy server options)
      (tag-build_outbound server _ _) options.log_level (olcrtc_outbounds options.olcrtc)
      options.dns options.tun_name options.mtu options.enable_stats ne ne',
  rw (← append-nil plain_outbounds) (
      config_of-IsSplit (proxy_tag_of tunnel.proxy_tag) (tunnel_proxy tunnel)
        (tag-tunnel_outbound _ _ _) tunnel.log_level [] tunnel.dns tunnel.tun_name tunnel.mtu
        tunnel.enable_stats (rw same ne) (rw same ne')),
)
