-- ===== src/Config/Chain.antt =====
-- The olcrtc hop: when the proxy outbound is dialed through it, and that the hop is there.
use react_native_nitro_xray.Prelude.{
  ◌⊎◌, inl, inr, List, Option, Text, [], ap, append-nil, codes, none, or_default, refl, some,
  text_eq, text_eq_refl, ◌++◌, ◌∙◌, ◌∷◌, ◌≡◌, ◌≢◌, truthy,
}
use react_native_nitro_xray.Json.{Number, Json, num, find_field, get, first, ◌>>=◌}
use react_native_nitro_xray.Subscription.Types.{ParsedServer}
use react_native_nitro_xray.Config.Settings.{
  socks_server, OlcrtcChainOptions, build_olcrtc_outbound,
}
use react_native_nitro_xray.Config.Outbound.{build_outbound}
use react_native_nitro_xray.Config.Security.{dialer_of, dialer_of-build_stream_settings}
use react_native_nitro_xray.Config.Build.{
  OlcrtcTunnelOptions, build_olcrtc_tunnel_config, tunnel_outbound, BuildConfigOptions,
  build_xray_config, plain_outbounds, olcrtc_outbounds, olcrtc_tag, proxy_tag_of,
}
use react_native_nitro_xray.Config.Reader.{text_at, elems_at, find_tag, resolve, reading}
use react_native_nitro_xray.Config.Routing.{
  resolve-config_of, outbounds-config_of, find_tag-later, tag-build_outbound, text_eq-ne,
  server_proxy, resolve-proxy, resolve-tunnel,
}

-- Where a socks outbound dials to.
unfoldable pub socks_target : Json → Option (Text × Number)
socks_target outbound = do
  settings ← get (codes "settings") outbound
  servers ← get (codes "servers") settings
  server ← first servers
  address ← text_at (codes "address") server
  port ← get (codes "port") server
  elim port [ num n ↦ some (address, n) | _ ↦ none ]

unfoldable pub proxy_dialer : Json → Option Text
proxy_dialer outbound = get (codes "streamSettings") outbound >>= dialer_of

-- The tag of the hop that the options ask for: the one they give, which is not empty, or the default.
abbrev pub IsHop : OlcrtcChainOptions → Text → Type 0
IsHop olcrtc tag =
    ((olcrtc.tag ≡ some tag) × (tag ≢ [])) ⊎ ((olcrtc.tag ≡ none) × (tag ≡ codes "olcrtc-out"))

-- The options ask for no hop, or for one with the empty text as its tag.
abbrev pub IsDirect : BuildConfigOptions → Type 0
IsDirect options =
    (options.olcrtc ≡ none)
    ⊎ ((olcrtc : OlcrtcChainOptions) × ((options.olcrtc ≡ some olcrtc) × (olcrtc.tag ≡ some [])))

truthy-some : (tag : Text) → tag ≢ [] → truthy (some tag) ≡ some tag
truthy-some [] ne = absurd (ne refl)
truthy-some (c ∷ t) ne = refl

truthy-hop :
    (olcrtc : OlcrtcChainOptions) (tag : Text)
    → IsHop olcrtc tag
    → truthy (olcrtc_tag (some olcrtc)) ≡ some tag
unfolding olcrtc_tag
truthy-hop olcrtc tag (inl (e, ne)) = rw e (truthy-some tag ne)
truthy-hop olcrtc tag (inr (e, default)) = rw (e, default) refl

truthy-direct :
    (options : BuildConfigOptions) → IsDirect options → truthy (olcrtc_tag options.olcrtc) ≡ none
unfolding olcrtc_tag
truthy-direct options (inl e) = rw e refl
truthy-direct options (inr (olcrtc, (e, empty))) = rw (e, empty) refl

proxy_dialer-build_outbound :
    (server : ParsedServer) (tag : Text) (dialer : Option Text)
    → proxy_dialer (build_outbound server tag dialer) ≡ truthy dialer
unfolding proxy_dialer build_outbound get find_field text_eq
proxy_dialer-build_outbound server tag dialer = dialer_of-build_stream_settings server dialer

-- The tag is one of none of the plain outbounds.
pub record IsFresh (tag proxy : Text) : Type 0 where
  pub not_proxy : proxy ≢ tag
  pub not_direct : codes "direct" ≢ tag
  pub not_block : codes "block" ≢ tag
  pub not_dns : codes "dns-out" ≢ tag

socks_target-olcrtc :
    (olcrtc : OlcrtcChainOptions) (tag : Text)
    → socks_target (build_olcrtc_outbound olcrtc tag)
      ≡ some (or_default olcrtc.socks_host (codes "127.0.0.1"), olcrtc.socks_port)
unfolding socks_target build_olcrtc_outbound reading first get find_field text_eq
socks_target-olcrtc olcrtc tag = refl

find_tag-plain :
    (tag proxy : Text) (more : List Json)
    → IsFresh tag proxy
    → find_tag tag (plain_outbounds ++ more) ≡ find_tag tag more
unfolding find_tag reading plain_outbounds
find_tag-plain tag proxy more f =
    rw
      (
        text_eq-ne (codes "direct") tag f.not_direct,
        text_eq-ne (codes "block") tag f.not_block,
        text_eq-ne (codes "dns-out") tag f.not_dns,
      )
      refl

-- The hop is the only outbound behind the plain ones.
olcrtc_outbounds-some :
    (olcrtc : OlcrtcChainOptions) (tag : Text)
    → truthy (olcrtc_tag (some olcrtc)) ≡ some tag
    → olcrtc_outbounds (some olcrtc) ≡ build_olcrtc_outbound olcrtc tag ∷ []
unfolding olcrtc_outbounds
olcrtc_outbounds-some olcrtc tag h = rw (h, olcrtc_outbounds) refl

olcrtc_outbounds-none :
    (olcrtc : Option OlcrtcChainOptions)
    → truthy (olcrtc_tag olcrtc) ≡ none
    → olcrtc_outbounds olcrtc ≡ []
unfolding olcrtc_outbounds
olcrtc_outbounds-none none h = refl
olcrtc_outbounds-none (some olcrtc) h = rw (h, olcrtc_outbounds) refl

resolve-build :
    (server : ParsedServer) (options : BuildConfigOptions) (tag : Text)
    → IsFresh tag (proxy_tag_of options.proxy_tag)
    → resolve tag (build_xray_config server options)
      ≡ find_tag tag (olcrtc_outbounds options.olcrtc)
unfolding build_xray_config
resolve-build server options tag f =
    let p = proxy_tag_of options.proxy_tag in
    let outbound = server_proxy server options in
    let tagged = tag-build_outbound server p (olcrtc_tag options.olcrtc) in
    let more = olcrtc_outbounds options.olcrtc in
    resolve-config_of p outbound tagged options.log_level more options.dns options.tun_name
      options.mtu options.enable_stats tag
    ∙ find_tag-later p outbound tagged (plain_outbounds ++ more) tag f.not_proxy
    ∙ find_tag-plain tag p more f

find_tag-olcrtc :
    (olcrtc : OlcrtcChainOptions) (tag : Text)
    → find_tag tag (build_olcrtc_outbound olcrtc tag ∷ []) ≡ some (build_olcrtc_outbound olcrtc tag)
unfolding find_tag reading build_olcrtc_outbound
find_tag-olcrtc olcrtc tag = rw (text_eq_refl tag) refl

-- How the first outbound with the proxy tag is dialed.
dialer_of_proxy :
    (server : ParsedServer) (options : BuildConfigOptions) (dialer : Option Text)
    → truthy (olcrtc_tag options.olcrtc) ≡ dialer
    → (resolve (proxy_tag_of options.proxy_tag) (build_xray_config server options) >>= proxy_dialer)
      ≡ dialer
dialer_of_proxy server options dialer e =
    ap (λ o. o >>= proxy_dialer) (resolve-proxy server options)
    ∙ proxy_dialer-build_outbound server (proxy_tag_of options.proxy_tag)
        (olcrtc_tag options.olcrtc)
    ∙ e

-- For options with an olcrtc hop, whose tag is the one they give and not empty or else `olcrtc-out`,
-- and is the tag of no other outbound: the first outbound of the configuration with the proxy tag is
-- dialed through that tag, and the outbound with that tag is a socks hop to the host of the options,
-- or 127.0.0.1 without one, and to their port.
pub build-hop :
    (server : ParsedServer) (options : BuildConfigOptions) (olcrtc : OlcrtcChainOptions)
    (tag : Text)
    → options.olcrtc ≡ some olcrtc
    → IsHop olcrtc tag
    → IsFresh tag (proxy_tag_of options.proxy_tag)
    → let config = build_xray_config server options in
      ((resolve (proxy_tag_of options.proxy_tag) config >>= proxy_dialer) ≡ some tag)
      × ((resolve tag config >>= socks_target)
          ≡ some (or_default olcrtc.socks_host (codes "127.0.0.1"), olcrtc.socks_port))
build-hop server options olcrtc tag given named fresh =
    let hop = truthy-hop olcrtc tag named in
    let outbounds : olcrtc_outbounds options.olcrtc ≡ build_olcrtc_outbound olcrtc tag ∷ [] =
      ap olcrtc_outbounds given ∙ olcrtc_outbounds-some olcrtc tag hop in
    (
      dialer_of_proxy server options (some tag) (ap (λ o. truthy (olcrtc_tag o)) given ∙ hop),
      ap (λ o. o >>= socks_target)
            (resolve-build server options tag fresh
              ∙ ap (find_tag tag) outbounds
              ∙ find_tag-olcrtc olcrtc tag)
          ∙ socks_target-olcrtc olcrtc tag,
    )

-- With no olcrtc options, or with the empty text as the hop's tag, the first outbound with the proxy
-- tag is dialed directly, and the outbounds are the server's and the three plain ones.
pub build-direct :
    (server : ParsedServer) (options : BuildConfigOptions)
    → IsDirect options
    → ((resolve (proxy_tag_of options.proxy_tag) (build_xray_config server options)
          >>= proxy_dialer)
        ≡ none)
      × (elems_at (codes "outbounds") (build_xray_config server options)
          ≡ server_proxy server options ∷ plain_outbounds)
unfolding build_xray_config
build-direct server options direct =
    let h = truthy-direct options direct in
    let p = proxy_tag_of options.proxy_tag in
    let outbound = server_proxy server options in
    let tagged = tag-build_outbound server p (olcrtc_tag options.olcrtc) in
    (
      dialer_of_proxy server options none h,
      outbounds-config_of p outbound tagged options.log_level (olcrtc_outbounds options.olcrtc)
            options.dns options.tun_name options.mtu options.enable_stats
          ∙ ap (λ more. outbound ∷ plain_outbounds ++ more) (olcrtc_outbounds-none options.olcrtc h)
          ∙ ap (◌∷◌ outbound) (append-nil plain_outbounds),
    )

-- Where the first outbound with a tag dials to, if it is a socks hop.
abbrev pub hop_of : Text → Json → Option (Text × Number)
hop_of tag config = resolve tag config >>= socks_target

-- The outbound that takes the proxy's place dials to the side-channel.
pub tunnel-target :
    (tunnel : OlcrtcTunnelOptions)
    → hop_of (proxy_tag_of tunnel.proxy_tag) (build_olcrtc_tunnel_config tunnel)
      ≡ some (or_default tunnel.socks_host (codes "127.0.0.1"), tunnel.socks_port)
unfolding socks_target tunnel_outbound socks_server reading first get find_field text_eq
tunnel-target tunnel = ap (λ o. o >>= socks_target) (resolve-tunnel tunnel)
