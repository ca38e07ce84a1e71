-- ===== src/Config/Outbound.antt =====
-- The proxy outbound of src/config/build.ts with its stream settings.
use react_native_nitro_xray.Prelude.{List, Option, Text, [], codes, none, some, ◌++◌, ◌∷◌, truthy}
use react_native_nitro_xray.Json.{Json, str, object}
use react_native_nitro_xray.Subscription.Types.{ParsedServer}
use react_native_nitro_xray.Config.Settings.{build_settings, xray_protocol}
use react_native_nitro_xray.Config.Transport.{build_transport_settings, security_settings}

-- `if (dialerProxyTag)`: the empty tag is false.
unfoldable pub sockopt : Option Text → List (Text × Json)
sockopt dialer = elim (truthy dialer) [
  | none ↦ []
  | some tag ↦ (codes "sockopt", object ((codes "dialerProxy", str tag) ∷ [])) ∷ []
]

unfoldable pub transport_fields : ParsedServer → List (Text × Json)
transport_fields server = elim (build_transport_settings server) [
  | none ↦ []
  | some transport ↦ transport ∷ []
]

unfoldable pub build_stream_settings : ParsedServer → Option Text → Json
build_stream_settings server dialer = object (
    (codes "network", str server.network)
    ∷ (codes "security", str server.security)
    ∷ (sockopt dialer ++ (security_settings server ++ transport_fields server)))

unfoldable pub build_outbound : ParsedServer → Text → Option Text → Json
build_outbound server tag dialer = object (
    (codes "tag", str tag)
    ∷ (codes "protocol", str (xray_protocol server.protocol))
    ∷ (codes "settings", build_settings server)
    ∷ (codes "streamSettings", build_stream_settings server dialer)
    ∷ [])
