-- ===== src/Config/Settings.antt =====
-- The protocol settings of src/config/build.ts, and `omitUndefined`.
use react_native_nitro_xray.Prelude.{List, Option, Text, [], codes, none, or_default, some, ◌∷◌}
use react_native_nitro_xray.Json.{
  Number, nat, Json, num, str, obj, array, object, text, Fields, no_fields, field,
}
use react_native_nitro_xray.Subscription.Types.{
  ProxyProtocol, vless, vmess, trojan, shadowsocks, protocol_text, ParsedServer,
}

-- A value that may be `undefined`.
abbrev pub Property : Type 0
Property = Text × Option Json

abbrev pub opt_str : Option Text → Option Json
opt_str none = none
opt_str (some t) = some (str t)

unfoldable pub omit_undefined : List Property → Fields
omit_undefined [] = no_fields
omit_undefined ((k, none) ∷ ps) = omit_undefined ps
omit_undefined ((k, some v) ∷ ps) = field k v (omit_undefined ps)

pub record OlcrtcChainOptions : Type 0 where
  pub socks_port : Number
  pub socks_host : Option Text
  pub tag : Option Text

unfoldable pub socks_server : Text → Number → Json
socks_server host port = object (
    (
      codes "servers",
      array (object ((codes "address", str host) ∷ (codes "port", num port) ∷ []) ∷ []),
    )
    ∷ [])

unfoldable pub build_olcrtc_outbound : OlcrtcChainOptions → Text → Json
unfolding socks_server
build_olcrtc_outbound olcrtc tag = object (
    (codes "tag", str tag)
    ∷ (codes "protocol", text "socks")
    ∷ (
      codes "settings",
      socks_server (or_default olcrtc.socks_host (codes "127.0.0.1")) olcrtc.socks_port,
    )
    ∷ [])

unfoldable pub xray_protocol : ProxyProtocol → Text
unfolding protocol_text
xray_protocol protocol = protocol_text protocol

-- `{ vnext: [{ address, port, users: [user] }] }`.
abbrev pub vnext : ParsedServer → Fields → Json
vnext server user = object (
    (
      codes "vnext",
      array (
          object (
            (codes "address", str server.address)
            ∷ (codes "port", num server.port)
            ∷ (codes "users", array (obj user ∷ []))
            ∷ [])
          ∷ []),
    )
    ∷ [])

unfoldable pub settings_of : ProxyProtocol → ParsedServer → Json
unfolding omit_undefined
settings_of vless server = vnext server (
    omit_undefined (
      (codes "id", opt_str server.id)
      ∷ (codes "encryption", some (str (or_default server.encryption (codes "none"))))
      ∷ (codes "flow", opt_str server.flow)
      ∷ []))
settings_of vmess server = vnext server (
    omit_undefined (
      (codes "id", opt_str server.id)
      ∷ (codes "alterId", some (num (or_default server.alter_id (nat 0))))
      ∷ (codes "security", some (str (or_default server.encryption (codes "auto"))))
      ∷ []))
settings_of trojan server = object (
    (
      codes "servers",
      array (
          obj (
            omit_undefined (
              (codes "address", some (str server.address))
              ∷ (codes "port", some (num server.port))
              ∷ (codes "password", opt_str server.password)
              ∷ (codes "flow", opt_str server.flow)
              ∷ []))
          ∷ []),
    )
    ∷ [])
settings_of shadowsocks server = object (
    (
      codes "servers",
      array (
          obj (
            omit_undefined (
              (codes "address", some (str server.address))
              ∷ (codes "port", some (num server.port))
              ∷ (codes "method", opt_str server.method)
              ∷ (codes "password", opt_str server.password)
              ∷ []))
          ∷ []),
    )
    ∷ [])

unfoldable pub build_settings : ParsedServer → Json
unfolding settings_of
build_settings server = settings_of server.protocol server
