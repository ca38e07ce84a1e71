-- ===== src/Config/Transport.antt =====
-- The transport and security settings of src/config/build.ts.
use react_native_nitro_xray.Prelude.{
  List, Option, Text, [], codes, false, if◌then◌else◌, map, none, or_default, some, text_eq, ◌∷◌,
  truthy,
}
use react_native_nitro_xray.Json.{Json, bool, str, obj, array, object, text, Fields}
use react_native_nitro_xray.Subscription.Types.{ParsedServer}
use react_native_nitro_xray.Config.Settings.{opt_str, omit_undefined}

-- `{ path: server.path ?? '/', host: server.host }`.
unfoldable pub path_and_host : ParsedServer → Fields
unfolding omit_undefined
path_and_host server = omit_undefined (
    (codes "path", some (str (or_default server.path (codes "/"))))
    ∷ (codes "host", opt_str server.host)
    ∷ [])

-- `server.host ? value : undefined`.
abbrev pub if_host : ParsedServer → (Text → Json) → Option Json
if_host server value = elim (truthy server.host) [ none ↦ none | some host ↦ some (value host) ]

unfoldable pub tcp_settings : ParsedServer → Option (Text × Json)
unfolding omit_undefined
tcp_settings server = elim server.header_type [
  | none ↦ none
  | some header_type ↦
      if text_eq header_type (codes "http")
      then some (
        codes "tcpSettings",
        object (
            (
              codes "header",
              obj (
                  omit_undefined (
                    (codes "type", some (text "http"))
                    ∷ (
                      codes "request",
                      if_host server λ host. object (
                          (codes "headers", object ((codes "Host", array (str host ∷ [])) ∷ []))
                          ∷ []),
                    )
                    ∷ [])),
            )
            ∷ []),
      )
      else none
]

-- The `switch` on `server.network`; a network that it does not name has no settings.
unfoldable pub transport_for : Text → ParsedServer → Option (Text × Json)
unfolding omit_undefined path_and_host tcp_settings
transport_for network server =
    if text_eq network (codes "ws")
    then some (
      codes "wsSettings",
      obj (
          omit_undefined (
            (codes "path", some (str (or_default server.path (codes "/"))))
            ∷ (codes "headers", if_host server λ host. object ((codes "Host", str host) ∷ []))
            ∷ [])),
    )
    else if text_eq network (codes "httpupgrade")
    then some (codes "httpupgradeSettings", obj (path_and_host server))
    else if text_eq network (codes "xhttp")
    then some (codes "xhttpSettings", obj (path_and_host server))
    else if text_eq network (codes "grpc")
    then some (
      codes "grpcSettings",
      obj (
          omit_undefined
            ((codes "serviceName", some (str (or_default server.service_name []))) ∷ [])),
    )
    else if text_eq network (codes "h2")
    then some (
      codes "httpSettings",
      obj (
          omit_undefined (
            (codes "path", some (str (or_default server.path (codes "/"))))
            ∷ (codes "host", if_host server λ host. array (str host ∷ []))
            ∷ [])),
    )
    else if text_eq network (codes "kcp")
    then some (
      codes "kcpSettings",
      object (
          (
            codes "header",
            object ((codes "type", str (or_default server.header_type (codes "none"))) ∷ []),
          )
          ∷ []),
    )
    else if text_eq network (codes "tcp")
    then tcp_settings server
    else none

unfoldable pub build_transport_settings : ParsedServer → Option (Text × Json)
build_transport_settings server = transport_for server.network server

unfoldable pub security_for : Text → ParsedServer → List (Text × Json)
unfolding omit_undefined
security_for security server =
    if text_eq security (codes "tls")
    then (
      codes "tlsSettings",
      obj (
          omit_undefined (
            (codes "serverName", opt_str server.sni)
            ∷ (codes "fingerprint", opt_str server.fingerprint)
            ∷ (
              codes "alpn",
              elim server.alpn [ none ↦ none | some names ↦ some (array (map str names)) ],
            )
            ∷ [])),
    )
      ∷ []
    else if text_eq security (codes "reality")
    then (
      codes "realitySettings",
      obj (
          omit_undefined (
            (codes "show", some (bool false))
            ∷ (codes "serverName", opt_str server.sni)
            ∷ (codes "fingerprint", opt_str server.fingerprint)
            ∷ (codes "publicKey", opt_str server.public_key)
            ∷ (codes "shortId", opt_str server.short_id)
            ∷ (codes "spiderX", opt_str server.spider_x)
            ∷ [])),
    )
      ∷ []
    else []

unfoldable pub security_settings : ParsedServer → List (Text × Json)
security_settings server = security_for server.security server
