-- ===== src/Config/Security.antt =====
-- Which security settings a stream has, and what it is dialed through.
use react_native_nitro_xray.Prelude.{
  Bool-cases, List, Option, Text, [], arith, codes, false, inl, inr, is_some, none, refl, some,
  text_eq, text_eq_sound, ◌++◌, ◌∷◌, ◌≡◌, ◌∙◌, ap, truthy,
}
use react_native_nitro_xray.Json.{◌>>=◌, Json, fields, find_field, get}
use react_native_nitro_xray.Subscription.Types.{ParsedServer, Network, tcp}
use react_native_nitro_xray.Config.Transport.{security_settings, security_for}
use react_native_nitro_xray.Config.Outbound.{build_stream_settings, sockopt, transport_fields}
use react_native_nitro_xray.Config.Networks.{settings_key}
use react_native_nitro_xray.Config.Streams.{find_field-skip, get-transport_other}
use react_native_nitro_xray.Config.Reader.{text_at}

-- The keys of the security settings are those of no network.
other_keys :
    (i : Network)
    → (text_eq (settings_key i) (codes "tlsSettings") ≡ false)
      × (text_eq (settings_key i) (codes "realitySettings") ≡ false)
      × (text_eq (settings_key i) (codes "sockopt") ≡ false)
unfolding settings_key text_eq
other_keys tcp = (refl, refl, refl)
other_keys _ = (refl, refl, refl)

-- In fields that only the first part has the key of.
find_field-left :
    (k : Text) (xs ys : List (Text × Json))
    → find_field k (fields ys) ≡ none
    → find_field k (fields (xs ++ ys)) ≡ find_field k (fields xs)
unfolding find_field
find_field-left k [] ys h = h
find_field-left k ((j, v) ∷ xs) ys h = ground (arith, find_field-left k xs ys h)

-- What the tests on `server.security` leave.
security_keys :
    (security : Text) (server : ParsedServer)
    → (is_some (find_field (codes "tlsSettings") (fields (security_for security server)))
        ≡ text_eq security (codes "tls"))
      × (is_some (find_field (codes "realitySettings") (fields (security_for security server)))
          ≡ text_eq security (codes "reality"))
      × (find_field (codes "sockopt") (fields (security_for security server)) ≡ none)
unfolding security_for find_field text_eq
security_keys security server = elim (Bool-cases (text_eq security (codes "tls"))) [
  | inl tls ↦ rw (text_eq_sound security (codes "tls") tls) (refl, refl, refl)
  | inr other ↦ elim (Bool-cases (text_eq security (codes "reality"))) [
    | inl reality ↦ rw (text_eq_sound security (codes "reality") reality) (refl, refl, refl)
    | inr plain ↦ rw (other, plain) (refl, refl, refl)
  ]
]

find_field-sockopt :
    (k : Text) (dialer : Option Text)
    → text_eq (codes "sockopt") k ≡ false
    → find_field k (fields (sockopt dialer)) ≡ none
unfolding sockopt find_field
find_field-sockopt k none h = refl
find_field-sockopt k (some []) h = refl
find_field-sockopt k (some (c ∷ t)) h = rw h refl

-- The fields of a stream behind `network` and `security`.
stream_field :
    (server : ParsedServer) (dialer : Option Text) (k : Text)
    → text_eq (codes "sockopt") k ≡ false
    → find_field k (fields (transport_fields server)) ≡ none
    → find_field k
        (fields (sockopt dialer ++ (security_settings server ++ transport_fields server)))
      ≡ find_field k (fields (security_for server.security server))
unfolding security_settings
stream_field server dialer k h none_later =
    find_field-skip k (sockopt dialer) (security_settings server ++ transport_fields server)
      (find_field-sockopt k dialer h)
    ∙ find_field-left k (security_for server.security server) (transport_fields server) none_later

-- For every server and dialer tag, the stream settings have `tlsSettings` exactly if the security is
-- `tls`, and `realitySettings` exactly if it is `reality`.
pub get-security :
    (server : ParsedServer) (dialer : Option Text)
    → (is_some (get (codes "tlsSettings") (build_stream_settings server dialer))
        ≡ text_eq server.security (codes "tls"))
      × (is_some (get (codes "realitySettings") (build_stream_settings server dialer))
          ≡ text_eq server.security (codes "reality"))
unfolding get build_stream_settings find_field text_eq
get-security server dialer =
    let keys = security_keys server.security server in
    (
      ap is_some (
            stream_field server dialer (codes "tlsSettings") refl
              (get-transport_other (codes "tlsSettings") server (λ i. (other_keys i).0)))
          ∙ keys.0,
      ap is_some (
            stream_field server dialer (codes "realitySettings") refl
              (get-transport_other (codes "realitySettings") server (λ i. (other_keys i).1)))
          ∙ keys.1,
    )

-- The tag that a stream is dialed through.
unfoldable pub dialer_of : Json → Option Text
unfolding text_at
dialer_of stream = get (codes "sockopt") stream >>= text_at (codes "dialerProxy")

-- Without a `sockopt` of its own a stream has none.
no_sockopt :
    (server : ParsedServer)
    → find_field (codes "sockopt") (fields (security_settings server ++ transport_fields server))
      ≡ none
unfolding security_settings
no_sockopt server =
    find_field-left (codes "sockopt") (security_for server.security server)
      (transport_fields server)
      (get-transport_other (codes "sockopt") server (λ i. (other_keys i).2))
    ∙ (security_keys server.security server).2

-- The stream is dialed through the tag that it was built with, and directly if there is none or it is
-- the empty text.
pub dialer_of-build_stream_settings :
    (server : ParsedServer) (dialer : Option Text)
    → dialer_of (build_stream_settings server dialer) ≡ truthy dialer
unfolding dialer_of get build_stream_settings sockopt find_field text_eq
dialer_of-build_stream_settings server none = rw (no_sockopt server) refl
dialer_of-build_stream_settings server (some []) = rw (no_sockopt server) refl
dialer_of-build_stream_settings server (some (c ∷ t)) = refl
