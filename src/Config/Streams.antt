-- ===== src/Config/Streams.antt =====
-- Which transport settings a stream has.
use react_native_nitro_xray.Prelude.{
  Bool, Bool-cases, List, Option, Text, [], arith, codes, false, if◌then◌else◌, inl, inr, is_some,
  none, refl, some, text_eq, true, ◌&&◌, ◌++◌, ◌∷◌, ◌≡◌,
}
use react_native_nitro_xray.Json.{Json, fields, find_field, get}
use react_native_nitro_xray.Subscription.Types.{
  ParsedServer, Network, tcp, ws, grpc, httpupgrade, xhttp, kcp, h2, network_text,
}
use react_native_nitro_xray.Config.Transport.{
  build_transport_settings, transport_for, security_settings, security_for,
}
use react_native_nitro_xray.Config.Outbound.{build_stream_settings, sockopt, transport_fields}
use react_native_nitro_xray.Config.Networks.{
  settings_key, is_http, has_settings, NetworkView, named, unnamed, view, key_of, key-transport_for,
  transport_for-unnamed,
}

-- Which of the settings keys one optional field has.
abbrev optional : Option (Text × Json) → List (Text × Json)
optional none = []
optional (some t) = t ∷ []

find_field-optional :
    (o : Option (Text × Json)) (k : Text)
    → is_some (find_field k (fields (optional o)))
      ≡ elim (key_of o) [ none ↦ false | some j ↦ text_eq j k ]
unfolding find_field
find_field-optional none k = refl
find_field-optional (some (j, v)) k = ground arith

-- Fields with no key `k` before others.
pub find_field-skip :
    (k : Text) (xs ys : List (Text × Json))
    → find_field k (fields xs) ≡ none
    → find_field k (fields (xs ++ ys)) ≡ find_field k (fields ys)
unfolding find_field
find_field-skip k [] ys h = refl
find_field-skip k ((j, v) ∷ xs) ys h = ground (arith, find_field-skip k xs ys)

pub sockopt-settings_key :
    (dialer : Option Text) (i : Network)
    → find_field (settings_key i) (fields (sockopt dialer)) ≡ none
unfolding sockopt settings_key find_field text_eq
sockopt-settings_key none i = refl
sockopt-settings_key (some []) i = refl
sockopt-settings_key (some (c ∷ t)) tcp = refl
sockopt-settings_key (some (c ∷ t)) _ = refl

-- The security fields, by the two tests of the code.
security_key :
    (security : Text) (server : ParsedServer) (k : Text)
    → text_eq (codes "tlsSettings") k ≡ false
    → text_eq (codes "realitySettings") k ≡ false
    → find_field k (fields (security_for security server)) ≡ none
unfolding security_for find_field
security_key security server k h h' = elim (Bool-cases (text_eq security (codes "tls"))) [
  | inl tls ↦ rw (tls, h) refl
  | inr other ↦ elim (Bool-cases (text_eq security (codes "reality"))) [
    | inl reality ↦ rw (other, reality, h') refl
    | inr plain ↦ rw (other, plain) refl
  ]
]

not_security :
    (i : Network)
    → (text_eq (codes "tlsSettings") (settings_key i) ≡ false)
      × (text_eq (codes "realitySettings") (settings_key i) ≡ false)
unfolding settings_key text_eq
not_security tcp = (refl, refl)
not_security _ = (refl, refl)

-- The settings of a network of the type have its key and no other.
named_key :
    (i j : Network) (http : Bool)
    → elim (if has_settings j http then some (settings_key j) else none) [
      | none ↦ false
      | some k ↦ text_eq k (settings_key i)
    ]
      ≡ (text_eq (network_text j) (network_text i) && has_settings i http)
unfolding settings_key network_text text_eq
named_key i j true = ground arith
named_key i j false = ground arith

transport_for-settings_key :
    (n : Text) (i : Network) (server : ParsedServer)
    → NetworkView n
    → is_some (find_field (settings_key i) (fields (optional (transport_for n server))))
      ≡ (text_eq n (network_text i) && has_settings i (is_http server.header_type))
unfolding find_field
transport_for-settings_key n i server (unnamed h) = rw (transport_for-unnamed n server h, h i) refl
transport_for-settings_key n i server (named j e) =
    rw
      (
        e,
        find_field-optional (transport_for (network_text j) server) (settings_key i),
        key-transport_for j server,
      )
      (named_key i j (is_http server.header_type))

transport_fields-optional :
    (server : ParsedServer)
    → transport_fields server ≡ optional (transport_for server.network server)
unfolding transport_fields build_transport_settings
transport_fields-optional server = ground arith

not_plain :
    (i : Network)
    → (text_eq (codes "network") (settings_key i) ≡ false)
      × (text_eq (codes "security") (settings_key i) ≡ false)
unfolding settings_key text_eq
not_plain tcp = (refl, refl)
not_plain _ = (refl, refl)

-- For every server, dialer tag and network of the type `Network`: the stream settings have the key of
-- that network exactly if it is the server's network and, for `tcp`, the header type is `http`. So no
-- stream has the settings of two networks, and one with any other network text has none.
pub get-settings_key :
    (server : ParsedServer) (dialer : Option Text) (i : Network)
    → is_some (get (settings_key i) (build_stream_settings server dialer))
      ≡ (text_eq server.network (network_text i) && has_settings i (is_http server.header_type))
unfolding get build_stream_settings find_field
get-settings_key server dialer i =
    let p = not_plain i in
    let q = not_security i in
    let k = settings_key i in
    rw
      (
        p.0,
        p.1,
        find_field-skip k (sockopt dialer) (security_settings server ++ transport_fields server)
            (sockopt-settings_key dialer i),
        find_field-skip k (security_settings server) (transport_fields server)
            (unfold security_settings in security_key server.security server k q.0 q.1),
        transport_fields-optional server,
      )
      (transport_for-settings_key server.network i server (view server.network))

none_of_is_some {ℓ} : {A : Type ℓ} (o : Option A) → is_some o ≡ false → o ≡ none
none_of_is_some none h = refl
none_of_is_some (some a) h = cc

-- The transport settings have no key but those of the networks.
transport_other_key :
    (n k : Text) (server : ParsedServer)
    → ((i : Network) → text_eq (settings_key i) k ≡ false)
    → NetworkView n
    → find_field k (fields (optional (transport_for n server))) ≡ none
unfolding find_field
transport_other_key n k server h (unnamed u) = rw (transport_for-unnamed n server u) refl
transport_other_key n k server h (named j e) = none_of_is_some _ (
    rw
      (e, find_field-optional (transport_for (network_text j) server) k, key-transport_for j server)
      (settings_other j (is_http server.header_type)))
  where
    settings_other :
        (j : Network) (http : Bool)
        → elim (if has_settings j http then some (settings_key j) else none) [
          | none ↦ false
          | some l ↦ text_eq l k
        ]
          ≡ false
    settings_other tcp true = h tcp
    settings_other tcp false = refl
    settings_other ws http = h ws
    settings_other grpc http = h grpc
    settings_other httpupgrade http = h httpupgrade
    settings_other xhttp http = h xhttp
    settings_other kcp http = h kcp
    settings_other h2 http = h h2

pub get-transport_other :
    (k : Text) (server : ParsedServer)
    → ((i : Network) → text_eq (settings_key i) k ≡ false)
    → find_field k (fields (transport_fields server)) ≡ none
get-transport_other k server h =
    rw (transport_fields-optional server)
      (transport_other_key server.network k server h (view server.network))
