-- ===== src/Config/Networks.antt =====
-- The `switch` on the network in src/config/build.ts: which settings a network text selects.
use react_native_nitro_xray.Prelude.{
  Bool, Bool-cases, Option, Text, arith, codes, false, if◌then◌else◌, inl, inr, none, refl, some,
  text_eq, text_eq_sound, true, ◌≡◌,
}
use react_native_nitro_xray.Json.{Json}
use react_native_nitro_xray.Subscription.Types.{
  ParsedServer, Network, tcp, ws, grpc, httpupgrade, xhttp, kcp, h2, network_text,
}
use react_native_nitro_xray.Config.Transport.{transport_for, tcp_settings}

-- The key of a network's settings.
unfoldable pub settings_key : Network → Text
settings_key tcp = codes "tcpSettings"
settings_key ws = codes "wsSettings"
settings_key grpc = codes "grpcSettings"
settings_key httpupgrade = codes "httpupgradeSettings"
settings_key xhttp = codes "xhttpSettings"
settings_key kcp = codes "kcpSettings"
settings_key h2 = codes "httpSettings"

abbrev pub is_http : Option Text → Bool
is_http none = false
is_http (some header) = text_eq header (codes "http")

-- `tcp` has settings only for an http header.
abbrev pub has_settings : Network → Bool → Bool
has_settings tcp http = http
has_settings _ http = true

pub data NetworkView (n : Text) : Type 0 where
  named : (i : Network) → n ≡ network_text i → NetworkView n
  unnamed : ((i : Network) → text_eq n (network_text i) ≡ false) → NetworkView n

module _ (n : Text) where
  none_named :
      text_eq n (network_text tcp) ≡ false
      → text_eq n (network_text ws) ≡ false
      → text_eq n (network_text grpc) ≡ false
      → text_eq n (network_text httpupgrade) ≡ false
      → text_eq n (network_text xhttp) ≡ false
      → text_eq n (network_text kcp) ≡ false
      → text_eq n (network_text h2) ≡ false
      → (i : Network) → text_eq n (network_text i) ≡ false
  none_named a b c d e f g tcp = a
  none_named a b c d e f g ws = b
  none_named a b c d e f g grpc = c
  none_named a b c d e f g httpupgrade = d
  none_named a b c d e f g xhttp = e
  none_named a b c d e f g kcp = f
  none_named a b c d e f g h2 = g

  -- Either the text is that of `i`, or the view is left to the networks after it.
  try : (i : Network) → (text_eq n (network_text i) ≡ false → NetworkView n) → NetworkView n
  try i more = elim (Bool-cases (text_eq n (network_text i))) [
    | inl same ↦ named i (text_eq_sound n (network_text i) same)
    | inr other ↦ more other
  ]

  pub view : NetworkView n
  view = try tcp λ a. try ws λ b. try grpc λ c.
      try httpupgrade
        λ d. try xhttp λ e. try kcp λ f. try h2 λ g. unnamed (none_named a b c d e f g)

abbrev pub key_of : Option (Text × Json) → Option Text
key_of none = none
key_of (some (k, v)) = some k

key-tcp_settings :
    (server : ParsedServer)
    → key_of (tcp_settings server)
      ≡ (if has_settings tcp (is_http server.header_type) then some (settings_key tcp) else none)
unfolding tcp_settings settings_key
key-tcp_settings server = ground arith

pub key-transport_for :
    (i : Network) (server : ParsedServer)
    → key_of (transport_for (network_text i) server)
      ≡ (if has_settings i (is_http server.header_type) then some (settings_key i) else none)
unfolding transport_for tcp_settings network_text settings_key text_eq
key-transport_for tcp server = key-tcp_settings server
key-transport_for _ server = refl

pub transport_for-unnamed :
    (n : Text) (server : ParsedServer)
    → ((i : Network) → text_eq n (network_text i) ≡ false)
    → transport_for n server ≡ none
unfolding transport_for network_text
transport_for-unnamed n server h =
    rw (h ws, h httpupgrade, h xhttp, h grpc, h h2, h kcp, h tcp) refl
