-- ===== src/Subscription/Links/Dialable.antt =====
-- A server that a parser returns can be dialed.
use react_native_nitro_xray.Prelude.{
  inl, inr, ◌⊎◌, codes, Bool-cases, Option, Text, [], codes, false, inl, inr, none, refl, some,
  true, truthy, ℕ, ◌++◌, ◌∷◌, ◌≡◌, ◌≢◌, ◌⊎◌,
}
use react_native_nitro_xray.Json.{Number, ◌>>=◌}
use react_native_nitro_xray.Subscription.Types.{ParsedServer, ProxyProtocol, vless, trojan}
use react_native_nitro_xray.Subscription.Numbers.{is_zero, number_text}
use react_native_nitro_xray.Subscription.Parts.{
  or_empty, decode_component_safe, split_host_port, cut_first, split_authority_link, AuthorityParts,
  with_host, Query, fallback_tag, look_up, split_host_port, cut_first,
}
use react_native_nitro_xray.Subscription.Links.{
  split_body, with_creds, shadowsocks_server, usable, with_stream, or_text, parse_vless,
  parse_trojan, parse_shadowsocks, split_body,
}

-- A server with an address and a port, a name, and a transport; `raw` is the link.
pub record IsDialable (raw : Text) (s : ParsedServer) : Type 0 where
  pub address : s.address ≢ []
  pub port : is_zero s.port ≡ false
  pub tag : s.tag ≢ []
  pub network : s.network ≢ []
  pub security : s.security ≢ []
  pub link : s.raw ≡ raw

bind-some :
    {A B : Type 0} (o : Option A) (f : A → Option B) (b : B)
    → o >>= f ≡ some b
    → (a : A) × ((o ≡ some a) × (f a ≡ some b))
bind-some none f b h = cc
bind-some (some a) f b h = (a, (refl, h))

with_host-host :
    (found : Text × Number) (userinfo : Text) (query : Query) (fragment : Text)
    (parts : AuthorityParts)
    → with_host found userinfo query fragment ≡ some parts
    → parts.host ≢ []
with_host-host ([], port) userinfo query fragment parts h = cc
with_host-host (c ∷ host, port) userinfo query fragment parts h = λ e. cc (h, e)

split_authority_link-host :
    (s : Text) (parts : AuthorityParts) → split_authority_link s ≡ some parts → parts.host ≢ []
unfolding split_authority_link
split_authority_link-host s parts h = with_host-host _ _ _ _ parts h

usable-port :
    (parts good : AuthorityParts)
    → usable parts ≡ some good
    → (good ≡ parts) × (is_zero parts.port ≡ false)
usable-port parts good h = elim (Bool-cases (is_zero parts.port)) [
  | inl no_port ↦ elim (refused no_port) [ ]
  | inr other ↦ (accepted other, other)
]
  where
    refused : is_zero parts.port ≡ true → ⊥
    refused e = let (u, (p, f)) = bind-some (truthy (some parts.userinfo)) _ good h in cc (e, f)

    accepted : is_zero parts.port ≡ false → good ≡ parts
    accepted e = let (u, (p, f)) = bind-some (truthy (some parts.userinfo)) _ good h in cc (e, f)

pub or_text-ne : (s : Option Text) (d : Text) → d ≢ [] → or_text s d ≢ []
or_text-ne none d ne = ne
or_text-ne (some []) d ne = ne
or_text-ne (some (c ∷ s)) d ne = λ e. cc e

append-ne : (s : Text) (c : ℕ) (t : Text) → s ++ c ∷ t ≢ []
append-ne [] c t = λ e. cc e
append-ne (d ∷ s) c t = λ e. cc e

pub fallback_tag-ne : (protocol host : Text) (port : Number) → fallback_tag protocol host port ≢ []
unfolding fallback_tag
fallback_tag-ne protocol host port = append-ne protocol b'-' (host ++ b':' ∷ number_text port)

with_stream-IsDialable :
    (protocol : ProxyProtocol) (name : Text) (parts : AuthorityParts)
    (id password encryption : Option Text) (security raw : Text)
    → parts.host ≢ []
    → is_zero parts.port ≡ false
    → security ≢ []
    → IsDialable raw (with_stream protocol name parts id password encryption security raw)
unfolding with_stream
with_stream-IsDialable protocol name parts id password encryption security raw host port named =
    record {
      address = host;
      port = port;
      tag = or_text-ne (some parts.fragment) _ (fallback_tag-ne name parts.host parts.port);
      network = or_text-ne (look_up (codes "type") parts.query) (codes "tcp") (λ e. cc e);
      security = or_text-ne (look_up (codes "security") parts.query) security named;
      link = refl;
    }

usable_parts :
    (after_scheme : Text) (parts : AuthorityParts)
    → split_authority_link after_scheme >>= usable ≡ some parts
    → (parts.host ≢ []) × (is_zero parts.port ≡ false)
usable_parts after_scheme parts h =
    let (found, (e, f)) = bind-some (split_authority_link after_scheme) usable parts h in
    let (same, port) = usable-port found parts f in
    (rw same (split_authority_link-host after_scheme found e), rw same port)

some-eq : {A : Type 0} (a b : A) → some a ≡ some b → a ≡ b
some-eq a b h = cc

parse_vless-IsDialable :
    (after_scheme raw : Text) (server : ParsedServer)
    → parse_vless after_scheme raw ≡ some server
    → IsDialable raw server
unfolding parse_vless
parse_vless-IsDialable after_scheme raw server h =
    let (parts, (e, f)) = bind-some (split_authority_link after_scheme >>= usable) _ server h in
    let (host, port) = usable_parts after_scheme parts e in
    rw (← some-eq _ server f) (
      with_stream-IsDialable vless (codes "vless") parts _ _ _ (codes "none") raw host port
        (λ e. cc e))

parse_trojan-IsDialable :
    (after_scheme raw : Text) (server : ParsedServer)
    → parse_trojan after_scheme raw ≡ some server
    → IsDialable raw server
unfolding parse_trojan
parse_trojan-IsDialable after_scheme raw server h =
    let (parts, (e, f)) = bind-some (split_authority_link after_scheme >>= usable) _ server h in
    let (host, port) = usable_parts after_scheme parts e in
    rw (← some-eq _ server f) (
      with_stream-IsDialable trojan (codes "trojan") parts _ _ _ (codes "tls") raw host port
        (λ e. cc e))

with_creds-IsDialable :
    (found : Text × Number) (creds : Text × Text) (hash : Option Text) (raw : Text)
    (server : ParsedServer)
    → with_creds found creds hash raw ≡ some server
    → IsDialable raw server
unfolding with_creds
with_creds-IsDialable ([], port) creds hash raw server h = cc
with_creds-IsDialable (c ∷ host, port) creds hash raw server h = elim (Bool-cases (is_zero port)) [
  | inl no_port ↦ elim (refused no_port) [ ]
  | inr other ↦ rw (← some-eq _ server (accepted other)) (record {
    address = λ e. cc e;
    port = other;
    tag =
        or_text-ne (some (or_empty hash decode_component_safe)) _
          (fallback_tag-ne (codes "ss") (c ∷ host) port);
    network = λ e. cc e;
    security = λ e. cc e;
    link = refl;
  })
]
  where
    refused : is_zero port ≡ true → ⊥
    refused e = cc (rw e at h)

    accepted :
        is_zero port ≡ false
        → some (shadowsocks_server (c ∷ host) port creds hash raw) ≡ some server
    accepted e = rw e at h

parse_shadowsocks-IsDialable :
    (after_scheme raw : Text) (server : ParsedServer)
    → parse_shadowsocks after_scheme raw ≡ some server
    → IsDialable raw server
unfolding parse_shadowsocks
parse_shadowsocks-IsDialable after_scheme raw server h =
    let (found, (e, f)) =
      bind-some (split_body (cut_first b'?' (cut_first b'#' after_scheme).0).0) _ server h in
    with_creds-IsDialable (split_host_port found.1) found.0 (cut_first b'#' after_scheme).1 raw
      server f

-- Every server that the parsers of vless, trojan and shadowsocks links return has an address that is
-- not empty, a port that is not 0, a name, a network and a security, and the given link as `raw`.
pub parse-IsDialable :
    (after_scheme raw : Text) (server : ParsedServer)
    → ((parse_vless after_scheme raw ≡ some server)
        ⊎ ((parse_trojan after_scheme raw ≡ some server)
            ⊎ (parse_shadowsocks after_scheme raw ≡ some server)))
    → IsDialable raw server
parse-IsDialable after_scheme raw server (inl h) = parse_vless-IsDialable after_scheme raw server h
parse-IsDialable after_scheme raw server (inr (inl h)) =
    parse_trojan-IsDialable after_scheme raw server h
parse-IsDialable after_scheme raw server (inr (inr h)) =
    parse_shadowsocks-IsDialable after_scheme raw server h
