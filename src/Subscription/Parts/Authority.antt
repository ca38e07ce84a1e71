-- ===== src/Subscription/Parts/Authority.antt =====
-- A printed link is split into the parts that it was printed from.
use react_native_nitro_xray.Prelude.{
  All-append, false, true, Bool, All-append, Bool, Lacks, Text, [], ap, arith, drop-append_cons,
  false, index_of, index_of-append, last_index_of, length, none, refl, some, take-append, true, ℕ,
  ◌++◌, ◌∷◌, ◌≡◌,
}
use react_native_nitro_xray.Subscription.Numbers.{to_port}
use react_native_nitro_xray.Subscription.Parts.{
  cut_first, cut_last, decode_component_safe, parse_query, split_host_port, split_authority_link,
  starts_bracket,
}

index_of-Lacks : (c : ℕ) (s : Text) → Lacks c s → index_of c s ≡ none
unfolding index_of
index_of-Lacks c [] k = refl
index_of-Lacks c (d ∷ s) (ne, k) = ground (arith, index_of-Lacks c s k, ne)

last_index_of-Lacks : (c : ℕ) (s : Text) → Lacks c s → last_index_of c s ≡ none
unfolding last_index_of
last_index_of-Lacks c [] k = refl
last_index_of-Lacks c (d ∷ s) (ne, k) = ground (arith, last_index_of-Lacks c s k, ne)

last_index_of-append :
    (c : ℕ) (s t : Text) → Lacks c t → last_index_of c (s ++ c ∷ t) ≡ some (length s)
unfolding last_index_of
last_index_of-append c [] t k = ground (arith, last_index_of-Lacks c t k)
last_index_of-append c (d ∷ s) t k = rw (last_index_of-append c s t k) refl

cut_first-Lacks : (c : ℕ) (s : Text) → Lacks c s → cut_first c s ≡ (s, none)
unfolding cut_first
cut_first-Lacks c s k = rw (index_of-Lacks c s k, cut_first) refl

cut_first-append : (c : ℕ) (s t : Text) → Lacks c s → cut_first c (s ++ c ∷ t) ≡ (s, some t)
unfolding cut_first
cut_first-append c s t k =
    rw (index_of-append c s t k, cut_first)
      (rw (take-append s (c ∷ t), drop-append_cons s c t) refl)

cut_last-append : (c : ℕ) (s t : Text) → Lacks c t → cut_last c (s ++ c ∷ t) ≡ (some s, t)
unfolding cut_last
cut_last-append c s t k =
    rw (last_index_of-append c s t k, cut_last)
      (rw (take-append s (c ∷ t), drop-append_cons s c t) refl)

-- A host with a port, an IPv6 literal in brackets.
abbrev pub printed_host : Bool → Text → Text → Text
printed_host true host port = b'[' ∷ host ++ b']' ∷ b':' ∷ port
printed_host false host port = host ++ b':' ∷ port

abbrev pub Enclosed : Bool → Text → Text → Type 0
Enclosed true host port = Lacks b']' host
Enclosed false host port = (starts_bracket host ≡ false) × Lacks b':' port

bracket-append :
    (host rest : Text) → starts_bracket host ≡ false → starts_bracket (host ++ b':' ∷ rest) ≡ false
bracket-append [] rest h = refl
bracket-append (c ∷ host) rest h = h

split_host_port-printed :
    (ipv6 : Bool) (host port : Text)
    → Enclosed ipv6 host port
    → split_host_port (printed_host ipv6 host port) ≡ (host, to_port port)
unfolding split_host_port
split_host_port-printed true host port k =
    let e : cut_first b']' (printed_host true host port) ≡ (b'[' ∷ host, some (b':' ∷ port)) =
      cut_first-append b']' (b'[' ∷ host) (b':' ∷ port) ((λ e. omega arith), k) in
    rw (ap (λ p. p.1) e, split_host_port) (rw (ap (λ p. p.0) e) refl)
split_host_port-printed false host port (h, k) =
    let e : cut_last b':' (printed_host false host port) ≡ (some host, port) =
      cut_last-append b':' host port k in
    rw (bracket-append host port h, split_host_port) (rw (ap (λ p. p.0) e, ap (λ p. p.1) e) refl)

-- The parts of a link hold none of the marks that end them: the user may hold `@` and `/`, a plain host
-- `:` and the fragment anything.
pub record IsPrinted (ipv6 : Bool) (userinfo host port query : Text) : Type 0 where
  pub user : Lacks b'#' userinfo × Lacks b'?' userinfo
  pub host_lacks :
      let authority = printed_host ipv6 host port in
      Lacks b'#' authority × (Lacks b'?' authority × (Lacks b'@' authority × Lacks b'/' authority))
  pub enclosed : Enclosed ipv6 host port
  pub query_lacks : Lacks b'#' query

abbrev pub printed_link : Bool → Text → Text → Text → Text → Text → Text
printed_link ipv6 userinfo host port query fragment =
    ((userinfo ++ b'@' ∷ printed_host ipv6 host port) ++ b'?' ∷ query) ++ b'#' ∷ fragment

module _ (ipv6 : Bool) (userinfo : Text) (c : ℕ) (host port query fragment : Text)
    (v : IsPrinted ipv6 userinfo (c ∷ host) port query) where
  abbrev authority : Text
  authority = printed_host ipv6 (c ∷ host) port

  abbrev target : Text
  target = userinfo ++ b'@' ∷ authority

  target-Lacks : Lacks b'#' target × Lacks b'?' target
  target-Lacks = (
    All-append _ userinfo (b'@' ∷ authority) v.user.0 (λ e. omega arith, v.host_lacks.0),
    All-append _ userinfo (b'@' ∷ authority) v.user.1 (λ e. omega arith, v.host_lacks.1.0),
  )

  -- A link `userinfo@host:port?query#fragment` is split into these parts, the port read as a number,
  -- the query as its pairs and the fragment percent-decoded.
  pub split_authority_link-printed :
      split_authority_link (printed_link ipv6 userinfo (c ∷ host) port query fragment)
      ≡ some (record {
        userinfo = userinfo;
        host = c ∷ host;
        port = to_port port;
        query = parse_query query;
        fragment = decode_component_safe fragment;
      })
  unfolding split_authority_link
  split_authority_link-printed =
      let hash =
        cut_first-append b'#' (target ++ b'?' ∷ query) fragment
          (All-append _ target (b'?' ∷ query) target-Lacks.0 ((λ e. omega arith), v.query_lacks)) in
      let mark = cut_first-append b'?' target query target-Lacks.1 in
      let sign = cut_last-append b'@' userinfo authority v.host_lacks.1.1.0 in
      let slash = cut_first-Lacks b'/' authority v.host_lacks.1.1.1 in
      rw
        (
          ap (λ p. p.0) hash,
          ap (λ p. p.1) hash,
          ap (λ p. p.0) mark,
          ap (λ p. p.1) mark,
          ap (λ p. p.0) sign,
          ap (λ p. p.1) sign,
          ap (λ p. p.0) slash,
          split_host_port-printed ipv6 (c ∷ host) port v.enclosed,
        )
        refl
