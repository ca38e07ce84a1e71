-- ===== src/Subscription/Vmess/Servers.antt =====
-- The servers of a subscription.
use react_native_nitro_xray.Json.{◌>>=◌}
use react_native_nitro_xray.Prelude.{
  true, false, if◌then◌else◌, Bool-cases, Option, Text, [], ap, codes, false, inl, inr, none,
  or_default, refl, some, text_eq, ℕ, ◌∷◌, ◌≡◌, ◌≢◌, ◌⊎◌, Bool, List, if◌then◌else◌, trim,
  Option-cases, lower,
}
use react_native_nitro_xray.Json.{Json, Number, null, bool, num, str, arr, obj}
use react_native_nitro_xray.Subscription.Types.{ParsedServer}
use react_native_nitro_xray.Subscription.Numbers.{is_zero}
use react_native_nitro_xray.Subscription.Links.Dialable.{
  IsDialable, or_text-ne, fallback_tag-ne, parse-IsDialable,
}
use react_native_nitro_xray.Subscription.Vmess.{
  Parsed, parsed, refused, mistyped, VmessJson, vmess_fields, number_from, vmess_security,
  vmess_object, vmess_server, from_json, or_refused, or_mistyped, parse_vmess, parse_scheme,
  parse_share_link, servers_of, parse_subscription, parse, links_of, base64_to_string, split_lines,
  cut_first, cut_scheme, payload_text,
}

Parsed-cases :
    (p : Parsed) → ((s : ParsedServer) × (p ≡ parsed s)) ⊎ ((p ≡ refused) ⊎ (p ≡ mistyped))
Parsed-cases (parsed s) = inl (s, refl)
Parsed-cases refused = inr (inl refl)
Parsed-cases mistyped = inr (inr refl)

parsed_same : {s t : ParsedServer} → parsed s ≡ parsed t → s ≡ t
parsed_same h = cc h

vmess_security-filled : (tls : Text) → vmess_security tls ≢ []
unfolding vmess_security
vmess_security-filled tls = elim (Bool-cases (text_eq tls (codes "reality"))) [
  | inl same ↦ rw (same, vmess_security) (λ e. cc e)
  | inr other ↦ elim (Bool-cases (text_eq tls (codes "tls"))) [
    | inl same ↦ rw (other, same, vmess_security) (λ e. cc e)
    | inr plain ↦ rw (other, plain, vmess_security) (λ e. cc e)
  ]
]

vmess_object-IsDialable :
    (c : ℕ) (address : Text) (port : Number) (json : VmessJson) (raw : Text)
    → is_zero port ≡ false
    → IsDialable raw (vmess_object (c ∷ address) port json raw)
unfolding vmess_object
vmess_object-IsDialable c address port json raw h = record {
  address = λ e. cc e;
  port = h;
  tag = or_text-ne json.ps _ (fallback_tag-ne (codes "vmess") (c ∷ address) port);
  network = or_text-ne json.net (codes "tcp") (λ e. cc e);
  security = vmess_security-filled (or_default json.tls []);
  link = refl;
}

vmess_server-IsDialable :
    (json : VmessJson) (raw : Text) (s : ParsedServer)
    → vmess_server json raw ≡ parsed s
    → IsDialable raw s
unfolding vmess_server
vmess_server-IsDialable json raw s h = elim (Text-cases (or_default json.add [])) [
  | inl empty ↦ cc (rw (empty, vmess_server) at h)
  | inr (c, (address, e)) ↦ elim (Bool-cases (is_zero (number_from json.port))) [
    | inl no_port ↦ cc (rw (e, no_port, vmess_server) at h)
    | inr port ↦
        rw (← parsed_same (rw (e, port, vmess_server) at h))
          (vmess_object-IsDialable c address (number_from json.port) json raw port)
  ]
]
  where
    Text-cases : (t : Text) → (t ≡ []) ⊎ ((c : ℕ) × ((u : Text) × (t ≡ c ∷ u)))
    Text-cases [] = inl refl
    Text-cases (c ∷ u) = inr (c, (u, refl))

or_mistyped-IsDialable :
    (json : Option VmessJson) (raw : Text) (s : ParsedServer)
    → or_mistyped json (λ json. vmess_server json raw) ≡ parsed s
    → IsDialable raw s
or_mistyped-IsDialable none raw s h = cc h
or_mistyped-IsDialable (some json) raw s h = vmess_server-IsDialable json raw s h

from_json-IsDialable :
    (j : Option Json) (raw : Text) (s : ParsedServer)
    → from_json j raw ≡ parsed s
    → IsDialable raw s
unfolding from_json
from_json-IsDialable none raw s h = cc h
from_json-IsDialable (some null) raw s h = cc h
from_json-IsDialable (some (bool b)) raw s h = cc h
from_json-IsDialable (some (num n)) raw s h = cc h
from_json-IsDialable (some (str t)) raw s h = cc h
from_json-IsDialable (some (arr js)) raw s h = cc h
from_json-IsDialable (some (obj fs)) raw s h = or_mistyped-IsDialable (vmess_fields fs) raw s h

or_refused-some :
    (o : Option ParsedServer) (s : ParsedServer) → or_refused o ≡ parsed s → o ≡ some s
or_refused-some none s h = cc h
or_refused-some (some t) s h = ap some (parsed_same h)

parse_vmess-IsDialable :
    (after_scheme raw : Text) (s : ParsedServer)
    → parse_vmess after_scheme raw ≡ parsed s
    → IsDialable raw s
unfolding parse_vmess
parse_vmess-IsDialable after_scheme raw s h =
    from_json-IsDialable (parse (base64_to_string (cut_first b'#' after_scheme).0)) raw s h

-- The branches of a test, each by what it gives.
branches :
    (b : Bool) (p q : Parsed) (s : ParsedServer) {C : Type 0}
    → (p ≡ parsed s → C)
    → (q ≡ parsed s → C)
    → (if b then p else q) ≡ parsed s
    → C
branches true p q s f g h = f h
branches false p q s f g h = g h

parse_scheme-IsDialable :
    (scheme after_scheme raw : Text) (s : ParsedServer)
    → parse_scheme scheme after_scheme raw ≡ parsed s
    → IsDialable raw s
unfolding parse_scheme
parse_scheme-IsDialable scheme after_scheme raw s =
    branches (text_eq scheme (codes "vless")) _ _ s
      (λ h. parse-IsDialable after_scheme raw s (inl (or_refused-some _ s h)))
      (branches (text_eq scheme (codes "trojan")) _ _ s
        (λ h. parse-IsDialable after_scheme raw s (inr (inl (or_refused-some _ s h))))
        (branches (text_eq scheme (codes "vmess")) _ _ s (parse_vmess-IsDialable after_scheme raw s)
          (branches (text_eq scheme (codes "ss")) _ _ s
            (λ h. parse-IsDialable after_scheme raw s (inr (inr (or_refused-some _ s h))))
            (λ h. cc h))))

parse_share_link-IsDialable :
    (uri : Text) (s : ParsedServer) → parse_share_link uri ≡ parsed s → IsDialable (trim uri) s
unfolding parse_share_link
parse_share_link-IsDialable uri s h = elim (Option-cases (cut_scheme (trim uri))) [
  | inl nothing ↦ cc (rw (nothing, parse_share_link) at h)
  | inr (cut, found) ↦
      parse_scheme-IsDialable (lower cut.0) cut.1 (trim uri) s (rw (found, parse_share_link) at h)
]

-- The servers of the links: every link is either refused or gives the next server, which is the one
-- that the parser of links makes of it and is dialable.
pub data AreServers : List Text → List ParsedServer → Type 0 where
  done : AreServers [] []
  skipped :
      {link : Text} {links : List Text} {servers : List ParsedServer}
      → parse_share_link link ≡ refused
      → AreServers links servers
      → AreServers (link ∷ links) servers
  kept :
      {link : Text} {links : List Text} {s : ParsedServer} {servers : List ParsedServer}
      → parse_share_link link ≡ parsed s
      → IsDialable (trim link) s
      → AreServers links servers
      → AreServers (link ∷ links) (s ∷ servers)

bound-cons :
    (o : Option (List ParsedServer)) (s : ParsedServer) (servers : List ParsedServer)
    → o >>= (λ rest. some (s ∷ rest)) ≡ some servers
    → (rest : List ParsedServer) × ((o ≡ some rest) × (servers ≡ s ∷ rest))
bound-cons none s servers h = cc h
bound-cons (some rest) s servers h = (rest, (refl, cc h))

servers_of-AreServers :
    (links : List Text) (servers : List ParsedServer)
    → servers_of links ≡ some servers
    → AreServers links servers
unfolding servers_of
servers_of-AreServers [] servers h = let e : servers ≡ [] = cc h in rw e done
servers_of-AreServers (link ∷ links) servers h = elim (Parsed-cases (parse_share_link link)) [
  | inl (s, found) ↦
      let (rest, (e, same)) =
        bound-cons (servers_of links) s servers (rw (found, servers_of) at h) in
      rw same
        (kept found (parse_share_link-IsDialable link s found) (servers_of-AreServers links rest e))
  | inr (inl skip) ↦ skipped skip (servers_of-AreServers links servers (rw (skip, servers_of) at h))
  | inr (inr other) ↦ cc (rw (other, servers_of) at h)
]

-- When `parseSubscription` returns, so when no `vmess` link has a field of another type than the
-- parser reads: the servers come in the order of the links, the lines that are not empty; a link gives
-- exactly the server that `parseShareLink` makes of it, which has an address, a port that is not 0, a
-- name, a network, a security and the trimmed link as `raw`, or `parseShareLink` refuses it.
pub parse_subscription-AreServers :
    (payload : Text) (servers : List ParsedServer)
    → parse_subscription payload ≡ some servers
    → AreServers (links_of (split_lines (payload_text payload))) servers
unfolding parse_subscription
parse_subscription-AreServers payload servers h =
    servers_of-AreServers (links_of (split_lines (payload_text payload))) servers h
