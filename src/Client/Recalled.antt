-- ===== src/Client/Recalled.antt =====
-- src/client.ts: what `currentConnection` shows after the calls that store a connection.
pub mod Stored
pub mod Contents
mod Tests
use react_native_nitro_xray.Prelude.{
  codes, ap, or_default, Bool, Option, Text, false, if◌then◌else◌, none, refl, some, sym, text_eq,
  truthy, ℕ, ◌∷◌, ◌≡◌, [],
}
use react_native_nitro_xray.Json.{Json, num, get, find_field, ◌>>=◌}
use react_native_nitro_xray.Config.Reader.{text_at}
use react_native_nitro_xray.Json.RoundTrip.{parse-stringify}
use react_native_nitro_xray.Client.Recalled.Contents.{
  IsConnection, connect_info-stored, stored-IsConnection,
}
use react_native_nitro_xray.Client.Recalled.Stored.{
  Remembers, Recalls, store-start, hook-Recalls, connect-Recalls, only_info-same,
}
use react_native_nitro_xray.Json.Print.{stringify}
use react_native_nitro_xray.Json.Parse.{parse}
use react_native_nitro_xray.Json.Reading.{IsPlain}
use react_native_nitro_xray.Json.Words.Numbers.{IsPlainNumber}
use react_native_nitro_xray.Config.Plain.{plain, opt_str-Plain, IsPlainOption}
use react_native_nitro_xray.Config.Settings.{OlcrtcChainOptions}
use react_native_nitro_xray.Subscription.Types.{
  ParsedServer, ProxyProtocol, protocol_text, vless, vmess, trojan, shadowsocks,
}
use react_native_nitro_xray.Client.Engine.{
  NitroXrayCore, World, Outcome, returned, continued, OlcrtcClientConfig,
}
use react_native_nitro_xray.Client.Sessions.{call}
use react_native_nitro_xray.Client.Connection.{
  direct, olcrtc_chained, mode_text, at_most_zero, ConnectionInfo, info_json, server_meta,
  olcrtc_meta, OlcrtcOnlyOptions,
}
use react_native_nitro_xray.Client.Calls.{Answers}
use react_native_nitro_xray.Client.{
  connect_info, persist_connection_info, only_info, pure, current_connection, connect,
  connect_through, Number, connect_olcrtc_only, BuildConfigOptions, start_raw, build_xray_config,
  clear_connection_info,
}

module _ {N : Type 0} (core : NitroXrayCore N) where
  -- What is recalled is shown.
  shown :
      (r : Outcome Text) (c : ℕ) (s : Text) (j : Json)
      → r ≡ returned (c ∷ s)
      → parse (c ∷ s) ≡ some j
      → (w : World N)
      → (continued
          (λ raw. pure (elim (truthy (some raw)) [ none ↦ none | some text ↦ parse text ]))
          r
          w).0
        ≡ returned (some j)
  shown r c s j h p w = rw (h, p) refl

info_json-Plain :
    (info : ConnectionInfo)
    → IsPlainOption info.server
    → IsPlainOption info.olcrtc
    → IsPlain (info_json info)
unfolding info_json text_eq
info_json-Plain info h k = search (plain, opt_str-Plain info.label, h, k) depth 9

server_meta-Plain :
    (server : ParsedServer) → IsPlainNumber server.port → IsPlain (server_meta server)
unfolding server_meta text_eq IsPlain
server_meta-Plain server h = search plain

olcrtc_meta-Plain : (config : Option OlcrtcClientConfig) → IsPlainOption (olcrtc_meta config)
unfolding olcrtc_meta text_eq IsPlain
olcrtc_meta-Plain none = tt
olcrtc_meta-Plain (some config) = search plain

connect_info-Plain :
    {N : Type 0} (core : NitroXrayCore N) (server : ParsedServer)
    (chain : Option OlcrtcChainOptions) (w : World N)
    → IsPlainNumber server.port
    → IsPlain (info_json (connect_info core server chain w))
unfolding connect_info
connect_info-Plain core server none w h = info_json-Plain _ (server_meta-Plain server h) tt
connect_info-Plain core server (some chain) w h =
    info_json-Plain _ (server_meta-Plain server h) (olcrtc_meta-Plain w.armed_olcrtc)

info-IsConnection :
    {N : Type 0} (core : NitroXrayCore N) (server : ParsedServer)
    (chain : Option OlcrtcChainOptions) (w : World N)
    → IsConnection server chain w.armed_olcrtc (info_json (connect_info core server chain w))
info-IsConnection core server chain w =
    rw (connect_info-stored core server chain w) (stored-IsConnection server chain w.armed_olcrtc)

module _ {N : Type 0} (core : NitroXrayCore N) where
  current-Recalls :
      (info : ConnectionInfo) (w : World N)
      → Recalls core (stringify (info_json info)) w
      → IsPlain (info_json info)
      → (current_connection core w).0 ≡ returned (some (info_json info))
  unfolding current_connection call info_json stringify
  current-Recalls info w h is_plain =
      shown core (core.get_connection_info w.native).0 _ _ (info_json info) h
        (parse-stringify (info_json info) is_plain) _

  -- After `connect`, whether it resolves or rejects, `currentConnection` returns an object with the
  -- mode `direct` or, for a chain, `olcrtc-chained`, with the server's tag, address, port and protocol,
  -- with the carrier, the room and the transport (`vp8channel` by default) of the armed side-channel
  -- for a chain and else with none, and with no label. The port is printed without an exponent and is no -0, the questions about the tunnel and the
  -- side-channel are answered, and the native object returns the text that was stored last, also
  -- behind a start.
  pub current_connection-connect :
      (server : ParsedServer) (options : BuildConfigOptions) (running : Bool) (w : World N)
      → Answers core
      → Remembers core
      → (core.is_olcrtc_running w.native).0 ≡ returned running
      → IsPlainNumber server.port
      → (info : Json) × (((current_connection core (connect core server options w).1).0
            ≡ returned (some info))
          × IsConnection server options.olcrtc w.armed_olcrtc info)
  unfolding connect
  current_connection-connect server options running w answers remembers h is_plain =
      let info = connect_info core server options.olcrtc w in
      let config = stringify (build_xray_config server options) in
      let recalls =
        connect-Recalls core server options.olcrtc config running w answers remembers h in
      (
        info_json info,
        (
          current-Recalls info (connect core server options w).1 recalls
              (connect_info-Plain core server options.olcrtc w is_plain),
          info-IsConnection core server options.olcrtc w,
        ),
      )

  only_info-Plain :
      (options : OlcrtcOnlyOptions) (w : World N) → IsPlain (info_json (only_info core options w))
  unfolding only_info
  only_info-Plain options w = info_json-Plain _ tt (olcrtc_meta-Plain w.armed_olcrtc)

  through-Recalls :
      (port : Number) (options : OlcrtcOnlyOptions) (w : World N)
      → Answers core
      → Remembers core
      → Recalls core
          (stringify (info_json (only_info core options w)))
          (connect_through core false port options w).1
  unfolding connect_through persist_connection_info
  through-Recalls port options w answers remembers = hook-Recalls core _ _ w answers λ v h.
      rw (sym (only_info-same core options v w h))
        (store-start core (stringify (info_json (only_info core options v))) _ v remembers)

  asked-through :
      (r : Outcome Number) (port : Number) (options : OlcrtcOnlyOptions) (w : World N)
      → Answers core
      → Remembers core
      → r ≡ returned port
      → at_most_zero port ≡ false
      → Recalls core
          (stringify (info_json (only_info core options w)))
          (continued (λ p. connect_through core (at_most_zero p) p options) r w).1
  asked-through r port options w answers remembers h up =
      rw (h, up) (through-Recalls port options w answers remembers)

  -- The same for `connectOlcrtcOnly` with a port above 0: the mode, the side-channel and the label.
  pub current_connection-connect_olcrtc_only :
      (options : OlcrtcOnlyOptions) (port : Number) (w : World N)
      → Answers core
      → Remembers core
      → (core.get_olcrtc_socks_port w.native).0 ≡ returned port
      → at_most_zero port ≡ false
      → (current_connection core (connect_olcrtc_only core options w).1).0
        ≡ returned (some (info_json (only_info core options w)))
  unfolding connect_olcrtc_only call only_info
  current_connection-connect_olcrtc_only options port w answers remembers h up =
      current-Recalls (only_info core options w) (connect_olcrtc_only core options w).1
        (asked-through (core.get_olcrtc_socks_port w.native).0 port options
          (record w { native = (core.get_olcrtc_socks_port w.native).1 }) answers remembers h up)
        (only_info-Plain options w)

  empty :
      (r : Outcome Text) (w : World N)
      → r ≡ returned []
      → (continued
          (λ raw. pure (elim (truthy (some raw)) [ none ↦ none | some text ↦ parse text ]))
          r
          w).0
        ≡ returned none
  empty r w h = rw h refl

  -- After `startRaw`, whether it resolves or rejects, `currentConnection` returns null. The question
  -- about the tunnel is answered, and the native object returns the text that was stored last, also
  -- behind a start.
  pub current_connection-start_raw :
      (config : Text) (w : World N)
      → Answers core
      → Remembers core
      → (current_connection core (start_raw core config w).1).0 ≡ returned none
  unfolding current_connection call start_raw clear_connection_info
  current_connection-start_raw config w answers remembers =
      empty _ _ (hook-Recalls core [] _ w answers λ v h. store-start core [] config v remembers)
