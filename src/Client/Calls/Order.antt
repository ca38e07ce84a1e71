-- ===== src/Client/Calls/Order.antt =====
-- What the operations of src/client.ts tell the native object to do, in which order.
use react_native_nitro_xray.Prelude.{
  eqb_iff, or_default, Bool, Bool-cases, List, Option, Text, [], ap, append_assoc, codes, false,
  inl, inr, none, refl, some, sym, true, ◌++◌, ◌∙◌, ◌∷◌, ◌≡◌, ◌⊎◌,
}
use react_native_nitro_xray.Client.Engine.{
  NitroXrayCore, World, Outcome, returned, thrown, Action, continued, ◌>>=◌, ◌>>◌, modify, gets,
}
use react_native_nitro_xray.Client.Sessions.{ensure_session_state_hook, call}
use react_native_nitro_xray.Client.Calls.{Command, Noted, noted, Answers, xray_started, info_stored}
use react_native_nitro_xray.Client.Calls.Parts.{
  stored, asked, stopped, EndsWith-native, after, hook-reset, store-start, stops_first,
  stop_unused-parts, connect_info-armed, EndsWith, EndsAsStart,
}
use react_native_nitro_xray.Client.{
  connect, connect_info, stop_unused_olcrtc, reset_if_down, persist_connection_info,
  clear_connection_info, start_engine, start_raw, connect_olcrtc_only, connect_through, only_info,
}
use react_native_nitro_xray.Client.Connection.{
  info_json, OlcrtcOnlyOptions, at_most_zero, tunnel_options,
}
use react_native_nitro_xray.Config.Build.{
  BuildConfigOptions, build_xray_config, build_olcrtc_tunnel_config,
}
use react_native_nitro_xray.Config.Settings.{OlcrtcChainOptions}
use react_native_nitro_xray.Subscription.Types.{ParsedServer}
use react_native_nitro_xray.Json.{Number, nan, infinite, decimal}
use react_native_nitro_xray.Config.Chain.{hop_of, tunnel-target}
use react_native_nitro_xray.Json.Print.{stringify}
use react_native_nitro_xray.Errors.{Thrown, error}

module _ {N : Type 0} (core : NitroXrayCore N) where
  -- What `connect` has to tell the native object.
  abbrev pub connect_order :
      ParsedServer → BuildConfigOptions → Bool → World (Noted N) → List Command
  connect_order server options running w =
      stops_first core options.olcrtc running
      ++ info_stored (stringify (info_json (connect_info (noted core) server options.olcrtc w)))
        ∷ xray_started (stringify (build_xray_config server options))
        ∷ []

  -- `connect` from the hook on.
  abbrev after_stop : ParsedServer → Option OlcrtcChainOptions → Text → Action (Noted N) (Unit {0})
  after_stop server chain config = do
    modify ensure_session_state_hook
    reset_if_down (noted core)
    info ← gets (connect_info (noted core) server chain)
    persist_connection_info (noted core) info
    start_engine (noted core) config

  after_stop-parts :
      (server : ParsedServer) (chain : Option OlcrtcChainOptions) (config : Text)
      (w : World (Noted N))
      → Answers core
      → EndsWith core
          (stringify (info_json (connect_info (noted core) server chain w)))
          config
          (asked core w.native.0)
          w.native.1
          (after_stop server chain config w)
  unfolding persist_connection_info
  after_stop-parts server chain config w answers =
      hook-reset core _ w _ config answers
        λ v h. rw (sym (connect_info-armed core server chain v w h)) (store-start core _ config v)

  -- The text that is stored, and the native object when the engine is started.
  abbrev stored_text : ParsedServer → Option OlcrtcChainOptions → World (Noted N) → Text
  stored_text server chain w = stringify (info_json (connect_info (noted core) server chain w))

  abbrev pub reached : ParsedServer → Option OlcrtcChainOptions → Bool → World (Noted N) → N
  reached server chain running w =
      stored core (stringify (info_json (connect_info (noted core) server chain w)))
        (asked core (stopped core chain running w.native.0))

  stop-then :
      (server : ParsedServer) (chain : Option OlcrtcChainOptions) (config : Text) (running : Bool)
      (w : World (Noted N))
      → Answers core
      → (core.is_olcrtc_running w.native.0).0 ≡ returned running
      → let (r, v) = (stop_unused_olcrtc (noted core) chain >> after_stop server chain config) w in
        EndsAsStart core config (reached server chain running w) r
        × (v.native.1
            ≡ w.native.1
              ++ (stops_first core chain running
                  ++ info_stored (stored_text server chain w) ∷ xray_started config ∷ []))
  unfolding stop_unused_olcrtc connect_info
  stop-then server (some chain) config running w answers h =
      after_stop-parts server (some chain) config w answers
  stop-then server none config running w answers h =
      let stops = stop_unused-parts core running w h in
      let v = (stop_unused_olcrtc (noted core) none w).1 in
      let info = stored_text server none w in
      let ended =
        EndsWith-native core info config (after_stop server none config v)
          (ap (λ (n : Noted N). (asked core n.0, n.1)) stops.1)
          (after_stop-parts server none config v answers) in
      rw (after (stop_unused_olcrtc (noted core) none) (after_stop server none config) w stops.0) (
        ended.0,
        ended.1
            ∙ append_assoc w.native.1 (stops_first core none running)
                (info_stored info ∷ xray_started config ∷ []),
      )

  -- When the questions about the tunnel and the side-channel are answered, `connect` gives the native
  -- object these commands and no other: to stop the side-channel if the options have no `olcrtc` and it
  -- runs, then to store the connection, then to start the engine, also when the stop or the store fail.
  -- It ends as that start ends in the state that the native object then has, a rejection as an
  -- `XrayError`. The subscription of a state callback is not among the commands.
  pub connect-commands :
      (server : ParsedServer) (options : BuildConfigOptions) (running : Bool) (w : World (Noted N))
      → Answers core
      → (core.is_olcrtc_running w.native.0).0 ≡ returned running
      → let (r, v) = connect (noted core) server options w in
        EndsAsStart core
          (stringify (build_xray_config server options))
          (reached server options.olcrtc running w)
          r
        × (v.native.1 ≡ w.native.1 ++ connect_order server options running w)
  unfolding connect
  connect-commands server options running w answers h =
      stop-then server options.olcrtc (stringify (build_xray_config server options)) running w
        answers h

  -- `connectOlcrtcOnly` with a port of which it knows whether it is 0 or less.
  through-parts :
      (port : Number) (options : OlcrtcOnlyOptions) (w : World (Noted N))
      → Answers core
      → EndsWith core
          (stringify (info_json (only_info (noted core) options w)))
          (stringify (build_olcrtc_tunnel_config (tunnel_options port options)))
          (asked core w.native.0)
          w.native.1
          (connect_through (noted core) false port options w)
  unfolding connect_through persist_connection_info only_info
  through-parts port options w answers =
      hook-reset core _ w _ _ answers λ v h. rw (sym h) (store-start core _ _ v)

  -- The text of the error that `connectOlcrtcOnly` throws.
  abbrev not_running : Thrown
  not_running = error (codes "olcrtc is not running — call startOlcrtc() first")

  -- The number is 0 or less.
  abbrev pub IsDown : Number → Type 0
  IsDown nan = ⊥
  IsDown (infinite negative) = negative ≡ true
  IsDown (decimal negative m places) = (negative ≡ true) ⊎ (m ≡ 0)

  at_most_zero-IsDown : (port : Number) → at_most_zero port ≡ true → IsDown port
  at_most_zero-IsDown nan h = cc h
  at_most_zero-IsDown (infinite negative) h = h
  at_most_zero-IsDown (decimal true m places) h = inl refl
  at_most_zero-IsDown (decimal false m places) h = inr ((eqb_iff m 0).0 h)

  IsDown-at_most_zero : (port : Number) → IsDown port → at_most_zero port ≡ true
  IsDown-at_most_zero nan h = absurd h
  IsDown-at_most_zero (infinite negative) h = h
  IsDown-at_most_zero (decimal true m places) h = refl
  IsDown-at_most_zero (decimal false m places) (inl h) = cc h
  IsDown-at_most_zero (decimal false m places) (inr h) = (eqb_iff m 0).1 h

  -- How `connectOlcrtcOnly` ends, by the port it gets, from a native object in the state `n` and with
  -- the commands `log`.
  abbrev pub EndsThrough :
      Number
      → OlcrtcOnlyOptions
      → N
      → World (Noted N)
      → Outcome (Unit {0}) × World (Noted N)
      → Type 0
  EndsThrough port options n w (r, v) =
      let config = build_olcrtc_tunnel_config (tunnel_options port options) in
      (IsDown port
        × ((r ≡ thrown not_running)
            × ((v.native.1 ≡ w.native.1) × (v.traffic_sessions ≡ w.traffic_sessions))))
      ⊎ ((¬ IsDown port)
          × (EndsWith core (stringify (info_json (only_info (noted core) options w)))
                (stringify config) (asked core n) w.native.1 (r, v)
              × (hop_of (or_default options.proxy_tag (codes "proxy")) config
                  ≡ some (codes "127.0.0.1", port))))

  through-ends :
      (port : Number) (options : OlcrtcOnlyOptions) (w : World (Noted N))
      → Answers core
      → EndsThrough port options w.native.0 w
          (connect_through (noted core) (at_most_zero port) port options w)
  unfolding connect_through
  through-ends port options w answers = elim (Bool-cases (at_most_zero port)) [
    | inl down ↦ rw down (inl (at_most_zero-IsDown port down, (refl, (refl, refl))))
    | inr up ↦ rw up (
        inr (
          λ down. cc (up, IsDown-at_most_zero port down),
          (through-parts port options w answers, tunnel-target (tunnel_options port options)),
        ))
  ]

  asked-through :
      (r : Outcome Number) (port : Number) (options : OlcrtcOnlyOptions) (w : World (Noted N))
      → Answers core
      → r ≡ returned port
      → EndsThrough port options w.native.0 w
          (continued (λ p. connect_through (noted core) (at_most_zero p) p options) r w)
  asked-through r port options w answers h = rw h (through-ends port options w answers)

  -- When the side-channel reports a port of 0 or less, `connectOlcrtcOnly` rejects, gives the native
  -- object no command and leaves the traffic sessions. With any other port it gives these commands and
  -- no other: to store the connection, then to start the engine with a configuration whose first
  -- outbound with the proxy tag is a socks hop to that port of 127.0.0.1; and it ends as that start
  -- ends in the state that the native object then has. The subscription of a state callback is not
  -- among the commands.
  pub connect_olcrtc_only-commands :
      (options : OlcrtcOnlyOptions) (port : Number) (w : World (Noted N))
      → Answers core
      → (core.get_olcrtc_socks_port w.native.0).0 ≡ returned port
      → EndsThrough port options
          (core.get_olcrtc_socks_port w.native.0).1
          w
          (connect_olcrtc_only (noted core) options w)
  unfolding connect_olcrtc_only call only_info
  connect_olcrtc_only-commands options port w answers h =
      asked-through (core.get_olcrtc_socks_port w.native.0).0 port options
        (record w { native = ((core.get_olcrtc_socks_port w.native.0).1, w.native.1) }) answers h

  -- When the question about the tunnel is answered, `startRaw` gives the native object these commands
  -- and no other: to store the empty text as the connection, then to start the engine with the text as
  -- it is. It ends as that start ends in the state that the native object then has. The subscription of
  -- a state callback is not among the commands.
  pub start_raw-commands :
      (config : Text) (w : World (Noted N))
      → Answers core
      → EndsWith core [] config (asked core w.native.0) w.native.1 (start_raw (noted core) config w)
  unfolding start_raw clear_connection_info
  start_raw-commands config w answers =
      hook-reset core _ w _ _ answers λ v h. store-start core _ _ v
