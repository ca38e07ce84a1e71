-- ===== src/Client/Keeps.antt =====
-- What every part of an operation keeps, the operations of src/client.ts keep.
use react_native_nitro_xray.Config.Settings.{OlcrtcChainOptions}
use react_native_nitro_xray.Json.Print.{stringify}
use react_native_nitro_xray.Prelude.{
  Bool, List, Option, Text, [], false, none, some, true, ℕ, ◌∷◌, ◌≡◌,
}
use react_native_nitro_xray.Json.{Number}
use react_native_nitro_xray.Stats.{TrafficStats}
use react_native_nitro_xray.Subscription.Types.{ParsedServer}
use react_native_nitro_xray.Config.Build.{
  BuildConfigOptions, build_xray_config, build_olcrtc_tunnel_config,
}
use react_native_nitro_xray.Errors.{
  Thrown, engine_start_failed, olcrtc_start_failed, stats_unavailable, permission_denied,
}
use react_native_nitro_xray.Client.{
  rethrow, ignore, persist_connection_info, clear_connection_info, reset_if_down, start_engine,
  stop_unused_olcrtc, connect, start_raw, disconnect, stats, start_olcrtc, stop_olcrtc,
  connect_olcrtc_only, ensure_permission, clear_stored_config, set_kill_switch, on_state_change,
  off_state_change, engine_start_failed, stop_if, OlcrtcChainOptions, gets, connect_info,
  connect_through, olcrtc_start_failed, clear_with, request_unless, only_info, permission_denied,
  show_totals, reset_traffic_sessions,
}
use react_native_nitro_xray.Client.Connection.{
  OlcrtcOnlyOptions, ConnectionInfo, at_most_zero, config_json, tunnel_options,
}
use react_native_nitro_xray.Client.Engine.{
  OlcrtcClientConfig, Outcome, returned, thrown, Interlude, NitroXrayCore, World, Action, attempt,
  caught, continued, ◌>>=◌, ◌>>◌, modify, Sync, Async, gets,
}
use react_native_nitro_xray.Client.Sessions.{
  ensure_session_state_hook, update_session, call, await, interlude, interludes,
}
use react_native_nitro_xray.Client.Operations.{
  Operation, is_disconnect, perform, connects, starts_raw, connects_olcrtc_only, disconnects,
  asks_stats, starts_olcrtc, stops_olcrtc, clears_stored_config, sets_kill_switch,
  ensures_permission, subscribes, unsubscribes, meanwhile,
}
use react_native_nitro_xray.Client.Hooked.{hook-registered, await-hooked, rethrow-hooked}

module _ {N : Type 0} (core : NitroXrayCore N) where
  -- A preorder on the client's variables that the steps of the operations keep, the native state and
  -- the armed configuration aside.
  pub record IsKept (R : World N → World N → Type 0) : Type 0 where
    pub same : (w : World N) → R w w
    pub chain : (u v w : World N) → R u v → R v w → R u w
    pub native_changes : (w : World N) (n : N) → R w (record w { native = n })
    pub armed_changes :
        (w : World N) (config : Option OlcrtcClientConfig)
        → R w (record w { armed_olcrtc = config })
    pub hooks : (w : World N) → R w (ensure_session_state_hook w)
    pub updates :
        (w : World N) (tag : Text) (raw : TrafficStats)
        → w.session_state_hook_registered ≡ true
        → R w (record w { traffic_sessions = (update_session tag raw w.traffic_sessions).0 })
    pub interludes_keep : (i : Interlude) (w : World N) → R w (interlude i w)
    pub resets : (w : World N) → R w (reset_if_down core w).1
    pub subscriptions :
        (i : ℕ) (w : World N) → R w (on_state_change i w) × R w (off_state_change i w)

  module _ (R : World N → World N → Type 0) (k : IsKept R) where
    record Keeps {A : Type 0} (m : Action N A) : Type 0 where
      at : (w : World N) → R w (m w).1

    continued-R :
        {A B : Type 0} (r : Outcome A) (f : A → Action N B) (u v : World N)
        → R u v
        → ((a : A) → Keeps (f a))
        → R u (continued f r v).1
    continued-R (returned a) f u v h j = k.chain u v (f a v).1 h ((j a).at v)
    continued-R (thrown e) f u v h j = h

    caught-R :
        {A : Type 0} (r : Outcome A) (c : Thrown → Action N A) (u v : World N)
        → R u v
        → ((e : Thrown) → Keeps (c e))
        → R u (caught c r v).1
    caught-R (returned a) c u v h j = h
    caught-R (thrown e) c u v h j = k.chain u v (c e v).1 h ((j e).at v)

    >>=-Keeps :
        {A B : Type 0} (m : Action N A) (f : A → Action N B)
        → Keeps m
        → ((a : A) → Keeps (f a))
        → Keeps (m >>= f)
    >>=-Keeps m f h j = record { at = λ w. continued-R (m w).0 f w (m w).1 (h.at w) j }

    attempt-Keeps :
        {A : Type 0} (m : Action N A) (c : Thrown → Action N A)
        → Keeps m
        → ((e : Thrown) → Keeps (c e))
        → Keeps (attempt m c)
    attempt-Keeps m c h j = record { at = λ w. caught-R (m w).0 c w (m w).1 (h.at w) j }

    interludes-kept : (is : List Interlude) (w : World N) → R w (interludes is w)
    unfolding interludes
    interludes-kept [] w = k.same w
    interludes-kept (i ∷ is) w =
        k.chain w (interlude i w) (interludes is (interlude i w)) (k.interludes_keep i w)
          (interludes-kept is (interlude i w))

    call-Keeps : {A : Type 0} (f : Sync N A) → Keeps (call f)
    unfolding call
    call-Keeps f = record { at = λ w. k.native_changes w (f w.native).1 }

    await-Keeps : {A : Type 0} (f : Async N A) → Keeps (await f)
    unfolding await
    await-Keeps f = record {
      at = λ w.
          let n = (f w.native).1 in
          k.chain w (record w { native = n })
            (interludes (f w.native).0.1 (record w { native = n })) (k.native_changes w n)
            (interludes-kept (f w.native).0.1 (record w { native = n }));
    }

    steps-Keeps : {A : Type 0} (a : Outcome A) → Keeps (λ w. (a, w))
    steps-Keeps a = record { at = k.same }

    ignore-Keeps : (m : Action N (Unit {0})) → Keeps m → Keeps (ignore m)
    ignore-Keeps m h = attempt-Keeps m _ h (λ e. record { at = k.same })

    start_engine-Keeps : (config : Text) → Keeps (start_engine core config)
    unfolding start_engine
    start_engine-Keeps config =
        attempt-Keeps (await (core.start_xray config)) (rethrow engine_start_failed)
          (await-Keeps (core.start_xray config)) (λ e. record { at = k.same })

    persist-Keeps : (info : ConnectionInfo) → Keeps (persist_connection_info core info)
    unfolding persist_connection_info
    persist-Keeps info = ignore-Keeps _ (call-Keeps (core.set_connection_info _))

    clear-Keeps : Keeps (clear_connection_info core)
    unfolding clear_connection_info
    clear-Keeps = ignore-Keeps _ (call-Keeps (core.set_connection_info []))

    stop_if-Keeps : (running : Bool) → Keeps (stop_if core running)
    unfolding stop_if
    stop_if-Keeps true = ignore-Keeps _ (await-Keeps core.stop_olcrtc)
    stop_if-Keeps false = record { at = k.same }

    stop_unused-Keeps : (chain : Option OlcrtcChainOptions) → Keeps (stop_unused_olcrtc core chain)
    unfolding stop_unused_olcrtc
    stop_unused-Keeps (some chain) = record { at = k.same }
    stop_unused-Keeps none =
        >>=-Keeps (call core.is_olcrtc_running) (stop_if core) (call-Keeps core.is_olcrtc_running)
          stop_if-Keeps

    >>-Keeps :
        {B : Type 0} (m : Action N (Unit {0})) (n : Action N B) → Keeps m → Keeps n → Keeps (m >> n)
    >>-Keeps m n h j = >>=-Keeps m (λ _. n) h (λ _. j)

    gets-Keeps :
        {A B : Type 0} (f : World N → A) (g : A → Action N B)
        → ((a : A) → Keeps (g a))
        → Keeps (gets f >>= g)
    gets-Keeps f g h = >>=-Keeps (gets f) g (record { at = k.same }) h

    connect-Keeps :
        (server : ParsedServer) (options : BuildConfigOptions) → Keeps (connect core server options)
    unfolding connect
    connect-Keeps server options = >>-Keeps _ _ (stop_unused-Keeps options.olcrtc) (
        >>-Keeps (modify ensure_session_state_hook) _ (record { at = k.hooks })
          (>>-Keeps (reset_if_down core) _ (record { at = k.resets })
            (gets-Keeps (connect_info core server options.olcrtc) _ λ info.
              >>-Keeps _ _ (persist-Keeps info)
                (start_engine-Keeps (stringify (build_xray_config server options))))))

    start_raw-Keeps : (config : Text) → Keeps (start_raw core config)
    unfolding start_raw
    start_raw-Keeps config =
        >>-Keeps (modify ensure_session_state_hook) _ (record { at = k.hooks })
          (>>-Keeps (reset_if_down core) _ (record { at = k.resets })
            (>>-Keeps _ _ clear-Keeps (start_engine-Keeps config)))

    connect_through-Keeps :
        (refused : Bool) (port : Number) (options : OlcrtcOnlyOptions)
        → Keeps (connect_through core refused port options)
    unfolding connect_through
    connect_through-Keeps true port options = record { at = k.same }
    connect_through-Keeps false port options =
        >>-Keeps (modify ensure_session_state_hook) _ (record { at = k.hooks })
          (>>-Keeps (reset_if_down core) _ (record { at = k.resets })
            (gets-Keeps (only_info core options) _ λ info. >>-Keeps _ _ (persist-Keeps info) (
              start_engine-Keeps
                (stringify (build_olcrtc_tunnel_config (tunnel_options port options))))))

    connect_olcrtc_only-Keeps :
        (options : OlcrtcOnlyOptions) → Keeps (connect_olcrtc_only core options)
    unfolding connect_olcrtc_only
    connect_olcrtc_only-Keeps options =
        >>=-Keeps _ _ (call-Keeps core.get_olcrtc_socks_port)
          (λ port. connect_through-Keeps (at_most_zero port) port options)

    show_totals-R :
        (tag : Text) (r : Outcome TrafficStats) (v u : World N)
        → R v u
        → u.session_state_hook_registered ≡ true
        → R v (continued (show_totals core tag) r u).1
    unfolding show_totals
    show_totals-R tag (returned raw) v u h hooked =
        k.chain v u (show_totals core tag raw u).1 h (k.updates u tag raw hooked)
    show_totals-R tag (thrown e) v u h hooked = h

    stats-Keeps : (tag : Text) → Keeps (stats core tag)
    unfolding stats
    stats-Keeps tag = record {
      at = λ w.
          let v = ensure_session_state_hook w in
          let ask = attempt (await (core.get_stats tag)) (rethrow stats_unavailable) in
          let kept =
            attempt-Keeps (await (core.get_stats tag)) (rethrow stats_unavailable)
              (await-Keeps (core.get_stats tag)) (λ e. record { at = k.same }) in
          k.chain w v (stats core tag w).1 (k.hooks w) (
            show_totals-R tag (ask v).0 v (ask v).1 (kept.at v) (
              rethrow-hooked (await (core.get_stats tag) v).0 stats_unavailable
                (await (core.get_stats tag) v).1
                (await-hooked (core.get_stats tag) v (hook-registered w))));
    }

    armed-Keeps :
        (waiting : List Interlude) (config : Option OlcrtcClientConfig)
        → Keeps (modify λ w. interludes waiting (record w { armed_olcrtc = config }))
    armed-Keeps waiting config = record {
      at = λ w.
          let v = record w { armed_olcrtc = config } in
          k.chain w v (interludes waiting v) (k.armed_changes w config) (interludes-kept waiting v);
    }

    start_olcrtc-Keeps :
        (waiting : List Interlude) (config : OlcrtcClientConfig)
        → Keeps (start_olcrtc core waiting config)
    unfolding start_olcrtc
    start_olcrtc-Keeps waiting config =
        >>-Keeps (modify λ w. interludes waiting (record w { armed_olcrtc = some config }))
          (attempt (await (core.start_olcrtc (stringify (config_json config))))
            (rethrow olcrtc_start_failed))
          (armed-Keeps waiting (some config))
          (attempt-Keeps (await (core.start_olcrtc (stringify (config_json config))))
            (rethrow olcrtc_start_failed)
            (await-Keeps (core.start_olcrtc (stringify (config_json config))))
            (λ e. record { at = k.same }))

    stop_olcrtc-Keeps : (waiting : List Interlude) → Keeps (stop_olcrtc core waiting)
    unfolding stop_olcrtc
    stop_olcrtc-Keeps waiting =
        >>-Keeps (modify λ w. interludes waiting (record w { armed_olcrtc = none }))
          (await core.stop_olcrtc) (armed-Keeps waiting none) (await-Keeps core.stop_olcrtc)

    clear_with-Keeps : (clear : Option (Async N (Unit {0}))) → Keeps (clear_with core clear)
    unfolding clear_with
    clear_with-Keeps none = record { at = k.same }
    clear_with-Keeps (some clear) =
        >>-Keeps (modify λ w. record w { armed_olcrtc = none }) (await clear)
          (record { at = λ w. k.armed_changes w none }) (await-Keeps clear)

    request_unless-Keeps : (has : Bool) → Keeps (request_unless core has)
    unfolding request_unless
    request_unless-Keeps true = record { at = k.same }
    request_unless-Keeps false =
        attempt-Keeps (await core.request_vpn_permission) (rethrow permission_denied)
          (await-Keeps core.request_vpn_permission) (λ e. record { at = k.same })

    ensure_permission-Keeps : Keeps (ensure_permission core)
    unfolding ensure_permission
    ensure_permission-Keeps =
        >>=-Keeps (await core.has_vpn_permission) (request_unless core)
          (await-Keeps core.has_vpn_permission) request_unless-Keeps

    -- An operation that does not disconnect keeps `R`.
    pub perform-R :
        (op : Operation) (w : World N) → is_disconnect op ≡ false → R w (perform core op w)
    unfolding perform clear_stored_config set_kill_switch
    perform-R (connects server options) w h = (connect-Keeps server options).at w
    perform-R (starts_raw config) w h = (start_raw-Keeps config).at w
    perform-R (connects_olcrtc_only options) w h = (connect_olcrtc_only-Keeps options).at w
    perform-R disconnects w h = cc
    perform-R (asks_stats tag) w h = (stats-Keeps tag).at w
    perform-R (starts_olcrtc waiting config) w h = (start_olcrtc-Keeps waiting config).at w
    perform-R (stops_olcrtc waiting) w h = (stop_olcrtc-Keeps waiting).at w
    perform-R clears_stored_config w h = (clear_with-Keeps core.clear_stored_config).at w
    perform-R (sets_kill_switch enabled) w h = (await-Keeps (core.set_kill_switch enabled)).at w
    perform-R ensures_permission w h = ensure_permission-Keeps.at w
    perform-R (subscribes i) w h = (k.subscriptions i w).0
    perform-R (unsubscribes i) w h = (k.subscriptions i w).1
    perform-R (meanwhile i) w h = k.interludes_keep i w

    -- Disconnecting keeps `R` if resetting the sessions does.
    pub disconnect-R :
        (w : World N) → ((v : World N) → R v (reset_traffic_sessions v)) → R w (disconnect core w).1
    unfolding disconnect
    disconnect-R w resets =
        (>>-Keeps (await core.stop_xray)
            (modify reset_traffic_sessions >> clear_connection_info core)
            (await-Keeps core.stop_xray)
            (>>-Keeps (modify reset_traffic_sessions) (clear_connection_info core)
              (record { at = resets }) clear-Keeps)).at
          w
