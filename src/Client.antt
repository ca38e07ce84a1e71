-- ===== src/Client.antt =====
-- src/client.ts: `XrayClient` over the native object. The operations that take the lock run one after
-- the other, as `Lock` shows; each is an action on the client's variables, and what comes between its
-- parts is in the interludes of its awaited calls.
pub mod Engine
pub mod Sessions
pub mod Connection
pub mod Operations
pub mod Hooked
pub mod Keeps
pub mod Hook
pub mod Totals
pub mod Calls
pub mod Shown
pub mod Servers
pub mod Recalled
pub mod Fetch
mod Tests
use react_native_nitro_xray.Prelude.{
  [], Bool, List, Option, Text, codes, false, if◌then◌else◌, none, not, or_default, some, true,
  truthy, ℕ,
}
use react_native_nitro_xray.Json.{Json, Number}
use react_native_nitro_xray.Json.Print.{stringify}
use react_native_nitro_xray.Json.Parse.{parse}
use react_native_nitro_xray.Errors.{
  Thrown, XrayErrorCode, to_xray_error, xray, error, engine_start_failed, olcrtc_start_failed,
  stats_unavailable, permission_denied,
}
use react_native_nitro_xray.Stats.{TrafficStats}
use react_native_nitro_xray.Subscription.Types.{ParsedServer}
use react_native_nitro_xray.Config.Settings.{OlcrtcChainOptions}
use react_native_nitro_xray.Config.Build.{
  BuildConfigOptions, build_xray_config, build_olcrtc_tunnel_config,
}
use react_native_nitro_xray.Versions.Generator.{CoreVersions}
use react_native_nitro_xray.Native.{add_state_listener, unsubscribe}
use react_native_nitro_xray.Client.Connection.{
  ConnectionInfo, info_json, server_meta, olcrtc_meta, config_json, OlcrtcOnlyOptions,
  tunnel_options, at_most_zero, direct, olcrtc_chained, olcrtc_only,
}
use react_native_nitro_xray.Client.Engine.{
  gets, Async, OlcrtcClientConfig, NotificationConfig, returned, Interlude, NitroXrayCore, World,
  Action, pure, raise, attempt, ◌>>=◌, ◌>>◌, modify, app, listener_eq,
}
use react_native_nitro_xray.Client.Sessions.{
  ensure_session_state_hook, reset_traffic_sessions, update_session, call, await, interludes,
}

-- `throw toXrayError(e, code)`
abbrev pub rethrow : {N A : Type 0} → XrayErrorCode → Thrown → Action N A
rethrow code e = raise (xray (to_xray_error e code))

abbrev pub ignore : {N : Type 0} → Action N (Unit {0}) → Action N (Unit {0})
ignore m = attempt m λ e. pure tt

module _ {N : Type 0} (core : NitroXrayCore N) where
  unfoldable pub persist_connection_info : ConnectionInfo → Action N (Unit {0})
  persist_connection_info info =
      ignore (call (core.set_connection_info (stringify (info_json info))))

  unfoldable pub clear_connection_info : Action N (Unit {0})
  clear_connection_info = ignore (call (core.set_connection_info []))

  -- `if (!NitroXrayCore.isVpnConnected()) resetTrafficSessions()`
  unfoldable pub reset_if_down : Action N (Unit {0})
  reset_if_down = do
    up ← call core.is_vpn_connected
    modify λ w. if up then w else reset_traffic_sessions w

  -- `try { await startXray(..) } catch (e) { throw toXrayError(e, 'ENGINE_START_FAILED') }`
  unfoldable pub start_engine : Text → Action N (Unit {0})
  start_engine config = attempt (await (core.start_xray config)) (rethrow engine_start_failed)

  -- The first block of `connect`: `isOlcrtcRunning` is asked only without the olcrtc option.
  unfoldable pub stop_if : Bool → Action N (Unit {0})
  stop_if true = ignore (await core.stop_olcrtc)
  stop_if false = pure tt

  unfoldable pub stop_unused_olcrtc : Option OlcrtcChainOptions → Action N (Unit {0})
  stop_unused_olcrtc (some chain) = pure tt
  stop_unused_olcrtc none = call core.is_olcrtc_running >>= stop_if

  -- What `connect` stores, with the armed side-channel where the options chain through it.
  unfoldable pub connect_info : ParsedServer → Option OlcrtcChainOptions → World N → ConnectionInfo
  connect_info server none w = record {
    mode = direct;
    server = some (server_meta server);
    olcrtc = none;
    label = none;
  }
  connect_info server (some chain) w = record {
    mode = olcrtc_chained;
    server = some (server_meta server);
    olcrtc = olcrtc_meta w.armed_olcrtc;
    label = none;
  }

  unfoldable pub connect : ParsedServer → BuildConfigOptions → Action N (Unit {0})
  connect server options = do
    stop_unused_olcrtc options.olcrtc
    modify ensure_session_state_hook
    reset_if_down
    info ← gets (connect_info server options.olcrtc)
    persist_connection_info info
    start_engine (stringify (build_xray_config server options))

  unfoldable pub start_raw : Text → Action N (Unit {0})
  start_raw config = do
    modify ensure_session_state_hook
    reset_if_down
    clear_connection_info
    start_engine config

  unfoldable pub disconnect : Action N (Unit {0})
  disconnect = do await core.stop_xray; modify reset_traffic_sessions; clear_connection_info

  unfoldable pub set_quick_connect_enabled : Bool → Action N (Unit {0})
  set_quick_connect_enabled enabled = ignore (call (core.set_quick_connect_enabled enabled))

  unfoldable pub is_quick_connect_ready : Action N Bool
  is_quick_connect_ready = attempt (call core.is_quick_connect_ready) λ e. pure false

  -- A native build without the method has stored nothing.
  unfoldable pub clear_with : Option (Async N (Unit {0})) → Action N (Unit {0})
  clear_with none = pure tt
  clear_with (some clear) = do modify λ w. record w { armed_olcrtc = none }; await clear

  unfoldable pub clear_stored_config : Action N (Unit {0})
  clear_stored_config = clear_with core.clear_stored_config

  -- `trafficSession(tag).update(raw)`
  unfoldable pub show_totals : Text → TrafficStats → Action N TrafficStats
  show_totals tag raw w =
      let (sessions, shown) = update_session tag raw w.traffic_sessions in
      (returned shown, record w { traffic_sessions = sessions })

  unfoldable pub stats : Text → Action N TrafficStats
  stats tag = do
    modify ensure_session_state_hook
    raw ← attempt (await (core.get_stats tag)) (rethrow stats_unavailable)
    show_totals tag raw

  unfoldable pub stats_raw : Text → Action N TrafficStats
  stats_raw tag = attempt (await (core.get_stats tag)) (rethrow stats_unavailable)

  unfoldable pub version : Action N Text
  version = attempt (call core.get_version) λ e. pure []

  -- `JSON.parse(raw)`, which a cast takes for a `ConnectionInfo`.
  unfoldable pub current_connection : Action N (Option Json)
  current_connection = do
    raw ← call core.get_connection_info
    pure (elim (truthy (some raw)) [ none ↦ none | some text ↦ parse text ])

  -- The constant `CORE_VERSIONS` is the first argument, since its file is generated.
  unfoldable pub core_versions : CoreVersions → Action N CoreVersions
  core_versions constant = do
    shown ← version
    pure (record constant { xray = or_default (truthy (some shown)) constant.xray })

  -- The first argument of the two below: what runs while the operation waits for the lock.
  unfoldable pub start_olcrtc : List Interlude → OlcrtcClientConfig → Action N (Unit {0})
  start_olcrtc waiting config = do
    modify λ w. interludes waiting (record w { armed_olcrtc = some config })
    attempt (await (core.start_olcrtc (stringify (config_json config))))
        (rethrow olcrtc_start_failed)

  unfoldable pub stop_olcrtc : List Interlude → Action N (Unit {0})
  stop_olcrtc waiting = do
    modify λ w. interludes waiting (record w { armed_olcrtc = none })
    await core.stop_olcrtc

  unfoldable pub only_info : OlcrtcOnlyOptions → World N → ConnectionInfo
  only_info options w = record {
    mode = olcrtc_only;
    server = none;
    olcrtc = olcrtc_meta w.armed_olcrtc;
    label = options.label;
  }

  -- `connectOlcrtcOnly` behind its test of the port.
  unfoldable pub connect_through : Bool → Number → OlcrtcOnlyOptions → Action N (Unit {0})
  connect_through true port options =
      raise (error (codes "olcrtc is not running — call startOlcrtc() first"))
  connect_through false port options = do
    modify ensure_session_state_hook
    reset_if_down
    info ← gets (only_info options)
    persist_connection_info info
    start_engine (stringify (build_olcrtc_tunnel_config (tunnel_options port options)))

  unfoldable pub connect_olcrtc_only : OlcrtcOnlyOptions → Action N (Unit {0})
  connect_olcrtc_only options = do
    port ← call core.get_olcrtc_socks_port
    connect_through (at_most_zero port) port options

  unfoldable pub request_unless : Bool → Action N (Unit {0})
  request_unless true = pure tt
  request_unless false = attempt (await core.request_vpn_permission) (rethrow permission_denied)

  unfoldable pub ensure_permission : Action N (Unit {0})
  ensure_permission = await core.has_vpn_permission >>= request_unless

  unfoldable pub set_kill_switch : Bool → Action N (Unit {0})
  set_kill_switch enabled = await (core.set_kill_switch enabled)

  unfoldable pub set_notification_config : NotificationConfig → Action N (Unit {0})
  set_notification_config config = call (core.set_notification_config config)

  unfoldable pub set_vpn_name : Text → Action N (Unit {0})
  set_vpn_name name = call (core.set_vpn_name name)

  unfoldable pub is_connected : Action N Bool
  is_connected = call core.is_vpn_connected

  unfoldable pub is_engine_running : Action N Bool
  is_engine_running = call core.is_engine_running

  unfoldable pub is_kill_switch_enabled : Action N Bool
  is_kill_switch_enabled = call core.is_kill_switch_enabled

  unfoldable pub get_olcrtc_socks_port : Action N Number
  get_olcrtc_socks_port = call core.get_olcrtc_socks_port

  unfoldable pub is_olcrtc_running : Action N Bool
  is_olcrtc_running = call core.is_olcrtc_running

  unfoldable pub request_notification_permission : Action N Bool
  request_notification_permission = await core.request_notification_permission

-- The app's subscription, and the function that it gets back.
unfoldable pub on_state_change : {N : Type 0} → ℕ → World N → World N
on_state_change i w = record w { listeners = add_state_listener (app i) w.listeners }

unfoldable pub off_state_change : {N : Type 0} → ℕ → World N → World N
off_state_change i w = record w { listeners = unsubscribe (app i) w.listeners }
