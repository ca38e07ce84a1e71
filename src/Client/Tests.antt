-- ===== src/Client/Tests.antt =====
-- Runs of src/client.ts on a native object of four variables, and its theorems there.
use react_native_nitro_xray.Prelude.{
  Bool, List, Text, [], codes, false, if◌then◌else◌, none, refl, some, text_eq, true, ℕ, ◌+◌, ◌∷◌,
  ◌≡◌, ◌⊎◌, ◌≢◌,
}
use react_native_nitro_xray.Json.{nat}
use react_native_nitro_xray.Json.Print.{stringify}
use react_native_nitro_xray.Errors.{Thrown, error}
use react_native_nitro_xray.Stats.Totals.{AtMost}
use react_native_nitro_xray.Stats.{suspend, commit_restart, TrafficStats, update}
use react_native_nitro_xray.Native.{
  add_state_listener, ensure_native_listener, add, has, emit, connecting, connected, disconnected,
}
use react_native_nitro_xray.Config.Build.{no_options, build_xray_config}
use react_native_nitro_xray.Subscription.Types.{trojan, ParsedServer}
use react_native_nitro_xray.Versions.Generator.{CoreVersions, core_versions_of}
use react_native_nitro_xray.Client.Shown.{shown_for, core_versions-filled}
use react_native_nitro_xray.Client.{
  core_versions, on_state_change, connect, disconnect, stats, connect_olcrtc_only, start_raw,
  show_totals, reset_if_down, clear_connection_info, start_engine, on_state_change,
}
use react_native_nitro_xray.Client.Connection.{OlcrtcOnlyOptions}
use react_native_nitro_xray.Client.Engine.{
  NitroXrayCore, World, returned, thrown, changed, Sync, Async,
}
use react_native_nitro_xray.Client.Sessions.{
  await, update_session, interludes, ensure_session_state_hook, hook_unless, call, call_listeners,
  each_session, interlude, on_state,
}
use react_native_nitro_xray.Client.Operations.{
  Operation, performs, starts_raw, asks_stats, subscribes, perform,
}
use react_native_nitro_xray.Client.Hook.{loaded, IsActed, performs-event}
use react_native_nitro_xray.Client.Totals.{StaysUp, stats-AtMost, disconnect-totals}
use react_native_nitro_xray.Client.Totals.Grown.{total_of, nothing}
use react_native_nitro_xray.Client.Calls.{Noted, noted, Answers}
use react_native_nitro_xray.Client.Calls.Parts.{EndsAsStart, EndsWith}
use react_native_nitro_xray.Client.Calls.Order.{
  connect-commands, start_raw-commands, connect_olcrtc_only-commands, connect_order, EndsThrough,
  reached,
}

-- A native object whose tunnel is up, whose side-channel runs or not, and whose counter grows by ten
-- with each reading. Its start rejects the configuration "bad".
record Device : Type 0 where
  running : Bool
  counter : ℕ

abbrev answer : {A : Type 0} → A → Sync Device A
answer a d = (returned a, d)

abbrev promise : {A : Type 0} → A → Async Device A
promise a d = ((returned a, []), d)

abbrev start : Text → Async Device (Unit {0})
start config d =
    if text_eq config (codes "bad")
    then ((thrown (error (codes "ENGINE_START_FAILED|bad json")), []), d)
    else (
      (returned tt, changed connecting [] ∷ changed connected [] ∷ []),
      record { running = d.running; counter = 0 },
    )

abbrev read : Async Device TrafficStats
read d = (
  (returned (record { uplink = d.counter + 10; downlink = 0 }), []),
  record { running = d.running; counter = d.counter + 10 },
)

abbrev device : NitroXrayCore Device
device = record {
  has_vpn_permission = promise true;
  request_vpn_permission = promise tt;
  request_notification_permission = promise true;
  is_vpn_connected = answer true;
  is_engine_running = answer true;
  set_quick_connect_enabled = λ b. answer tt;
  is_quick_connect_ready = answer false;
  clear_stored_config = none;
  get_version = answer (codes "26.3.27");
  start_xray = start;
  stop_xray = λ d. ((returned tt, changed disconnected [] ∷ []), d);
  set_kill_switch = λ b. promise tt;
  is_kill_switch_enabled = answer false;
  get_stats = λ tag. read;
  start_olcrtc = λ config. promise tt;
  stop_olcrtc = λ d. ((returned tt, []), record { running = false; counter = d.counter });
  get_olcrtc_socks_port = answer (nat 8808);
  is_olcrtc_running = λ d. (returned d.running, d);
  set_notification_config = λ c. answer tt;
  set_vpn_name = λ name. answer tt;
  set_connection_info = λ info. answer tt;
  get_connection_info = answer [];
}

abbrev off : Device
off = record { running = true; counter = 0 }

abbrev proxy : Text
proxy = codes "proxy"

abbrev raw : Text
raw = codes "{}"

-- A start, a reading, a restart and a reading, with a subscription of the app between.
abbrev switching : List Operation
switching = subscribes 1 ∷ starts_raw raw ∷ asks_stats proxy ∷ starts_raw raw ∷ []

performs-event_example : IsActed device connecting [] (performs device switching (loaded off))
performs-event_example = performs-event device off switching connecting []

device-StaysUp : StaysUp device
unfolding StaysUp
device-StaysUp d h = cc h

abbrev counts : ℕ → TrafficStats
counts n = record { uplink = n; downlink = 0 }

abbrev started : World Device
started = performs device (subscribes 1 ∷ starts_raw raw ∷ []) (loaded off)

abbrev restart : List Operation
restart = starts_raw raw ∷ []

first_reading : (stats device proxy started).0 ≡ returned (counts 10)
unfolding stats await show_totals update_session interludes ensure_session_state_hook hook_unless
    performs perform start_raw reset_if_down call clear_connection_info start_engine text_eq
    interlude on_state_change add_state_listener ensure_native_listener add has emit call_listeners
    on_state each_session suspend commit_restart update total_of
first_reading = refl

-- The second start made the engine count from 0 again, and the totals go on.
second_reading :
    (stats device proxy (performs device restart (stats device proxy started).1)).0
    ≡ returned (counts 20)
unfolding stats await show_totals update_session interludes ensure_session_state_hook hook_unless
    performs perform start_raw reset_if_down call clear_connection_info start_engine text_eq
    interlude on_state_change add_state_listener ensure_native_listener add has emit call_listeners
    on_state each_session suspend commit_restart update total_of
second_reading = refl

stats-AtMost_example : AtMost (counts 10) (counts 20)
stats-AtMost_example =
    stats-AtMost device proxy started restart (counts 10) (counts 20) device-StaysUp (refl, tt)
      first_reading second_reading

disconnect-totals_example :
    let stop = (device.stop_xray started.native).0.0 in
    let (r, v) = disconnect device started in
    ((stop ≡ returned tt) × ((r ≡ returned tt) × (total_of proxy v.traffic_sessions ≡ nothing)))
    ⊎ ((e : Thrown) × ((stop ≡ thrown e)
          × ((r ≡ thrown e)
              × AtMost
                  (total_of proxy started.traffic_sessions)
                  (total_of proxy v.traffic_sessions))))
disconnect-totals_example = disconnect-totals device proxy started

-- The same with a note of the commands.
abbrev noting_off : World (Noted Device)
noting_off = loaded (off, [])

answers : Answers device
answers = record { connected_answer = λ d. (true, refl) }

abbrev server : ParsedServer
server = record {
  protocol = trojan;
  tag = codes "S";
  address = codes "h";
  port = nat 443;
  id = none;
  password = some (codes "p");
  method = none;
  alter_id = none;
  encryption = none;
  flow = none;
  network = codes "tcp";
  security = codes "tls";
  sni = none;
  fingerprint = none;
  alpn = none;
  public_key = none;
  short_id = none;
  spider_x = none;
  path = none;
  host = none;
  service_name = none;
  header_type = none;
  raw = codes "trojan://";
}

connect-commands_example :
    let (r, v) = connect (noted device) server no_options noting_off in
    EndsAsStart device
      (stringify (build_xray_config server no_options))
      (reached device server none true noting_off)
      r
    × (v.native.1 ≡ connect_order device server no_options true noting_off)
connect-commands_example = connect-commands device server no_options true noting_off answers refl

start_raw-commands_example : EndsWith device [] raw off [] (start_raw (noted device) raw noting_off)
start_raw-commands_example = start_raw-commands device raw noting_off answers

abbrev room : OlcrtcOnlyOptions
room = record {
  proxy_tag = none;
  dns = none;
  tun_name = none;
  mtu = none;
  log_level = none;
  enable_stats = none;
  label = some (codes "Room");
}

connect_olcrtc_only-commands_example :
    EndsThrough device
      (nat 8808)
      room
      off
      noting_off
      (connect_olcrtc_only (noted device) room noting_off)
connect_olcrtc_only-commands_example =
    connect_olcrtc_only-commands device room (nat 8808) noting_off answers refl

abbrev pinned : CoreVersions
pinned = core_versions_of (codes "v1.260327.0") (codes "v0.0.0")

core_versions-filled_example :
    let shown = shown_for (returned (codes "26.3.27")) pinned in
    ((core_versions device pinned (loaded off)).0 ≡ returned shown) × (shown.xray ≢ [])
core_versions-filled_example =
    core_versions-filled device (codes "v1.260327.0") (codes "v0.0.0") (loaded off) (λ e. cc e)
