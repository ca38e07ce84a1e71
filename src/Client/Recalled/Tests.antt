-- ===== src/Client/Recalled/Tests.antt =====
-- A native object that keeps the text it is given, whose engine never starts, and `connect` on it.
use react_native_nitro_xray.Prelude.{
  [], codes, false, none, refl, some, true, ◌≡◌, arith, Text, Text, [], arith, codes, false, none,
  refl, some, true, ◌≡◌,
}
use react_native_nitro_xray.Json.{Json, nat}
use react_native_nitro_xray.Errors.{error}
use react_native_nitro_xray.Subscription.Types.{ParsedServer, trojan}
use react_native_nitro_xray.Config.Build.{no_options}
use react_native_nitro_xray.Client.Engine.{NitroXrayCore, returned, thrown, Sync, Async}
use react_native_nitro_xray.Client.Hook.{loaded}
use react_native_nitro_xray.Client.Recalled.Contents.{IsConnection}
use react_native_nitro_xray.Client.Recalled.{
  current_connection-connect, current_connection-start_raw,
}
use react_native_nitro_xray.Client.{start_raw, connect, current_connection}

abbrev answer : {A : Type 0} → A → Sync Text A
answer a kept = (returned a, kept)

abbrev promise : {A : Type 0} → A → Async Text A
promise a kept = ((returned a, []), kept)

abbrev keeper : NitroXrayCore Text
keeper = record {
  has_vpn_permission = promise true;
  request_vpn_permission = promise tt;
  request_notification_permission = promise true;
  is_vpn_connected = answer false;
  is_engine_running = answer false;
  set_quick_connect_enabled = λ b. answer tt;
  is_quick_connect_ready = answer false;
  clear_stored_config = none;
  get_version = answer [];
  start_xray = λ config kept. ((thrown (error (codes "no engine")), []), kept);
  stop_xray = promise tt;
  set_kill_switch = λ b. promise tt;
  is_kill_switch_enabled = answer false;
  get_stats = λ tag. promise (record { uplink = 0; downlink = 0 });
  start_olcrtc = λ config. promise tt;
  stop_olcrtc = promise tt;
  get_olcrtc_socks_port = answer (nat 0);
  is_olcrtc_running = answer false;
  set_notification_config = λ c. answer tt;
  set_vpn_name = λ name. answer tt;
  set_connection_info = λ info kept. (returned tt, info);
  get_connection_info = λ kept. (returned kept, kept);
}

abbrev server : ParsedServer
server = record {
  protocol = trojan;
  tag = codes "Home";
  address = codes "example.com";
  port = nat 443;
  id = none;
  password = some (codes "secret");
  method = none;
  alter_id = none;
  encryption = none;
  flow = none;
  network = codes "tcp";
  security = codes "tls";
  sni = none;
  fingerprint = none;
  alpn = none;
  public_key = none;
  short_id = none;
  spider_x = none;
  path = none;
  host = none;
  service_name = none;
  header_type = none;
  raw = [];
}

current_connection-connect_example :
    (info : Json) × (((current_connection keeper (connect keeper server no_options (loaded [])).1).0
        ≡ returned (some info))
      × IsConnection server none none info)
current_connection-connect_example =
    current_connection-connect keeper server no_options false (loaded [])
      (record { connected_answer = λ n. (false, refl) })
      (record { stores = λ info n. refl; start_keeps = λ config info n h. h }) refl
      (tt, (tt, omega arith))

current_connection-start_raw_example :
    (current_connection keeper (start_raw keeper (codes "{}") (loaded (codes "old"))).1).0
    ≡ returned none
current_connection-start_raw_example =
    current_connection-start_raw keeper (codes "{}") (loaded (codes "old"))
      (record { connected_answer = λ n. (false, refl) })
      (record { stores = λ info n. refl; start_keeps = λ config info n h. h })
