-- ===== src/Client/Calls.antt =====
-- The native calls of src/client.ts that change something, noted in their order. The one call that
-- src/native.ts makes, `onStateChange` with the callback of the multiplexer, is counted in
-- `registrations` of its state and not noted here.
pub mod Parts
pub mod Order
use react_native_nitro_xray.Prelude.{[], Bool, List, Option, Text, none, some, ◌++◌, ◌∷◌, ◌≡◌}
use react_native_nitro_xray.Client.Engine.{NitroXrayCore, NotificationConfig, Sync, Async, returned}

pub data Command : Type 0 where
  permission_requested notification_permission_requested : Command
  quick_connect_set kill_switch_set : Bool → Command
  config_cleared : Command
  xray_started : Text → Command
  xray_stopped : Command
  olcrtc_started : Text → Command
  olcrtc_stopped : Command
  notification_set : NotificationConfig → Command
  vpn_name_set info_stored : Text → Command

-- A native object with a note of what it was told to do.
abbrev pub Noted : Type 0 → Type 0
Noted N = N × List Command

module _ {N A : Type 0} where
  abbrev pub quiet : Sync N A → Sync (Noted N) A
  quiet f (n, log) = let (r, m) = f n in (r, (m, log))

  abbrev pub quietly : Async N A → Async (Noted N) A
  quietly f (n, log) = let (r, m) = f n in (r, (m, log))

  abbrev pub note : Command → Sync N A → Sync (Noted N) A
  note c f (n, log) = let (r, m) = f n in (r, (m, log ++ c ∷ []))

  abbrev pub noting : Command → Async N A → Async (Noted N) A
  noting c f (n, log) = let (r, m) = f n in (r, (m, log ++ c ∷ []))

abbrev noting_all : {N A : Type 0} → Command → Option (Async N A) → Option (Async (Noted N) A)
noting_all c none = none
noting_all c (some f) = some (noting c f)

abbrev pub noted : {N : Type 0} → NitroXrayCore N → NitroXrayCore (Noted N)
noted core = record {
  has_vpn_permission = quietly core.has_vpn_permission;
  request_vpn_permission = noting permission_requested core.request_vpn_permission;
  request_notification_permission =
      noting notification_permission_requested core.request_notification_permission;
  is_vpn_connected = quiet core.is_vpn_connected;
  is_engine_running = quiet core.is_engine_running;
  set_quick_connect_enabled = λ b. note (quick_connect_set b) (core.set_quick_connect_enabled b);
  is_quick_connect_ready = quiet core.is_quick_connect_ready;
  clear_stored_config = noting_all config_cleared core.clear_stored_config;
  get_version = quiet core.get_version;
  start_xray = λ config. noting (xray_started config) (core.start_xray config);
  stop_xray = noting xray_stopped core.stop_xray;
  set_kill_switch = λ b. noting (kill_switch_set b) (core.set_kill_switch b);
  is_kill_switch_enabled = quiet core.is_kill_switch_enabled;
  get_stats = λ tag. quietly (core.get_stats tag);
  start_olcrtc = λ config. noting (olcrtc_started config) (core.start_olcrtc config);
  stop_olcrtc = noting olcrtc_stopped core.stop_olcrtc;
  get_olcrtc_socks_port = quiet core.get_olcrtc_socks_port;
  is_olcrtc_running = quiet core.is_olcrtc_running;
  set_notification_config = λ c. note (notification_set c) (core.set_notification_config c);
  set_vpn_name = λ name. note (vpn_name_set name) (core.set_vpn_name name);
  set_connection_info = λ info. note (info_stored info) (core.set_connection_info info);
  get_connection_info = quiet core.get_connection_info;
}

-- The test for a tunnel does not throw.
pub record Answers {N : Type 0} (core : NitroXrayCore N) : Type 0 where
  pub connected_answer : (n : N) → (b : Bool) × ((core.is_vpn_connected n).0 ≡ returned b)
