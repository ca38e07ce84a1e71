-- ===== src/Client/Operations.antt =====
-- src/client.ts: its calls as data, and sequences of them.
use react_native_nitro_xray.Prelude.{Bool, List, Text, [], false, true, ℕ, ◌∷◌}
use react_native_nitro_xray.Subscription.Types.{ParsedServer}
use react_native_nitro_xray.Config.Build.{BuildConfigOptions}
use react_native_nitro_xray.Client.{
  connect, start_raw, disconnect, stats, start_olcrtc, stop_olcrtc, connect_olcrtc_only,
  ensure_permission, clear_stored_config, set_kill_switch, on_state_change, off_state_change,
}
use react_native_nitro_xray.Client.Connection.{OlcrtcOnlyOptions}
use react_native_nitro_xray.Client.Engine.{OlcrtcClientConfig, Interlude, NitroXrayCore, World}
use react_native_nitro_xray.Client.Sessions.{interlude}

-- The calls of the client that change its variables, and what runs between them.
pub data Operation : Type 0 where
  connects : ParsedServer → BuildConfigOptions → Operation
  starts_raw : Text → Operation
  connects_olcrtc_only : OlcrtcOnlyOptions → Operation
  disconnects : Operation
  asks_stats : Text → Operation
  starts_olcrtc : List Interlude → OlcrtcClientConfig → Operation
  stops_olcrtc : List Interlude → Operation
  clears_stored_config : Operation
  sets_kill_switch : Bool → Operation
  ensures_permission : Operation
  subscribes : ℕ → Operation
  unsubscribes : ℕ → Operation
  meanwhile : Interlude → Operation

abbrev pub is_disconnect : Operation → Bool
is_disconnect disconnects = true
is_disconnect _ = false

module _ {N : Type 0} (core : NitroXrayCore N) where
  unfoldable pub perform : Operation → World N → World N
  perform (connects server options) w = (connect core server options w).1
  perform (starts_raw config) w = (start_raw core config w).1
  perform (connects_olcrtc_only options) w = (connect_olcrtc_only core options w).1
  perform disconnects w = (disconnect core w).1
  perform (asks_stats tag) w = (stats core tag w).1
  perform (starts_olcrtc waiting config) w = (start_olcrtc core waiting config w).1
  perform (stops_olcrtc waiting) w = (stop_olcrtc core waiting w).1
  perform clears_stored_config w = (clear_stored_config core w).1
  perform (sets_kill_switch enabled) w = (set_kill_switch core enabled w).1
  perform ensures_permission w = (ensure_permission core w).1
  perform (subscribes i) w = on_state_change i w
  perform (unsubscribes i) w = off_state_change i w
  perform (meanwhile i) w = interlude i w

  unfoldable pub performs : List Operation → World N → World N
  performs [] w = w
  performs (op ∷ ops) w = performs ops (perform op w)
