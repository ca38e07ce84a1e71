-- ===== src/Client/Engine.antt =====
-- The native object of src/specs/nitro-xray-core.nitro.ts as an interface over a state `N` of its own,
-- and the actions that src/client.ts runs on it.
use react_native_nitro_xray.Prelude.{
  Bool, Eq, List, Option, Text, ap, eqb_iff, false, true, ℕ, ◌==◌, ◌↔◌, ◌≡◌,
}
use react_native_nitro_xray.Json.{Number}
use react_native_nitro_xray.Errors.{Thrown}
use react_native_nitro_xray.Stats.{TrafficStats, TrafficSession}
use react_native_nitro_xray.Native.{XrayState, Multiplexer}

pub record NotificationConfig : Type 0 where
  pub title : Option Text
  pub text : Option Text
  pub disconnect_label : Option Text
  pub blocked_text : Option Text
  pub channel_name : Option Text

-- src/olcrtc/types.ts.
pub record OlcrtcClientConfig : Type 0 where
  pub carrier : Text
  pub room_id : Text
  pub client_id : Text
  pub key_hex : Text
  pub socks_port : Option Number
  pub socks_user : Option Text
  pub socks_pass : Option Text
  pub socks_host : Option Text
  pub dns_server : Option Text
  pub transport : Option Text
  pub ready_timeout_ms : Option Number
  pub vp8_fps : Option Number
  pub vp8_batch_size : Option Number
  pub debug : Option Bool
  pub retries : Option Number

-- How a call ends, also a promise.
pub data Outcome {ℓ} (A : Type ℓ) : Type ℓ where
  returned : A → Outcome A
  thrown : Thrown → Outcome A

-- What else runs in JavaScript while a promise is pending: a state event of the native object, a
-- `stats()` call whose counters arrive, and the first line of `startOlcrtc` or `stopOlcrtc`, which
-- does not wait for the lock.
pub data Interlude : Type 0 where
  changed : XrayState → Text → Interlude
  polled : Text → TrafficStats → Interlude
  armed_with : Option OlcrtcClientConfig → Interlude

-- A call that returns at once, and one that returns a promise: the interludes come before it settles.
abbrev pub Sync : Type 0 → Type 0 → Type 0
Sync N A = N → Outcome A × N

abbrev pub Async : Type 0 → Type 0 → Type 0
Async N A = N → (Outcome A × List Interlude) × N

pub record NitroXrayCore (N : Type 0) : Type 0 where
  pub has_vpn_permission : Async N Bool
  pub request_vpn_permission : Async N (Unit {0})
  pub request_notification_permission : Async N Bool
  pub is_vpn_connected : Sync N Bool
  pub is_engine_running : Sync N Bool
  pub set_quick_connect_enabled : Bool → Sync N (Unit {0})
  pub is_quick_connect_ready : Sync N Bool
  pub clear_stored_config : Option (Async N (Unit {0}))
  pub get_version : Sync N Text
  pub start_xray : Text → Async N (Unit {0})
  pub stop_xray : Async N (Unit {0})
  pub set_kill_switch : Bool → Async N (Unit {0})
  pub is_kill_switch_enabled : Sync N Bool
  pub get_stats : Text → Async N TrafficStats
  pub start_olcrtc : Text → Async N (Unit {0})
  pub stop_olcrtc : Async N (Unit {0})
  pub get_olcrtc_socks_port : Sync N Number
  pub is_olcrtc_running : Sync N Bool
  pub set_notification_config : NotificationConfig → Sync N (Unit {0})
  pub set_vpn_name : Text → Sync N (Unit {0})
  pub set_connection_info : Text → Sync N (Unit {0})
  pub get_connection_info : Sync N Text

-- A subscriber of state events: a hook of the traffic sessions, each a function of its own, or one of
-- the app.
pub data Listener : Type 0 where
  session_hook : ℕ → Listener
  app : ℕ → Listener

abbrev pub same_listener : Listener → Listener → Bool
same_listener (session_hook i) (session_hook j) = i == j
same_listener (app i) (app j) = i == j
same_listener _ _ = false

pub same_listener_iff : (k l : Listener) → (same_listener k l ≡ true) ↔ (k ≡ l)
same_listener_iff (session_hook i) (session_hook j) =
    ((λ h. ap session_hook ((eqb_iff i j).0 h)), (λ h. (eqb_iff i j).1 cc))
same_listener_iff (session_hook i) (app j) = ((λ h. cc), (λ h. cc))
same_listener_iff (app i) (session_hook j) = ((λ h. cc), (λ h. cc))
same_listener_iff (app i) (app j) = ((λ h. ap app ((eqb_iff i j).0 h)), (λ h. (eqb_iff i j).1 cc))

instance abbrev pub listener_eq : Eq Listener
listener_eq = record { strict = same_listener; strict_sound = same_listener_iff }

-- The `Map` of the sessions, in the order of their insertion.
abbrev pub Sessions : Type 0
Sessions = List (Text × TrafficSession)

-- The variables of src/client.ts and src/native.ts, and the native state.
pub record World (N : Type 0) : Type 0 where
  pub native : N
  pub armed_olcrtc : Option OlcrtcClientConfig
  pub traffic_sessions : Sessions
  pub session_state_hook_registered : Bool
  pub listeners : Multiplexer Listener

abbrev pub Action : Type 0 → Type 0 → Type 0
Action N A = World N → Outcome A × World N

module _ {N A : Type 0} where
  abbrev pub pure : A → Action N A
  pure a w = (returned a, w)

  abbrev pub raise : Thrown → Action N A
  raise e w = (thrown e, w)

  -- What comes after a `try` block, by how it ended.
  abbrev pub caught : (Thrown → Action N A) → Outcome A → Action N A
  caught k (returned a) w = (returned a, w)
  caught k (thrown e) w = k e w

  -- `try { m } catch (e) { k(e) }`
  abbrev pub attempt : Action N A → (Thrown → Action N A) → Action N A
  attempt m k w = caught k (m w).0 (m w).1

abbrev pub continued : {N A B : Type 0} → (A → Action N B) → Outcome A → Action N B
continued f (returned a) w = f a w
continued f (thrown e) w = (thrown e, w)

infixl 5 ◌>>=◌ ◌>>◌
abbrev pub ◌>>=◌ : {N A B : Type 0} → Action N A → (A → Action N B) → Action N B
◌>>=◌ m f w = continued f (m w).0 (m w).1

abbrev pub ◌>>◌ : {N B : Type 0} → Action N (Unit {0}) → Action N B → Action N B
m >> k = m >>= λ _. k

abbrev pub modify : {N : Type 0} → (World N → World N) → Action N (Unit {0})
modify f w = (returned tt, f w)

abbrev pub gets : {N A : Type 0} → (World N → A) → Action N A
gets f w = (returned (f w), w)
