-- ===== src/Client/Recalled/Stored.antt =====
-- src/client.ts: what the native object returns as the connection after the calls that store one.
use react_native_nitro_xray.Prelude.{
  Bool, Option, Text, ap, false, if◌then◌else◌, none, refl, some, sym, true, ◌∙◌, ◌≡◌,
}
use react_native_nitro_xray.Json.Print.{stringify}
use react_native_nitro_xray.Config.Settings.{OlcrtcChainOptions}
use react_native_nitro_xray.Subscription.Types.{ParsedServer}
use react_native_nitro_xray.Errors.{engine_start_failed}
use react_native_nitro_xray.Client.Engine.{
  NitroXrayCore, World, Outcome, returned, Action, continued, ◌>>=◌, ◌>>◌, modify, gets,
}
use react_native_nitro_xray.Client.Sessions.{
  ensure_session_state_hook, reset_traffic_sessions, interludes, call, await,
}
use react_native_nitro_xray.Client.Connection.{info_json, OlcrtcOnlyOptions}
use react_native_nitro_xray.Client.Calls.{Answers}
use react_native_nitro_xray.Client.Calls.Parts.{
  after, caught-ignored, caught-rethrow, ensure-rest, interludes-native,
}
use react_native_nitro_xray.Client.{
  connect_info, stop_if, stop_unused_olcrtc, reset_if_down, persist_connection_info, start_engine,
  only_info, ignore,
}

-- A native object that returns the text that was stored last, which a start of the engine leaves.
pub record Remembers {N : Type 0} (core : NitroXrayCore N) : Type 0 where
  pub stores :
      (info : Text) (n : N)
      → (core.get_connection_info (core.set_connection_info info n).1).0 ≡ returned info
  pub start_keeps :
      (config info : Text) (n : N)
      → (core.get_connection_info n).0 ≡ returned info
      → (core.get_connection_info (core.start_xray config n).1).0 ≡ returned info

module _ {N : Type 0} (core : NitroXrayCore N) where
  abbrev pub Recalls : Text → World N → Type 0
  Recalls info w = (core.get_connection_info w.native).0 ≡ returned info

  store-Recalls :
      (info : Text) (w : World N)
      → Remembers core
      → let (r, v) = ignore (call (core.set_connection_info info)) w in
        (r ≡ returned tt) × Recalls info v
  unfolding call
  store-Recalls info w remembers =
      let (r, n) = core.set_connection_info info w.native in
      let same = caught-ignored r (record w { native = n }) in
      (
        ap (λ p. p.0) same,
        ap (λ p. (core.get_connection_info p.1.native).0) same ∙ remembers.stores info w.native,
      )

  start_engine-Recalls :
      (config info : Text) (w : World N)
      → Remembers core
      → Recalls info w
      → Recalls info (start_engine core config w).1
  unfolding start_engine await
  start_engine-Recalls config info w remembers h =
      let ((r, is), n) = core.start_xray config w.native in
      let same = caught-rethrow engine_start_failed r (interludes is (record w { native = n })) in
      ap (λ p. (core.get_connection_info p.1.native).0) same
      ∙ (ap (λ m. (core.get_connection_info m).0) (interludes-native is (record w { native = n }))
          ∙ remembers.start_keeps config info w.native h)

  pub store-start :
      (info config : Text) (w : World N)
      → Remembers core
      → Recalls info
          ((ignore (call (core.set_connection_info info)) >> start_engine core config) w).1
  store-start info config w remembers =
      let stored = store-Recalls info w remembers in
      let v = (ignore (call (core.set_connection_info info)) w).1 in
      rw
        (after (ignore (call (core.set_connection_info info))) (start_engine core config) w
          stored.0)
        (start_engine-Recalls config info v remembers stored.1)

  -- The test for a tunnel leaves the armed side-channel.
  reset-armed :
      (r : Outcome Bool) (b : Bool) (w : World N)
      → r ≡ returned b
      → let (s, v) = continued (λ up. modify λ v. if up then v else reset_traffic_sessions v) r w in
        (s ≡ returned tt) × (v.armed_olcrtc ≡ w.armed_olcrtc)
  unfolding reset_traffic_sessions
  reset-armed r b w h = rw h (refl, go b)
    where
      go : (b : Bool) → (if b then w else reset_traffic_sessions w).armed_olcrtc ≡ w.armed_olcrtc
      go true = refl
      go false = refl

  reset_if_down-armed :
      (w : World N)
      → Answers core
      → let (s, v) = reset_if_down core w in (s ≡ returned tt) × (v.armed_olcrtc ≡ w.armed_olcrtc)
  unfolding reset_if_down call
  reset_if_down-armed w answers =
      let (b, h) = answers.connected_answer w.native in
      let (r, n) = core.is_vpn_connected w.native in reset-armed r b (record w { native = n }) h

  pub hook-Recalls :
      (info : Text) (k : Action N (Unit {0})) (w : World N)
      → Answers core
      → ((v : World N) → v.armed_olcrtc ≡ w.armed_olcrtc → Recalls info (k v).1)
      → Recalls info ((modify ensure_session_state_hook >> (reset_if_down core >> k)) w).1
  hook-Recalls info k w answers h =
      let u = ensure_session_state_hook w in
      let reset = reset_if_down-armed u answers in
      rw (after (reset_if_down core) k u reset.0)
        (h (reset_if_down core u).1 (reset.1 ∙ (ensure-rest w).1))

  connect_info-same :
      (server : ParsedServer) (chain : Option OlcrtcChainOptions) (v w : World N)
      → v.armed_olcrtc ≡ w.armed_olcrtc
      → connect_info core server chain v ≡ connect_info core server chain w
  unfolding connect_info
  connect_info-same server none v w h = refl
  connect_info-same server (some chain) v w h = rw h refl

  pub only_info-same :
      (options : OlcrtcOnlyOptions) (v w : World N)
      → v.armed_olcrtc ≡ w.armed_olcrtc
      → only_info core options v ≡ only_info core options w
  unfolding only_info
  only_info-same options v w h = rw h refl

  -- `connect` from the hook on.
  abbrev after_stop : ParsedServer → Option OlcrtcChainOptions → Text → Action N (Unit {0})
  after_stop server chain config = do
    modify ensure_session_state_hook
    reset_if_down core
    info ← gets (connect_info core server chain)
    persist_connection_info core info
    start_engine core config

  after_stop-Recalls :
      (server : ParsedServer) (chain : Option OlcrtcChainOptions) (config : Text) (w : World N)
      → Answers core
      → Remembers core
      → Recalls
          (stringify (info_json (connect_info core server chain w)))
          (after_stop server chain config w).1
  unfolding persist_connection_info
  after_stop-Recalls server chain config w answers remembers = hook-Recalls _ _ w answers λ v h.
      rw (sym (connect_info-same server chain v w h))
        (store-start (stringify (info_json (connect_info core server chain v))) config v remembers)

  stop_if-returned : (running : Bool) (w : World N) → (stop_if core running w).0 ≡ returned tt
  unfolding stop_if await
  stop_if-returned true w =
      let ((r, is), n) = core.stop_olcrtc w.native in
      ap (λ p. p.0) (caught-ignored r (interludes is (record w { native = n })))
  stop_if-returned false w = refl

  asked-returned :
      (r : Outcome Bool) (running : Bool) (w : World N)
      → r ≡ returned running
      → (continued (stop_if core) r w).0 ≡ returned tt
  asked-returned r running w h = rw h (stop_if-returned running w)

  pub connect-Recalls :
      (server : ParsedServer) (chain : Option OlcrtcChainOptions) (config : Text) (running : Bool)
      (w : World N)
      → Answers core
      → Remembers core
      → (core.is_olcrtc_running w.native).0 ≡ returned running
      → Recalls
          (stringify (info_json (connect_info core server chain w)))
          ((stop_unused_olcrtc core chain >> after_stop server chain config) w).1
  unfolding stop_unused_olcrtc call connect_info
  connect-Recalls server (some chain) config running w answers remembers h =
      after_stop-Recalls server (some chain) config w answers remembers
  connect-Recalls server none config running w answers remembers h =
      let stopped = asked-returned (core.is_olcrtc_running w.native).0 running _ h in
      rw (after (stop_unused_olcrtc core none) (after_stop server none config) w stopped)
        (after_stop-Recalls server none config (stop_unused_olcrtc core none w).1 answers remembers)
