-- ===== src/Client/Calls/Parts.antt =====
-- What the parts of the operations of src/client.ts that start the engine tell the native object to do.
use react_native_nitro_xray.Prelude.{
  Bool, List, Option, Text, [], ap, append-nil, append_assoc, false, if◌then◌else◌, none, refl,
  some, sym, true, ◌++◌, ◌∙◌, ◌∷◌, ◌≡◌,
}
use react_native_nitro_xray.Client.Engine.{
  NitroXrayCore, World, Interlude, changed, polled, armed_with, Outcome, returned, thrown, Action,
  caught, continued, ◌>>◌, modify,
}
use react_native_nitro_xray.Client.Sessions.{
  hook_unless, ensure_session_state_hook, reset_traffic_sessions, interlude, interludes, call,
  await,
}
use react_native_nitro_xray.Client.Calls.{
  Command, Noted, noted, Answers, xray_started, info_stored, olcrtc_stopped,
}
use react_native_nitro_xray.Client.{
  connect_info, stop_if, stop_unused_olcrtc, reset_if_down, start_engine, rethrow, pure, ignore,
  OlcrtcChainOptions, ParsedServer,
}
use react_native_nitro_xray.Errors.{XrayErrorCode, to_xray_error, xray, engine_start_failed}

-- An outcome with its rejection as an `XrayError`.
abbrev pub as_xray_error : {A : Type 0} → XrayErrorCode → Outcome A → Outcome A
as_xray_error code (returned a) = returned a
as_xray_error code (thrown e) = thrown (xray (to_xray_error e code))

module _ {N : Type 0} where
  hook_unless-rest :
      (b : Bool) (w : World N)
      → ((hook_unless b w).native ≡ w.native) × ((hook_unless b w).armed_olcrtc ≡ w.armed_olcrtc)
  unfolding hook_unless
  hook_unless-rest true w = (refl, refl)
  hook_unless-rest false w = (refl, refl)

  pub ensure-rest :
      (w : World N)
      → ((ensure_session_state_hook w).native ≡ w.native)
        × ((ensure_session_state_hook w).armed_olcrtc ≡ w.armed_olcrtc)
  unfolding ensure_session_state_hook
  ensure-rest w = hook_unless-rest w.session_state_hook_registered w

  interlude-native : (i : Interlude) (w : World N) → (interlude i w).native ≡ w.native
  unfolding interlude
  interlude-native (changed state message) w = refl
  interlude-native (polled tag raw) w = (ensure-rest w).0
  interlude-native (armed_with config) w = refl

  pub interludes-native : (is : List Interlude) (w : World N) → (interludes is w).native ≡ w.native
  unfolding interludes
  interludes-native [] w = refl
  interludes-native (i ∷ is) w = interludes-native is (interlude i w) ∙ interlude-native i w

  pub after :
      {A : Type 0} (m : Action N (Unit {0})) (k : Action N A) (w : World N)
      → (m w).0 ≡ returned tt
      → (m >> k) w ≡ k (m w).1
  after m k w h = rw h refl

  -- An ignored outcome leaves nothing behind.
  pub caught-ignored :
      (r : Outcome (Unit {0})) (w : World N) → caught (λ e. pure tt) r w ≡ (returned tt, w)
  caught-ignored (returned _) w = refl
  caught-ignored (thrown e) w = refl

  pub caught-rethrow :
      (code : XrayErrorCode) (r : Outcome (Unit {0})) (w : World N)
      → caught (rethrow code) r w ≡ (as_xray_error code r, w)
  caught-rethrow code (returned _) w = refl
  caught-rethrow code (thrown e) w = refl

module _ {N : Type 0} (core : NitroXrayCore N) where
  -- The native object after a text is stored, and after the question about the tunnel.
  abbrev pub stored : Text → N → N
  stored info n = (core.set_connection_info info n).1

  abbrev pub asked : N → N
  asked n = (core.is_vpn_connected n).1

  -- Storing the connection resolves whatever the native object does, and is noted.
  pub store-parts :
      (info : Text) (w : World (Noted N))
      → let m = ignore (call ((noted core).set_connection_info info)) in
        ((m w).0 ≡ returned tt)
        × ((m w).1.native ≡ (stored info w.native.0, w.native.1 ++ info_stored info ∷ []))
  unfolding call
  store-parts info w =
      let (r, n) = core.set_connection_info info w.native.0 in
      let v = record w { native = (n, w.native.1 ++ info_stored info ∷ []) } in
      (ap (λ p. p.0) (caught-ignored r v), ap (λ p. p.1.native) (caught-ignored r v))

  -- It ends as a start of the engine in the state `n` ends.
  abbrev pub EndsAsStart : Text → N → Outcome (Unit {0}) → Type 0
  EndsAsStart config n r = r ≡ as_xray_error engine_start_failed (core.start_xray config n).0.0

  start_engine-parts :
      (config : Text) (w : World (Noted N))
      → EndsAsStart config w.native.0 (start_engine (noted core) config w).0
        × ((start_engine (noted core) config w).1.native.1 ≡ w.native.1 ++ xray_started config ∷ [])
  unfolding start_engine await
  start_engine-parts config w =
      let ((r, is), n) = core.start_xray config w.native.0 in
      let v = interludes is (record w { native = (n, w.native.1 ++ xray_started config ∷ []) }) in
      let same = caught-rethrow engine_start_failed r v in
      (
        ap (λ p. p.0) same,
        ap (λ p. p.1.native.1) same ∙ ap (λ (n : Noted N). n.1) (interludes-native is _),
      )

  answered-parts :
      (b : Bool) (w : World (Noted N))
      → let m : World (Noted N) = if b then w else reset_traffic_sessions w in
        (m.native ≡ w.native) × (m.armed_olcrtc ≡ w.armed_olcrtc)
  unfolding reset_traffic_sessions
  answered-parts true w = (refl, refl)
  answered-parts false w = (refl, refl)

  continued-parts :
      (r : Outcome Bool) (b : Bool) (w : World (Noted N))
      → r ≡ returned b
      → let (s, v) = continued (λ up. modify λ v. if up then v else reset_traffic_sessions v) r w in
        (s ≡ returned tt) × ((v.native ≡ w.native) × (v.armed_olcrtc ≡ w.armed_olcrtc))
  continued-parts r b w h = rw h (refl, answered-parts b w)

  reset_if_down-parts :
      (w : World (Noted N))
      → Answers core
      → let (r, v) = reset_if_down (noted core) w in
        (r ≡ returned tt)
        × ((v.native ≡ (asked w.native.0, w.native.1)) × (v.armed_olcrtc ≡ w.armed_olcrtc))
  unfolding reset_if_down call
  reset_if_down-parts w answers =
      let (b, h) = answers.connected_answer w.native.0 in
      continued-parts (core.is_vpn_connected w.native.0).0 b _ h

  -- The common end of the operations that start the engine, from a native object in the state `n` and
  -- with the commands `log`: something is stored and the engine starts.
  abbrev pub EndsWith :
      Text → Text → N → List Command → Outcome (Unit {0}) × World (Noted N) → Type 0
  EndsWith info config n log (r, v) =
      EndsAsStart config (stored info n) r
      × (v.native.1 ≡ log ++ info_stored info ∷ xray_started config ∷ [])

  pub store-start :
      (info config : Text) (w : World (Noted N))
      → EndsWith info config w.native.0 w.native.1 (
          (ignore (call ((noted core).set_connection_info info))
              >> start_engine (noted core) config)
            w)
  store-start info config w =
      let stores = store-parts info w in
      let v = (ignore (call ((noted core).set_connection_info info)) w).1 in
      let started = start_engine-parts config v in
      rw
        (after (ignore (call ((noted core).set_connection_info info)))
          (start_engine (noted core) config) w stores.0)
        (
          started.0
              ∙ ap
                  (λ (n : Noted N).
                    as_xray_error engine_start_failed (core.start_xray config n.0).0.0)
                  stores.1,
          started.1
              ∙ (ap (λ (n : Noted N). n.1 ++ xray_started config ∷ []) stores.1
                  ∙ append_assoc w.native.1 (info_stored info ∷ []) (xray_started config ∷ [])),
        )

  pub EndsWith-native :
      (info config : Text) {n m : Noted N} (r : Outcome (Unit {0}) × World (Noted N))
      → n ≡ m
      → EndsWith info config n.0 n.1 r
      → EndsWith info config m.0 m.1 r
  EndsWith-native info config r e h = rw (← e) h

  pub hook-reset :
      (k : Action (Noted N) (Unit {0})) (w : World (Noted N)) (info config : Text)
      → Answers core
      → ((v : World (Noted N))
          → v.armed_olcrtc ≡ w.armed_olcrtc
          → EndsWith info config v.native.0 v.native.1 (k v))
      → EndsWith info config
          (asked w.native.0)
          w.native.1
          ((modify ensure_session_state_hook >> (reset_if_down (noted core) >> k)) w)
  hook-reset k w info config answers h =
      let u = ensure_session_state_hook w in
      let (hooked, armed) = ensure-rest w in
      let reset = reset_if_down-parts u answers in
      let ended = h (reset_if_down (noted core) u).1 (reset.1.1 ∙ armed) in
      rw (after (reset_if_down (noted core)) k u reset.0) (
        EndsWith-native info config (k (reset_if_down (noted core) u).1)
          (reset.1.0 ∙ ap (λ (n : Noted N). (asked n.0, n.1)) hooked) ended)

  -- `connect` stops a running side-channel that it does not use.
  abbrev pub stops_first : Option OlcrtcChainOptions → Bool → List Command
  stops_first (some chain) running = []
  stops_first none true = olcrtc_stopped ∷ []
  stops_first none false = []

  -- The native object after that, and after the question about the side-channel.
  abbrev pub stopped : Option OlcrtcChainOptions → Bool → N → N
  stopped (some chain) running n = n
  stopped none true n = (core.stop_olcrtc (core.is_olcrtc_running n).1).1
  stopped none false n = (core.is_olcrtc_running n).1

  stop_if-parts :
      (running : Bool) (n : N) (w : World (Noted N))
      → w.native.0 ≡ (core.is_olcrtc_running n).1
      → let (r, v) = stop_if (noted core) running w in
        (r ≡ returned tt)
        × (v.native ≡ (stopped none running n, w.native.1 ++ stops_first none running))
  unfolding stop_if await
  stop_if-parts true n w e =
      let ((r, is), m) = core.stop_olcrtc w.native.0 in
      let v = interludes is (record w { native = (m, w.native.1 ++ olcrtc_stopped ∷ []) }) in
      let same = caught-ignored r v in
      (
        ap (λ p. p.0) same,
        ap (λ p. p.1.native) same
            ∙ interludes-native is _
            ∙ ap (λ m. ((core.stop_olcrtc m).1, w.native.1 ++ olcrtc_stopped ∷ [])) e,
      )
  stop_if-parts false n w e = (
    refl,
    ap (λ m. (m, w.native.1)) e
        ∙ ap (λ log. ((core.is_olcrtc_running n).1, log)) (sym (append-nil w.native.1)),
  )

  asked-parts :
      (r : Outcome Bool) (running : Bool) (n : N) (w : World (Noted N))
      → r ≡ returned running
      → w.native.0 ≡ (core.is_olcrtc_running n).1
      → let (s, v) = continued (stop_if (noted core)) r w in
        (s ≡ returned tt)
        × (v.native ≡ (stopped none running n, w.native.1 ++ stops_first none running))
  asked-parts r running n w h e = rw h (stop_if-parts running n w e)

  pub stop_unused-parts :
      (running : Bool) (w : World (Noted N))
      → (core.is_olcrtc_running w.native.0).0 ≡ returned running
      → let (r, v) = stop_unused_olcrtc (noted core) none w in
        (r ≡ returned tt)
        × (v.native ≡ (stopped none running w.native.0, w.native.1 ++ stops_first none running))
  unfolding stop_unused_olcrtc call
  stop_unused-parts running w h =
      asked-parts (core.is_olcrtc_running w.native.0).0 running w.native.0 _ h refl

  pub connect_info-armed :
      (server : ParsedServer) (chain : Option OlcrtcChainOptions) (v w : World (Noted N))
      → v.armed_olcrtc ≡ w.armed_olcrtc
      → connect_info (noted core) server chain v ≡ connect_info (noted core) server chain w
  unfolding connect_info
  connect_info-armed server none v w h = refl
  connect_info-armed server (some chain) v w h = rw h refl
