-- ===== src/Client/Hook.antt =====
-- The hook of the traffic sessions is subscribed once, before there is a session.
pub mod Calls
use react_native_nitro_xray.Prelude.{
  ◌⊎◌, Bool, Bool-cases, List, Text, [], ap, arith, false, if◌then◌else◌, inl, inr, ltb, none, refl,
  sym, true, ℕ, ◌∙◌, ◌∷◌, ◌≡◌, ◌≤◌,
}
use react_native_nitro_xray.Stats.{reset}
use react_native_nitro_xray.Client.Engine.{continued, modify}
use react_native_nitro_xray.Client.Hooked.{hook-registered}
use react_native_nitro_xray.Native.{
  XrayState, Multiplexer, initial, add_state_listener, unsubscribe, emit,
}
use react_native_nitro_xray.Client.{reset_if_down, on_state_change, off_state_change}
use react_native_nitro_xray.Client.Engine.{
  NitroXrayCore, World, Sessions, Listener, session_hook, app, listener_eq, Interlude, changed,
  polled, armed_with, Outcome, returned, thrown,
}
use react_native_nitro_xray.Client.Sessions.{
  hooks_in, hook_unless, each_session, update_session, on_state, call_listeners,
  ensure_session_state_hook, reset_traffic_sessions, interlude, call,
}
use react_native_nitro_xray.Client.Operations.{Operation, disconnects, perform, performs}
use react_native_nitro_xray.Client.Keeps.{IsKept, perform-R, disconnect-R}
use react_native_nitro_xray.Client.Hook.Calls.{
  hook_calls, hook_calls-event, event_calls, acted_on, on_state-acted, one_if, hooks_in-add_app,
  hooks_in-delete_app, hooks_in-add_hook, add_state_listener-parts, on_state-nil,
  call_listeners-nil, call_listeners-hooked, each_session-nil,
}

-- The hook is among the listeners once if it is registered, and else not at all and there is no
-- session; and the native object has a callback if the multiplexer thinks so.
pub record IsHooked {N : Type 0} (w : World N) : Type 0 where
  pub counted : hooks_in w.listeners.state_listeners ≡ one_if w.session_state_hook_registered
  pub called : w.listeners.native_listener_registered ≡ true → 1 ≤ w.listeners.registrations
  pub native :
      w.session_state_hook_registered ≡ true → w.listeners.native_listener_registered ≡ true
  pub before : w.session_state_hook_registered ≡ false → w.traffic_sessions ≡ []

module _ {N : Type 0} where
  hook_unless-IsHooked :
      (b : Bool) (w : World N)
      → w.session_state_hook_registered ≡ b
      → IsHooked w
      → IsHooked (hook_unless b w)
  unfolding hook_unless
  hook_unless-IsHooked true w h v = v
  hook_unless-IsHooked false w h v =
      let k = hooks_in w.listeners.state_listeners in
      let (added, (native, called)) =
        add_state_listener-parts (session_hook k) w.listeners v.called in
      record {
        counted =
            ap (λ ls. hooks_in ls) added
            ∙ hooks_in-add_hook k w.listeners.state_listeners (rw h at v.counted);
        called = λ _. called;
        native = λ _. native;
        before = λ h. cc h;
      }

  ensure-IsHooked : (w : World N) → IsHooked w → IsHooked (ensure_session_state_hook w)
  unfolding ensure_session_state_hook
  ensure-IsHooked w v = hook_unless-IsHooked w.session_state_hook_registered w refl v

  with_sessions-IsHooked :
      (w : World N) (ss : Sessions)
      → IsHooked w
      → (w.session_state_hook_registered ≡ false → ss ≡ [])
      → IsHooked (record w { traffic_sessions = ss })
  with_sessions-IsHooked w ss v before = record {
    counted = v.counted;
    called = v.called;
    native = v.native;
    before = before;
  }

  interlude-IsHooked : (i : Interlude) (w : World N) → IsHooked w → IsHooked (interlude i w)
  unfolding interlude
  interlude-IsHooked (changed state message) w v =
      let calls = emit state message w.listeners in
      with_sessions-IsHooked w (call_listeners calls w.traffic_sessions) v
        (λ h. ap (λ ss. call_listeners calls ss) (v.before h) ∙ call_listeners-nil calls)
  interlude-IsHooked (polled tag raw) w v =
      let u = ensure_session_state_hook w in
      with_sessions-IsHooked u (update_session tag raw u.traffic_sessions).0 (ensure-IsHooked w v)
        (λ h. cc (h, hook-registered w))
  interlude-IsHooked (armed_with config) w v = record {
    counted = v.counted;
    called = v.called;
    native = v.native;
    before = v.before;
  }

  reset-IsHooked : (w : World N) → IsHooked w → IsHooked (reset_traffic_sessions w)
  unfolding reset_traffic_sessions
  reset-IsHooked w v =
      with_sessions-IsHooked w (each_session reset w.traffic_sessions) v
        (λ h. ap (λ ss. each_session reset ss) (v.before h) ∙ each_session-nil reset)

  listeners-IsHooked :
      (w : World N) (m : Multiplexer Listener)
      → IsHooked w
      → hooks_in m.state_listeners ≡ hooks_in w.listeners.state_listeners
      → (m.native_listener_registered ≡ true → 1 ≤ m.registrations)
      → (w.listeners.native_listener_registered ≡ true → m.native_listener_registered ≡ true)
      → IsHooked (record w { listeners = m })
  listeners-IsHooked w m v same called native = record {
    counted = same ∙ v.counted;
    called = called;
    native = λ h. native (v.native h);
    before = v.before;
  }

  on-IsHooked : (i : ℕ) (w : World N) → IsHooked w → IsHooked (on_state_change i w)
  unfolding on_state_change
  on-IsHooked i w v =
      let (added, (native, called)) = add_state_listener-parts (app i) w.listeners v.called in
      listeners-IsHooked w (add_state_listener (app i) w.listeners) v
        (ap (λ ls. hooks_in ls) added ∙ hooks_in-add_app i w.listeners.state_listeners)
        (λ _. called) (λ _. native)

  off-IsHooked : (i : ℕ) (w : World N) → IsHooked w → IsHooked (off_state_change i w)
  unfolding off_state_change unsubscribe
  off-IsHooked i w v =
      listeners-IsHooked w (unsubscribe (app i) w.listeners) v
        (hooks_in-delete_app i w.listeners.state_listeners) v.called (λ h. h)

module _ {N : Type 0} (core : NitroXrayCore N) where
  abbrev Stays : World N → World N → Type 0
  Stays u w = IsHooked u → IsHooked w

  answered-IsHooked :
      (r : Outcome Bool) (w : World N)
      → IsHooked w
      → IsHooked (continued (λ up. modify λ v. if up then v else reset_traffic_sessions v) r w).1
  answered-IsHooked (returned true) w v = v
  answered-IsHooked (returned false) w v = reset-IsHooked w v
  answered-IsHooked (thrown e) w v = v

  native-IsHooked : (w : World N) (n : N) → IsHooked w → IsHooked (record w { native = n })
  native-IsHooked w n v = record {
    counted = v.counted;
    called = v.called;
    native = v.native;
    before = v.before;
  }

  Stays-IsKept : IsKept core Stays
  unfolding reset_if_down call interlude
  Stays-IsKept = record {
    same = λ w v. v;
    chain = λ u v w h j i. j (h i);
    native_changes = native-IsHooked;
    armed_changes = λ w config v. interlude-IsHooked (armed_with config) w v;
    hooks = ensure-IsHooked;
    updates = λ w tag raw h v.
        with_sessions-IsHooked w (update_session tag raw w.traffic_sessions).0 v (λ j. cc (h, j));
    interludes_keep = interlude-IsHooked;
    resets = λ w v.
        answered-IsHooked (core.is_vpn_connected w.native).0 _
          (native-IsHooked w (core.is_vpn_connected w.native).1 v);
    subscriptions = λ i w. (on-IsHooked i w, off-IsHooked i w);
  }

  perform-IsHooked : (op : Operation) (w : World N) → IsHooked w → IsHooked (perform core op w)
  unfolding perform
  perform-IsHooked disconnects w v = disconnect-R core Stays Stays-IsKept w reset-IsHooked v
  perform-IsHooked op w v = perform-R core Stays Stays-IsKept op w refl v

  pub performs-IsHooked :
      (ops : List Operation) (w : World N) → IsHooked w → IsHooked (performs core ops w)
  unfolding performs
  performs-IsHooked [] w v = v
  performs-IsHooked (op ∷ ops) w v =
      performs-IsHooked ops (perform core op w) (perform-IsHooked op w v)

  -- The hook is called once, or there is no hook and no session.
  abbrev pub IsActed : XrayState → Text → World N → Type 0
  IsActed state message w =
      ((hook_calls (emit state message w.listeners) ≡ 1)
        ⊎ ((hook_calls (emit state message w.listeners) ≡ 0) × (w.traffic_sessions ≡ [])))
      × ((interlude (changed state message) w).traffic_sessions ≡ acted_on state w.traffic_sessions)

  emit-called :
      (w : World N) (state : XrayState) (message : Text)
      → IsHooked w
      → w.session_state_hook_registered ≡ true
      → emit state message w.listeners ≡ event_calls state message w.listeners.state_listeners
  unfolding emit
  emit-called w state message v hooked =
      let native : ltb 0 w.listeners.registrations ≡ true =
        ground (arith, v.called (v.native hooked)) in
      rw native refl

  emit-uncalled :
      (m : Multiplexer Listener) (state : XrayState) (message : Text)
      → hooks_in m.state_listeners ≡ 0
      → hook_calls (emit state message m) ≡ 0
  unfolding emit hooks_in
  emit-uncalled m state message h = elim (Bool-cases (ltb 0 m.registrations)) [
    | inl there ↦ rw there (hook_calls-event state message m.state_listeners ∙ h)
    | inr gone ↦ rw gone refl
  ]

  event-IsActed :
      (w : World N) (state : XrayState) (message : Text) → IsHooked w → IsActed state message w
  unfolding interlude
  event-IsActed w state message v = elim (Bool-cases w.session_state_hook_registered) [
    | inl hooked ↦
        let once : hooks_in w.listeners.state_listeners ≡ 1 = rw hooked at v.counted in
        let calls = emit-called w state message v hooked in
        (
          inl (
              ap (λ cs. hook_calls cs) calls
              ∙ hook_calls-event state message w.listeners.state_listeners
              ∙ once),
          ap (λ cs. call_listeners cs w.traffic_sessions) calls
              ∙ call_listeners-hooked state message w.listeners.state_listeners w.traffic_sessions
                  once
              ∙ on_state-acted state w.traffic_sessions,
        )
    | inr unhooked ↦
        let empty = v.before unhooked in
        (
          inr (emit-uncalled w.listeners state message (rw unhooked at v.counted), empty),
          rw empty (call_listeners-nil (emit state message w.listeners)),
        )
  ]

-- The variables of the modules when they are loaded.
abbrev pub loaded : {N : Type 0} → N → World N
loaded n = record {
  native = n;
  armed_olcrtc = none;
  traffic_sessions = [];
  session_state_hook_registered = false;
  listeners = initial;
}

loaded-IsHooked : {N : Type 0} (n : N) → IsHooked (loaded n)
unfolding hooks_in
loaded-IsHooked n = record {
  counted = refl;
  called = λ h. cc h;
  native = λ h. cc h;
  before = λ h. refl;
}

-- After any calls of the client on any native object, with anything that runs during their awaits,
-- whatever the app subscribed or unsubscribed: a state event calls the hook of the traffic sessions
-- exactly once, or never and then there is no session yet; and the event suspends each session if it
-- is `connecting`, commits each if it is `connected`, `disconnected`, `error` or `blocked`, and else
-- changes none.
pub performs-event :
    {N : Type 0} (core : NitroXrayCore N) (n : N) (ops : List Operation) (state : XrayState)
    (message : Text)
    → IsActed core state message (performs core ops (loaded n))
performs-event core n ops state message =
    event-IsActed core (performs core ops (loaded n)) state message
      (performs-IsHooked core ops (loaded n) (loaded-IsHooked n))
