-- ===== src/Client/Sessions.antt =====
-- The traffic sessions of src/client.ts, and what state events do to them.
use react_native_nitro_xray.Prelude.{List, Text, [], ℕ, ◌+◌, false, text_eq, true, ◌∷◌, Bool}
use react_native_nitro_xray.Stats.{
  TrafficStats, TrafficSession, fresh, update, suspend, commit_restart, reset,
}
use react_native_nitro_xray.Native.{
  XrayState, add_state_listener, emit, connecting, connected, disconnected, error, blocked,
  disconnecting, reconnecting,
}
use react_native_nitro_xray.Client.Engine.{
  World, Sessions, Listener, session_hook, app, listener_eq, Interlude, changed, polled, armed_with,
  Async, Sync, Action,
}

unfoldable pub each_session : (TrafficSession → TrafficSession) → Sessions → Sessions
each_session f [] = []
each_session f ((tag, s) ∷ rest) = (tag, f s) ∷ each_session f rest

-- `trafficSession(tag).update(raw)`: a tag that has no session gets a new one.
unfoldable pub update_session : Text → TrafficStats → Sessions → Sessions × TrafficStats
update_session tag raw [] = let (s, shown) = update fresh raw in ((tag, s) ∷ [], shown)
update_session tag raw ((t, s) ∷ rest) = elim (text_eq t tag) [
  | true ↦ let (s', shown) = update s raw in ((t, s') ∷ rest, shown)
  | false ↦ let (rest', shown) = update_session tag raw rest in ((t, s) ∷ rest', shown)
]

-- The listener that `ensureSessionStateHook` adds.
unfoldable pub on_state : XrayState → Sessions → Sessions
on_state connecting sessions = each_session suspend sessions
on_state connected sessions = each_session commit_restart sessions
on_state disconnected sessions = each_session commit_restart sessions
on_state error sessions = each_session commit_restart sessions
on_state blocked sessions = each_session commit_restart sessions
on_state disconnecting sessions = sessions
on_state reconnecting sessions = sessions

-- The calls of the listeners; what the app's listeners do is the app's.
unfoldable pub call_listeners : List (Listener × XrayState × Text) → Sessions → Sessions
call_listeners [] sessions = sessions
call_listeners ((session_hook k, state, message) ∷ calls) sessions =
    call_listeners calls (on_state state sessions)
call_listeners ((app i, state, message) ∷ calls) sessions = call_listeners calls sessions

-- How often the hook is among the listeners. It is never taken off, so this is also the number of the
-- closure that the next call of `addStateListener` gets.
unfoldable pub hooks_in : List Listener → ℕ
hooks_in [] = 0
hooks_in (session_hook k ∷ ls) = 1 + hooks_in ls
hooks_in (app i ∷ ls) = hooks_in ls

module _ {N : Type 0} where
  -- `ensureSessionStateHook`, behind its test.
  unfoldable pub hook_unless : Bool → World N → World N
  hook_unless true w = w
  hook_unless false w = record w {
    session_state_hook_registered = true;
    listeners =
        add_state_listener (session_hook (hooks_in w.listeners.state_listeners)) w.listeners;
  }

  unfoldable pub ensure_session_state_hook : World N → World N
  ensure_session_state_hook w = hook_unless w.session_state_hook_registered w

  unfoldable pub reset_traffic_sessions : World N → World N
  reset_traffic_sessions w = record w { traffic_sessions = each_session reset w.traffic_sessions }

  -- A `stats()` call has registered the hook before its counters arrive.
  unfoldable pub interlude : Interlude → World N → World N
  interlude (changed state message) w = record w {
    traffic_sessions = call_listeners (emit state message w.listeners) w.traffic_sessions;
  }
  interlude (polled tag raw) w =
      let w' = ensure_session_state_hook w in
      record w' { traffic_sessions = (update_session tag raw w'.traffic_sessions).0 }
  interlude (armed_with config) w = record w { armed_olcrtc = config }

  unfoldable pub interludes : List Interlude → World N → World N
  interludes [] w = w
  interludes (i ∷ is) w = interludes is (interlude i w)

  -- `core.f()`, and `await core.f()`.
  unfoldable pub call : {A : Type 0} → Sync N A → Action N A
  call f w = let (r, n) = f w.native in (r, record w { native = n })

  unfoldable pub await : {A : Type 0} → Async N A → Action N A
  await f w = let ((r, is), n) = f w.native in (r, interludes is (record w { native = n }))
