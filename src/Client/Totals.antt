-- ===== src/Client/Totals.antt =====
-- The totals that `stats()` shows never fall while the tunnel stays up, and a disconnect resets them.
pub mod Grown
use react_native_nitro_xray.Prelude.{
  All, Bool, List, Text, [], ap, false, if◌then◌else◌, inl, inr, refl, sym, text_eq, true, ◌∙◌, ◌∷◌,
  ◌≡◌, ◌≢◌, ◌⊎◌,
}
use react_native_nitro_xray.Stats.{TrafficStats}
use react_native_nitro_xray.Stats.Totals.{AtMost, AtMost-refl, AtMost-trans}
use react_native_nitro_xray.Native.{emit}
use react_native_nitro_xray.Errors.{Thrown, stats_unavailable}
use react_native_nitro_xray.Client.{
  disconnect, clear_connection_info, reset_if_down, stats, show_totals, on_state_change,
  off_state_change, rethrow,
}
use react_native_nitro_xray.Client.Engine.{
  pure, caught, ◌>>◌, NitroXrayCore, World, Interlude, changed, polled, armed_with, Outcome,
  returned, thrown, continued, modify, attempt,
}
use react_native_nitro_xray.Client.Sessions.{
  interludes, reset_traffic_sessions, ensure_session_state_hook, hook_unless, interlude, call,
  await,
}
use react_native_nitro_xray.Client.Operations.{
  Operation, is_disconnect, asks_stats, perform, performs,
}
use react_native_nitro_xray.Client.Keeps.{IsKept, perform-R}
use react_native_nitro_xray.Client.Totals.Grown.{
  nothing, total_of, call_listeners-grows, update_session-grows, update_session-shown,
  reset-nothing,
}

caught-parts :
    {N : Type 0} (r : Outcome (Unit {0})) (w : World N)
    → ((caught (λ e. pure tt) r w).0 ≡ returned tt)
      × ((caught (λ e. pure tt) r w).1.traffic_sessions ≡ w.traffic_sessions)
caught-parts (returned _) w = (refl, refl)
caught-parts (thrown e) w = (refl, refl)

module _ {N : Type 0} (core : NitroXrayCore N) where
  -- No tag has counted less.
  pub Grows : World N → World N → Type 0
  Grows u w =
      (tag : Text) → AtMost (total_of tag u.traffic_sessions) (total_of tag w.traffic_sessions)

  -- The tunnel does not go down.
  unfoldable pub StaysUp : Type 0
  StaysUp = (n : N) → (core.is_vpn_connected n).0 ≢ returned false

  hook_unless-Grows : (b : Bool) (w : World N) → Grows w (hook_unless b w)
  unfolding Grows hook_unless
  hook_unless-Grows true w tag = AtMost-refl _
  hook_unless-Grows false w tag = AtMost-refl _

  ensure-Grows : (w : World N) → Grows w (ensure_session_state_hook w)
  unfolding ensure_session_state_hook
  ensure-Grows w = hook_unless-Grows w.session_state_hook_registered w

  interlude-Grows : (i : Interlude) (w : World N) → Grows w (interlude i w)
  unfolding Grows interlude
  interlude-Grows (changed state message) w tag =
      call_listeners-grows (emit state message w.listeners) tag w.traffic_sessions
  interlude-Grows (polled t raw) w tag =
      let u = ensure_session_state_hook w in
      AtMost-trans (ensure-Grows w tag) (update_session-grows t raw tag u.traffic_sessions)
  interlude-Grows (armed_with config) w tag = AtMost-refl _

  answered-Grows :
      (r : Outcome Bool) (u w : World N)
      → Grows u w
      → r ≢ returned false
      → Grows u (continued (λ up. modify λ v. if up then v else reset_traffic_sessions v) r w).1
  answered-Grows (returned true) u w h up = h
  answered-Grows (returned false) u w h up = absurd (up refl)
  answered-Grows (thrown e) u w h up = h

  Grows-IsKept : StaysUp → IsKept core Grows
  unfolding Grows StaysUp reset_if_down call on_state_change off_state_change
  Grows-IsKept up = record {
    same = λ w tag. AtMost-refl _;
    chain = λ u v w h j tag. AtMost-trans (h tag) (j tag);
    native_changes = λ w n tag. AtMost-refl _;
    armed_changes = λ w config tag. AtMost-refl _;
    hooks = ensure-Grows;
    updates = λ w tag raw h shown. update_session-grows tag raw shown w.traffic_sessions;
    interludes_keep = interlude-Grows;
    resets = λ w.
        answered-Grows (core.is_vpn_connected w.native).0 w _ (λ tag. AtMost-refl _) (up w.native);
    subscriptions = λ i w. ((λ tag. AtMost-refl _), (λ tag. AtMost-refl _));
  }

  performs-Grows :
      (ops : List Operation) (w : World N)
      → StaysUp
      → All (λ op. is_disconnect op ≡ false) ops
      → Grows w (performs core ops w)
  unfolding performs Grows
  performs-Grows [] w up h tag = AtMost-refl _
  performs-Grows (op ∷ ops) w up (kept, h) tag =
      AtMost-trans (perform-R core Grows (Grows-IsKept up) op w kept tag)
        (performs-Grows ops (perform core op w) up h tag)

  returned-injective : {A : Type 0} {a b : A} → returned a ≡ returned b → a ≡ b
  returned-injective h = cc h

  show_totals-shown :
      (tag : Text) (r : Outcome TrafficStats) (w : World N) (a : TrafficStats)
      → (continued (show_totals core tag) r w).0 ≡ returned a
      → a ≡ total_of tag (continued (show_totals core tag) r w).1.traffic_sessions
  unfolding show_totals
  show_totals-shown tag (returned raw) w a h =
      sym (returned-injective h) ∙ update_session-shown tag raw w.traffic_sessions
  show_totals-shown tag (thrown e) w a h = cc h

  stats-shown :
      (tag : Text) (w : World N) (a : TrafficStats)
      → (stats core tag w).0 ≡ returned a
      → a ≡ total_of tag (stats core tag w).1.traffic_sessions
  unfolding stats
  stats-shown tag w a h =
      let ask = attempt (await (core.get_stats tag)) (rethrow stats_unavailable) in
      let v = ensure_session_state_hook w in show_totals-shown tag (ask v).0 (ask v).1 a h

  -- On a native object whose tunnel does not go down, whatever calls of the client but `disconnect` and
  -- whatever events and polls come between two `stats()` of a tag that return, also a switch of servers
  -- or a failed one, the second shows at least the first's counters.
  pub stats-AtMost :
      (tag : Text) (w : World N) (ops : List Operation) (first second : TrafficStats)
      → StaysUp
      → All (λ op. is_disconnect op ≡ false) ops
      → (stats core tag w).0 ≡ returned first
      → (stats core tag (performs core ops (stats core tag w).1)).0 ≡ returned second
      → AtMost first second
  unfolding Grows perform
  stats-AtMost tag w ops first second up h one two =
      let u = (stats core tag w).1 in
      let v = performs core ops u in
      let late = perform-R core Grows (Grows-IsKept up) (asks_stats tag) v refl tag in
      rw (stats-shown tag w first one, stats-shown tag v second two)
        (AtMost-trans (performs-Grows ops u up h tag) late)

  interludes-Grows : (is : List Interlude) (w : World N) → Grows w (interludes is w)
  unfolding Grows interludes
  interludes-Grows [] w tag = AtMost-refl _
  interludes-Grows (i ∷ is) w tag =
      AtMost-trans (interlude-Grows i w tag) (interludes-Grows is (interlude i w) tag)

  clear-parts :
      (w : World N)
      → ((clear_connection_info core w).0 ≡ returned tt)
        × ((clear_connection_info core w).1.traffic_sessions ≡ w.traffic_sessions)
  unfolding clear_connection_info call
  clear-parts w = caught-parts (core.set_connection_info [] w.native).0 _

  disconnected-totals :
      (tag : Text) (r : Outcome (Unit {0})) (w u : World N)
      → AtMost (total_of tag w.traffic_sessions) (total_of tag u.traffic_sessions)
      → let (s, v) =
          continued (λ _. modify reset_traffic_sessions >> clear_connection_info core) r u in
        ((r ≡ returned tt) × ((s ≡ returned tt) × (total_of tag v.traffic_sessions ≡ nothing)))
        ⊎ ((e : Thrown) × ((r ≡ thrown e)
              × ((s ≡ thrown e)
                  × AtMost (total_of tag w.traffic_sessions) (total_of tag v.traffic_sessions))))
  unfolding reset_traffic_sessions
  disconnected-totals tag (returned tt) w u h =
      let parts = clear-parts (reset_traffic_sessions u) in
      inl
        (refl, (parts.0, ap (λ ss. total_of tag ss) parts.1 ∙ reset-nothing tag u.traffic_sessions))
  disconnected-totals tag (thrown e) w u h = inr (e, (refl, (refl, h)))

  -- What a `disconnect` does to the totals: when `stopXray` resolves it resolves and every total is 0,
  -- and when it rejects, `disconnect` rejects with the same error and no total falls.
  pub disconnect-totals :
      (tag : Text) (w : World N)
      → let stop = (core.stop_xray w.native).0.0 in
        let (r, v) = disconnect core w in
        ((stop ≡ returned tt) × ((r ≡ returned tt) × (total_of tag v.traffic_sessions ≡ nothing)))
        ⊎ ((e : Thrown) × ((stop ≡ thrown e)
              × ((r ≡ thrown e)
                  × AtMost (total_of tag w.traffic_sessions) (total_of tag v.traffic_sessions))))
  unfolding disconnect await Grows
  disconnect-totals tag w =
      disconnected-totals tag (await core.stop_xray w).0 w (await core.stop_xray w).1 (
        interludes-Grows (core.stop_xray w.native).0.1
          (record w { native = (core.stop_xray w.native).1 }) tag)
