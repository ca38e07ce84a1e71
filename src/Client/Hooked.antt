-- ===== src/Client/Hooked.antt =====
-- src/client.ts: once the hook of the traffic sessions is registered, it stays so.
use react_native_nitro_xray.Client.{rethrow}
use react_native_nitro_xray.Prelude.{refl, Bool, List, [], false, true, ◌∷◌, ◌≡◌}
use react_native_nitro_xray.Errors.{XrayErrorCode}
use react_native_nitro_xray.Client.Engine.{
  Outcome, returned, thrown, Interlude, World, caught, Async, changed, polled, armed_with,
}
use react_native_nitro_xray.Client.Sessions.{
  hook_unless, ensure_session_state_hook, await, interlude, interludes,
}

module _ {N : Type 0} where
  hook_unless-registered :
      (b : Bool) (w : World N)
      → w.session_state_hook_registered ≡ b
      → (hook_unless b w).session_state_hook_registered ≡ true
  unfolding hook_unless
  hook_unless-registered true w h = h
  hook_unless-registered false w h = refl

  pub hook-registered :
      (w : World N) → (ensure_session_state_hook w).session_state_hook_registered ≡ true
  unfolding ensure_session_state_hook
  hook-registered w = hook_unless-registered w.session_state_hook_registered w refl

  interlude-hooked :
      (i : Interlude) (w : World N)
      → w.session_state_hook_registered ≡ true
      → (interlude i w).session_state_hook_registered ≡ true
  unfolding interlude
  interlude-hooked (changed state message) w h = h
  interlude-hooked (polled tag raw) w h = hook-registered w
  interlude-hooked (armed_with config) w h = h

  interludes-hooked :
      (is : List Interlude) (w : World N)
      → w.session_state_hook_registered ≡ true
      → (interludes is w).session_state_hook_registered ≡ true
  unfolding interludes
  interludes-hooked [] w h = h
  interludes-hooked (i ∷ is) w h = interludes-hooked is (interlude i w) (interlude-hooked i w h)

  pub await-hooked :
      {A : Type 0} (f : Async N A) (w : World N)
      → w.session_state_hook_registered ≡ true
      → (await f w).1.session_state_hook_registered ≡ true
  unfolding await
  await-hooked f w h = interludes-hooked (f w.native).0.1 (record w { native = (f w.native).1 }) h

  pub rethrow-hooked :
      {A : Type 0} (r : Outcome A) (code : XrayErrorCode) (v : World N)
      → v.session_state_hook_registered ≡ true
      → (caught (rethrow code) r v).1.session_state_hook_registered ≡ true
  rethrow-hooked (returned a) code v h = h
  rethrow-hooked (thrown e) code v h = h
