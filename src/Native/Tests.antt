-- ===== src/Native/Tests.antt =====
-- Runs of src/native.ts, and its theorem at a concrete sequence of subscriptions.
use react_native_nitro_xray.Prelude.{nat_eq, List, [], false, refl, ℕ, ◌∷◌, ◌≡◌}
use react_native_nitro_xray.Native.{
  connected, initial, has, add, delete, add_state_listener, unsubscribe, emit,
}
use react_native_nitro_xray.Native.Delivery.{
  Change, subscribed, unsubscribed, changes, change, delivered, one_if, subscribed_after, ever,
  emit-delivered,
}

-- Listener 2 is added twice and removed by the first of the two functions returned.
abbrev session : List (Change ℕ)
session = subscribed 1 ∷ subscribed 2 ∷ subscribed 2 ∷ unsubscribed 2 ∷ subscribed 3 ∷ []

in_order :
    emit connected [] (changes session initial) ≡ (1, connected, []) ∷ (3, connected, []) ∷ []
unfolding emit changes change add_state_listener unsubscribe add delete has
in_order = refl

emit-delivered_example :
    (delivered 3 (emit connected [] (changes session initial))
      ≡ one_if (subscribed_after 3 session false))
    × ((changes session (initial {L = ℕ})).registrations ≡ one_if (ever session false))
emit-delivered_example = emit-delivered session 3 connected []
