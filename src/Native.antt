-- ===== src/Native.antt =====
-- src/native.ts: the state listeners, a JavaScript `Set` of functions behind the single callback of
-- the native object. A listener is known by its identity; a `Set` is its elements in the order in
-- which they were inserted. Listeners that add or remove listeners while they are called are not
-- modelled.
pub mod Delivery
mod Tests
use react_native_nitro_xray.Prelude.{
  [], Bool, Eq, List, Text, false, if◌then◌else◌, ltb, map, true, ℕ, ◌++◌, ◌+◌, ◌||◌, ◌∷◌,
}

-- `XrayState` of src/specs/nitro-xray-core.nitro.ts.
pub data XrayState : Type 0 where
  disconnected connecting connected disconnecting error reconnecting blocked : XrayState

module _ {ℓ} {L : Type ℓ} ⦃e : Eq L⦄ where
  unfoldable pub has : L → List L → Bool
  has l [] = false
  has l (k ∷ ks) = e.strict k l || has l ks

  -- `set.add(l)`.
  unfoldable pub add : L → List L → List L
  add l ks = if has l ks then ks else ks ++ l ∷ []

  -- `set.delete(l)`.
  unfoldable pub delete : L → List L → List L
  delete l [] = []
  delete l (k ∷ ks) = if e.strict k l then ks else k ∷ delete l ks

-- The variables of the module, and how often `onStateChange` of the native object was called.
pub record Multiplexer {ℓ} (L : Type ℓ) : Type ℓ where
  pub state_listeners : List L
  pub native_listener_registered : Bool
  pub registrations : ℕ

abbrev pub initial {ℓ} : {L : Type ℓ} → Multiplexer L
initial = record { state_listeners = []; native_listener_registered = false; registrations = 0 }

unfoldable pub ensure_native_listener {ℓ} : {L : Type ℓ} → Multiplexer L → Multiplexer L
ensure_native_listener m =
    if m.native_listener_registered
    then m
    else (record m { native_listener_registered = true; registrations = m.registrations + 1 })

module _ {ℓ} {L : Type ℓ} ⦃e : Eq L⦄ where
  unfoldable pub add_state_listener : L → Multiplexer L → Multiplexer L
  unfolding ensure_native_listener
  add_state_listener l m =
      let m' = ensure_native_listener m in record m' { state_listeners = add l m'.state_listeners }

  -- The function that `addStateListener` returns.
  unfoldable pub unsubscribe : L → Multiplexer L → Multiplexer L
  unsubscribe l m = record m { state_listeners = delete l m.state_listeners }

-- The calls that one native event makes, in order: the native object has a callback once it has
-- been given one.
unfoldable pub emit {ℓ} :
    {L : Type ℓ} → XrayState → Text → Multiplexer L → List (L × XrayState × Text)
emit state message m =
    if ltb 0 m.registrations then map (λ l. (l, state, message)) m.state_listeners else []
