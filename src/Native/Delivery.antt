-- ===== src/Native/Delivery.antt =====
-- The native callback is registered once, and each event reaches each subscribed listener once.
use react_native_nitro_xray.Prelude.{
  Bool, Eq, List, Text, [], ap, arith, false, if◌then◌else◌, ltb, map, refl, true, ℕ, ◌++◌, ◌+◌,
  ◌-◌, ◌∷◌, ◌≡◌,
}
use react_native_nitro_xray.Native.{
  XrayState, has, add, delete, Multiplexer, initial, add_state_listener, unsubscribe, emit,
}

pub data Change {ℓ} (L : Type ℓ) : Type ℓ where
  subscribed : L → Change L
  unsubscribed : L → Change L

-- A truth value as a number.
abbrev pub one_if : Bool → ℕ
one_if b = if b then 1 else 0

module _ {ℓ} {L : Type ℓ} ⦃e : Eq L⦄ where
  unfoldable pub change : Change L → Multiplexer L → Multiplexer L
  change (subscribed l) m = add_state_listener l m
  change (unsubscribed l) m = unsubscribe l m

  unfoldable pub changes : List (Change L) → Multiplexer L → Multiplexer L
  changes [] m = m
  changes (c ∷ cs) m = changes cs (change c m)

  -- Whether `l` is subscribed after the changes, if it was so before: its last change decides.
  abbrev pub subscribed_after : L → List (Change L) → Bool → Bool
  subscribed_after l [] b = b
  subscribed_after l (subscribed k ∷ cs) b =
      subscribed_after l cs (if e.strict k l then true else b)
  subscribed_after l (unsubscribed k ∷ cs) b =
      subscribed_after l cs (if e.strict k l then false else b)

  abbrev pub count : L → List L → ℕ
  count l [] = 0
  count l (k ∷ ks) = (if e.strict k l then 1 else 0) + count l ks

  has-count : (l : L) (ks : List L) → has l ks ≡ ltb 0 (count l ks)
  unfolding has
  has-count l [] = refl
  has-count l (k ∷ ks) = ground (arith, has-count l ks)

  count-concat :
      (l k : L) (ks : List L) → count l (ks ++ k ∷ []) ≡ count l ks + one_if (e.strict k l)
  count-concat l k [] = omega arith
  count-concat l k (j ∷ ks) = omega (arith, count-concat l k ks)

  count-congr : (k l : L) (ks : List L) → e.strict k l ≡ true → count k ks ≡ count l ks
  count-congr k l ks h = ap (λ j. count j ks) ((e.strict_sound k l).0 h)

  count-add :
      (l k : L) (ks : List L) (b : Bool)
      → count l ks ≡ one_if b
      → count l (add k ks) ≡ one_if (if e.strict k l then true else b)
  unfolding add
  count-add l k ks b h = ground (arith, has-count k ks, count-concat l k ks, count-congr k l ks)

  strict_left : (j k l : L) → e.strict j k ≡ true → e.strict j l ≡ e.strict k l
  strict_left j k l h = ap (λ x. e.strict x l) ((e.strict_sound j k).0 h)

  strict_right : (j k l : L) → e.strict k l ≡ true → e.strict j k ≡ e.strict j l
  strict_right j k l h = ap (e.strict j) ((e.strict_sound k l).0 h)

  count-delete_lem :
      (l k : L) (ks : List L)
      → count l (delete k ks) ≡ (if e.strict k l then count l ks - 1 else count l ks)
  unfolding delete
  count-delete_lem l k [] = ground arith
  count-delete_lem l k (j ∷ ks) =
      ground (arith, count-delete_lem l k ks, strict_left j k l, strict_right j k l)

  count-delete :
      (l k : L) (ks : List L) (b : Bool)
      → count l ks ≡ one_if b
      → count l (delete k ks) ≡ one_if (if e.strict k l then false else b)
  count-delete l k ks b h = ground (arith, count-delete_lem l k ks)

  -- What holds between the changes: the flag says whether the native object has its callback, and
  -- it was never given twice.
  pub record IsRegistered (m : Multiplexer L) (b : Bool) : Type ℓ where
    pub flag : m.native_listener_registered ≡ b
    pub once : m.registrations ≡ one_if b

  -- Whether any listener was ever added.
  abbrev pub ever : List (Change L) → Bool → Bool
  ever [] b = b
  ever (subscribed l ∷ cs) b = ever cs true
  ever (unsubscribed l ∷ cs) b = ever cs b

  add-IsRegistered :
      (l : L) (m : Multiplexer L) (b : Bool)
      → IsRegistered m b
      → IsRegistered (add_state_listener l m) true
  unfolding add_state_listener
  add-IsRegistered l m true h = ground arith
  add-IsRegistered l m false h = ground arith

  changes-IsRegistered :
      (cs : List (Change L)) (m : Multiplexer L) (b : Bool)
      → IsRegistered m b
      → IsRegistered (changes cs m) (ever cs b)
  unfolding changes change unsubscribe
  changes-IsRegistered [] m b h = h
  changes-IsRegistered (subscribed l ∷ cs) m b h =
      changes-IsRegistered cs (add_state_listener l m) true (add-IsRegistered l m b h)
  changes-IsRegistered (unsubscribed l ∷ cs) m b h =
      changes-IsRegistered cs (unsubscribe l m) b (record { flag = h.flag; once = h.once })

  listeners-add :
      (l : L) (m : Multiplexer L)
      → (add_state_listener l m).state_listeners ≡ add l m.state_listeners
  unfolding add_state_listener
  listeners-add l m = ground arith

  changes-count :
      (l : L) (cs : List (Change L)) (m : Multiplexer L) (b : Bool)
      → count l m.state_listeners ≡ one_if b
      → count l (changes cs m).state_listeners ≡ one_if (subscribed_after l cs b)
  unfolding changes change unsubscribe
  changes-count l [] m b h = h
  changes-count l (subscribed k ∷ cs) m b h =
      changes-count l cs (add_state_listener k m) (if e.strict k l then true else b)
        (rw (listeners-add k m) (count-add l k m.state_listeners b h))
  changes-count l (unsubscribed k ∷ cs) m b h =
      changes-count l cs (unsubscribe k m) (if e.strict k l then false else b)
        (count-delete l k m.state_listeners b h)

  -- How often an event is delivered to `l`.
  abbrev pub delivered : L → List (L × XrayState × Text) → ℕ
  delivered l [] = 0
  delivered l ((k, s, t) ∷ ds) = one_if (e.strict k l) + delivered l ds

  delivered-map :
      (l : L) (s : XrayState) (t : Text) (ks : List L)
      → delivered l (map (λ k. (k, s, t)) ks) ≡ count l ks
  delivered-map l s t [] = refl
  delivered-map l s t (k ∷ ks) = omega (arith, delivered-map l s t ks)

  -- Subscribed after the changes, and never before them, means that one was a subscription.
  subscribed-ever :
      (l : L) (cs : List (Change L)) (b c : Bool)
      → (b ≡ true → c ≡ true)
      → subscribed_after l cs b ≡ true
      → ever cs c ≡ true
  subscribed-ever l [] b c i h = i h
  subscribed-ever l (subscribed k ∷ cs) b c i h = subscribed-ever l cs _ true (λ _. refl) h
  subscribed-ever l (unsubscribed k ∷ cs) b c i h =
      subscribed-ever l cs (if e.strict k l then false else b) c (λ p. i (ground arith)) h

  -- After any subscriptions and unsubscriptions from the start, an event reaches a listener exactly
  -- once if the last change of this listener was a subscription, and else not at all; and the native
  -- object has been given its callback once, or never if nothing was ever subscribed.
  pub emit-delivered :
      (cs : List (Change L)) (l : L) (s : XrayState) (t : Text)
      → (delivered l (emit s t (changes cs initial)) ≡ one_if (subscribed_after l cs false))
        × ((changes cs (initial {L = L})).registrations ≡ one_if (ever cs false))
  unfolding emit
  emit-delivered cs l s t =
      let m = changes cs (initial {L = L}) in
      let r = changes-IsRegistered cs initial false (record { flag = refl; once = refl }) in
      let c = changes-count l cs initial false refl in
      let to = subscribed-ever l cs false false (λ p. p) in
      (ground (arith, r.once, c, to, delivered-map l s t m.state_listeners), r.once)
