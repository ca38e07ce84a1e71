-- ===== src/Versions/Entry.antt =====
-- The entry that scripts/gen-core-versions.ts finds in a buffer.
use react_native_nitro_xray.Prelude.{
  All, Bool-cases, Option-cases, Text, [], ap, arith, drop, eqb_iff, eqb_refl, false, inl, inr,
  length, none, refl, some, suc, true, truthy, ℕ, ◌++◌, ◌<◌, ◌==◌, ◌∙◌, ◌∷◌, ◌≡◌, ◌≢◌,
}
use react_native_nitro_xray.Versions.Generator.{
  behind, after_needle, ends_version, version_at, needle_of, find_dep_version,
}

-- A version: a byte at least, and none that would end it.
pub record IsVersion (v : Text) : Type 0 where
  pub filled : v ≢ []
  pub clean : All (λ b. ends_version b ≡ false) v

-- What follows a version: nothing, or a byte that ends it.
abbrev pub Stops : Text → Type 0
Stops [] = Unit
Stops (b ∷ s) = ends_version b ≡ true

behind-append : (needle s : Text) → behind needle (needle ++ s) ≡ some s
unfolding behind
behind-append [] s = refl
behind-append (n ∷ needle) s = rw (eqb_refl n) (behind-append needle s)

behind_sound : (needle s rest : Text) → behind needle s ≡ some rest → s ≡ needle ++ rest
unfolding behind
behind_sound [] s rest h = cc h
behind_sound (n ∷ needle) [] rest h = cc h
behind_sound (n ∷ needle) (c ∷ s) rest h = elim (Bool-cases (c == n)) [
  | inl same ↦
      let e : c ≡ n = (eqb_iff c n).0 same in
      rw e (ap (λ t. n ∷ t) (behind_sound needle s rest (rw same at h)))
  | inr other ↦ cc (rw other at h)
]

after_needle-here :
    (needle s rest : Text) → behind needle s ≡ some rest → after_needle needle s ≡ some rest
unfolding after_needle
after_needle-here needle [] rest h = h
after_needle-here needle (b ∷ s) rest h = rw (h, after_needle) refl

after_needle-append :
    (needle before rest : Text)
    → ((k : ℕ) → k < length before → behind needle (drop k (before ++ needle ++ rest)) ≡ none)
    → after_needle needle (before ++ needle ++ rest) ≡ some rest
unfolding after_needle
after_needle-append needle [] rest h =
    after_needle-here needle (needle ++ rest) rest (behind-append needle rest)
after_needle-append needle (b ∷ before) rest h =
    let here : behind needle (b ∷ before ++ needle ++ rest) ≡ none = h 0 (omega arith) in
    rw (here, after_needle)
      (after_needle-append needle before rest (λ k j. h (suc k) (omega arith)))

after_needle_sound :
    (needle s rest : Text)
    → after_needle needle s ≡ some rest
    → (before : Text) × (s ≡ before ++ needle ++ rest)
unfolding after_needle
after_needle_sound needle [] rest h = ([], behind_sound needle [] rest h)
after_needle_sound needle (b ∷ s) rest h = elim (Option-cases (behind needle (b ∷ s))) [
  | inl later ↦
      let (before, e) = after_needle_sound needle s rest (rw (later, after_needle) at h) in
      (b ∷ before, ap (λ t. b ∷ t) e)
  | inr (r, here) ↦
      let same : r ≡ rest = cc (rw (here, after_needle) at h) in
      ([], rw (← same) (behind_sound needle (b ∷ s) r here))
]

version_at-append :
    (v after : Text)
    → All (λ b. ends_version b ≡ false) v
    → Stops after
    → version_at (v ++ after) ≡ v
unfolding version_at
version_at-append [] [] h k = refl
version_at-append [] (b ∷ after) h k = rw k refl
version_at-append (b ∷ v) after (h, hs) k = rw h (ap (λ t. b ∷ t) (version_at-append v after hs k))

-- How a text splits where its version ends.
record Read (s : Text) : Type 0 where
  after : Text
  parts : s ≡ version_at s ++ after
  all_clean : All (λ b. ends_version b ≡ false) (version_at s)
  stops : Stops after

version_at-Read : (s : Text) → Read s
unfolding version_at
version_at-Read [] = record { after = []; parts = refl; all_clean = tt; stops = tt }
version_at-Read (b ∷ s) = elim (Bool-cases (ends_version b)) [
  | inl stop ↦ record {
    after = b ∷ s;
    parts = rw (stop, version_at) refl;
    all_clean = rw (stop, version_at) tt;
    stops = stop;
  }
  | inr more ↦
      let r = version_at-Read s in
      record {
        after = r.after;
        parts = rw (more, version_at) (ap (λ t. b ∷ t) r.parts);
        all_clean = rw (more, version_at) (more, r.all_clean);
        stops = r.stops;
      }
]

truthy-filled : (v : Text) → v ≢ [] → truthy (some v) ≡ some v
truthy-filled [] h = absurd (h refl)
truthy-filled (c ∷ v) h = refl

-- A version behind the first entry for a module is found, up to the byte that ends it or the end of the
-- buffer.
pub find_dep_version-append :
    (before path v after : Text)
    → IsVersion v
    → Stops after
    → ((k : ℕ)
        → k < length before
        → behind (needle_of path) (drop k (before ++ needle_of path ++ (v ++ after))) ≡ none)
    → find_dep_version (before ++ needle_of path ++ (v ++ after)) path ≡ some v
unfolding find_dep_version
find_dep_version-append before path v after version stops first =
    rw
      (
        after_needle-append (needle_of path) before (v ++ after) first,
        version_at-append v after version.clean stops,
        find_dep_version,
      )
      (truthy-filled v version.filled)

-- Where the buffer has an entry for the module.
pub record IsEntry (buf path v : Text) : Type 0 where
  pub before : Text
  pub after : Text
  pub parts : buf ≡ before ++ needle_of path ++ (v ++ after)
  pub version : IsVersion v
  pub stops : Stops after

truthy-some : (u v : Text) → truthy (some u) ≡ some v → (u ≡ v) × (v ≢ [])
truthy-some [] v h = cc h
truthy-some (c ∷ u) v h = (cc h, λ e. cc (h, e))

-- Whatever is found stands behind an entry for the module, has a byte at least, has no byte that would
-- end it, and ends where such a byte or the end of the buffer is.
pub find_dep_version-IsEntry :
    (buf path v : Text) → find_dep_version buf path ≡ some v → IsEntry buf path v
unfolding find_dep_version
find_dep_version-IsEntry buf path v h = elim (Option-cases (after_needle (needle_of path) buf)) [
  | inl nothing ↦ cc (rw (nothing, find_dep_version) at h)
  | inr (rest, found) ↦
      let (before, e) = after_needle_sound (needle_of path) buf rest found in
      let r = version_at-Read rest in
      let (same, filled) = truthy-some (version_at rest) v (rw (found, find_dep_version) at h) in
      record {
        before = before;
        after = r.after;
        parts = e ∙ ap (λ t. before ++ needle_of path ++ t) (r.parts ∙ ap (λ t. t ++ r.after) same);
        version = record { filled = filled; clean = rw same at r.all_clean };
        stops = r.stops;
      }
]
