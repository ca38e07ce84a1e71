-- ===== src/Urltest/Pool/Counts.antt =====
-- Counting the workers that wait for a server, and those that have returned.
use react_native_nitro_xray.Prelude.{
  Bool, List, Option, [], arith, get_or, if◌then◌else◌, inl, inr, is_some, length, none, refl, set,
  some, suc, zero, ℕ, ◌++◌, ◌+◌, ◌<◌, ◌==◌, ◌∷◌, ◌≡◌, ◌≤◌, ◌⊎◌,
}
use react_native_nitro_xray.Urltest.{UrlTestResult}
use react_native_nitro_xray.Urltest.Pool.{Pool}

abbrev pub one_if : Bool → ℕ
one_if b = if b then 1 else 0

abbrev pub waits : Option ℕ → ℕ → ℕ
waits none i = 0
waits (some j) i = one_if (j == i)

-- How many workers wait for server `i`.
abbrev pub in_flight : List (Option ℕ) → ℕ → ℕ
in_flight [] i = 0
in_flight (b ∷ bs) i = waits b i + in_flight bs i

abbrev pub slot : Pool → ℕ → Option UrlTestResult
slot p i = get_or p.results i none

-- How often the result of server `i` is there.
abbrev pub filled : Pool → ℕ → ℕ
filled p i = one_if (is_some (slot p i))

pub in_flight-set :
    (bs : List (Option ℕ)) (w : ℕ) (b : Option ℕ) (i : ℕ)
    → w < length bs
    → in_flight (set bs w b) i + waits (get_or bs w none) i ≡ in_flight bs i + waits b i
in_flight-set [] w b i h = elim h [ ]
in_flight-set (c ∷ bs) zero b i h = omega arith
in_flight-set (c ∷ bs) (suc w) b i h = omega (arith, in_flight-set bs w b i (omega arith))

pub in_flight-concat :
    (bs : List (Option ℕ)) (b : Option ℕ) (i : ℕ)
    → in_flight (bs ++ b ∷ []) i ≡ in_flight bs i + waits b i
in_flight-concat [] b i = omega arith
in_flight-concat (c ∷ bs) b i = omega (arith, in_flight-concat bs b i)

pub lt_of_busy : (bs : List (Option ℕ)) (w : ℕ) {i : ℕ} → get_or bs w none ≡ some i → w < length bs
lt_of_busy [] w h = cc
lt_of_busy (b ∷ bs) zero h = omega arith
lt_of_busy (b ∷ bs) (suc w) h = omega (arith, lt_of_busy bs w h)

abbrev pub has_returned : Option ℕ → ℕ
has_returned none = 1
has_returned (some j) = 0

-- How many workers have returned.
abbrev pub returned : List (Option ℕ) → ℕ
returned [] = 0
returned (b ∷ bs) = has_returned b + returned bs

pub returned-set :
    (bs : List (Option ℕ)) (w : ℕ) (b : Option ℕ)
    → w < length bs
    → returned (set bs w b) + has_returned (get_or bs w none) ≡ returned bs + has_returned b
returned-set [] w b h = elim h [ ]
returned-set (c ∷ bs) zero b h = omega arith
returned-set (c ∷ bs) (suc w) b h = omega (arith, returned-set bs w b (omega arith))

pub returned-concat :
    (bs : List (Option ℕ)) (b : Option ℕ) → returned (bs ++ b ∷ []) ≡ returned bs + has_returned b
returned-concat [] b = omega arith
returned-concat (c ∷ bs) b = omega (arith, returned-concat bs b)

pub in_flight-pos :
    (bs : List (Option ℕ)) (w i : ℕ) → get_or bs w none ≡ some i → 1 ≤ in_flight bs i
in_flight-pos [] w i h = cc
in_flight-pos (b ∷ bs) zero i h = rw h (ground arith)
in_flight-pos (b ∷ bs) (suc w) i h = omega (arith, in_flight-pos bs w i h)

pub returned_le : (bs : List (Option ℕ)) → returned bs ≤ length bs
returned_le [] = omega arith
returned_le (none ∷ bs) = omega (arith, returned_le bs)
returned_le (some j ∷ bs) = omega (arith, returned_le bs)

pub in_flight-returned :
    (bs : List (Option ℕ)) (i : ℕ) → returned bs ≡ length bs → in_flight bs i ≡ 0
in_flight-returned [] i h = refl
in_flight-returned (none ∷ bs) i h = omega (arith, in_flight-returned bs i (omega arith))
in_flight-returned (some j ∷ bs) i h = omega (arith, returned_le bs)

pub busy-or_returned :
    (bs : List (Option ℕ))
    → (returned bs ≡ length bs) ⊎ ((w : ℕ) × (i : ℕ) × (get_or bs w none ≡ some i))
busy-or_returned [] = inl refl
busy-or_returned (some i ∷ bs) = inr (0, i, refl)
busy-or_returned (none ∷ bs) = elim (busy-or_returned bs) [
  | inl all ↦ inl (omega (arith, all))
  | inr (w, i, h) ↦ inr (suc w, i, h)
]
