-- ===== src/Urltest/Ranking.antt =====
-- The ranking is the results in the order of their latency, ties in the order of the input.
use mathlib.Core.List.{Perm}
use react_native_nitro_xray.Prelude.{
  refl, All, List, [], arith, false, none, some, true, ℕ, ◌<◌, ◌∷◌, ◌≡◌, ◌≤◌, Option-cases,
  Bool-cases, map, inl, ap, ◌∙◌, inr, ◌+◌, sym, ltb,
}
use mathlib.Core.List.Perm
use react_native_nitro_xray.Urltest.{
  UrlTestResult, Ranked, compare_ranked, comes_first, with_index, insert, sort, rank,
}

-- `a` is ranked before `b`: it was reached faster, or `b` was not reached; ties go by the input.
pub data Before (a b : Ranked) : Type 0 where
  faster :
      (la lb : ℕ)
      → a.result.latency_ms ≡ some la
      → b.result.latency_ms ≡ some lb
      → la < lb
      → Before a b
  reached : (la : ℕ) → a.result.latency_ms ≡ some la → b.result.latency_ms ≡ none → Before a b
  tied : a.result.latency_ms ≡ b.result.latency_ms → a.index ≤ b.index → Before a b

abbrev pub Ordered : List Ranked → Type 0
Ordered [] = Unit
Ordered (a ∷ as') = All (λ b. comes_first a b ≡ true) as' × Ordered as'

total : (a b : Ranked) → comes_first a b ≡ false → comes_first b a ≡ true
unfolding compare_ranked
total a b h = ground arith

trans : (a b c : Ranked) → comes_first a b ≡ true → comes_first b c ≡ true → comes_first a c ≡ true
unfolding compare_ranked
trans a b c h k = ground arith

All-insert :
    (P : Ranked → Type 0) (a : Ranked) (as' : List Ranked) → P a → All P as' → All P (insert a as')
unfolding insert
All-insert P a [] p h = (p, tt)
All-insert P a (b ∷ bs) p (q, h) = elim (Bool-cases (comes_first a b)) [
  | inl first ↦ rw first (p, (q, h))
  | inr later ↦ rw later (q, All-insert P a bs p h)
]

All-trans :
    (a b : Ranked) (bs : List Ranked)
    → comes_first a b ≡ true
    → All (λ c. comes_first b c ≡ true) bs
    → All (λ c. comes_first a c ≡ true) bs
All-trans a b [] h k = tt
All-trans a b (c ∷ bs) h (p, k) = (trans a b c h p, All-trans a b bs h k)

insert-Ordered : (a : Ranked) (as' : List Ranked) → Ordered as' → Ordered (insert a as')
unfolding insert
insert-Ordered a [] h = (tt, tt)
insert-Ordered a (b ∷ bs) (before, h) = elim (Bool-cases (comes_first a b)) [
  | inl first ↦ rw first ((first, All-trans a b bs first before), (before, h))
  | inr later ↦ rw later (
    All-insert (λ c. comes_first b c ≡ true) a bs (total a b later) before,
    insert-Ordered a bs h,
  )
]

insert-perm : (a : Ranked) (as' : List Ranked) → Perm (insert a as') (a ∷ as')
unfolding insert
insert-perm a [] = Perm.refl (a ∷ [])
insert-perm a (b ∷ bs) = elim (Bool-cases (comes_first a b)) [
  | inl first ↦ rw first (Perm.refl (a ∷ b ∷ bs))
  | inr later ↦ rw later (Perm.trans (Perm.cons b (insert-perm a bs)) (Perm.swap a b bs))
]

sort-Ordered : (as' : List Ranked) → Ordered (sort as')
unfolding sort
sort-Ordered [] = tt
sort-Ordered (a ∷ as') = insert-Ordered a (sort as') (sort-Ordered as')

sort-perm : (as' : List Ranked) → Perm (sort as') as'
unfolding sort
sort-perm [] = Perm.refl []
sort-perm (a ∷ as') = Perm.trans (insert-perm a (sort as')) (Perm.cons a (sort-perm as'))

map-with_index :
    (i : ℕ) (rs : List UrlTestResult) → map (λ (a : Ranked). a.result) (with_index i rs) ≡ rs
unfolding with_index
map-with_index i [] = refl
map-with_index i (r ∷ rs) = ap (◌∷◌ r) (map-with_index (i + 1) rs)

comes_first-Before : (a b : Ranked) → comes_first a b ≡ true → Before a b
unfolding compare_ranked
comes_first-Before a b h = elim (Option-cases a.result.latency_ms) [
  | inl ea ↦ elim (Option-cases b.result.latency_ms) [
    | inl eb ↦ tied (ea ∙ sym eb) (ground arith)
    | inr (lb, eb) ↦ absurd (ground arith)
  ]
  | inr (la, ea) ↦ elim (Option-cases b.result.latency_ms) [
    | inl eb ↦ reached la ea eb
    | inr (lb, eb) ↦ elim (Bool-cases (ltb la lb)) [
      | inl lt ↦ faster la lb ea eb (ground arith)
      | inr ge ↦ tied (ea ∙ ap some (ground arith) ∙ sym eb) (ground arith)
    ]
  ]
]

-- Each element is before all those behind it.
abbrev pub IsSorted : List Ranked → Type 0
IsSorted [] = Unit
IsSorted (a ∷ as') = All (Before a) as' × IsSorted as'

Ordered-IsSorted : (as' : List Ranked) → Ordered as' → IsSorted as'
Ordered-IsSorted [] h = tt
Ordered-IsSorted (a ∷ as') (p, h) = (all_before as' p, Ordered-IsSorted as' h)
  where
    all_before : (bs : List Ranked) → All (λ b. comes_first a b ≡ true) bs → All (Before a) bs
    all_before [] k = tt
    all_before (b ∷ bs) (q, k) = (comes_first-Before a b q, all_before bs k)

-- A list is a ranking of the results if it is the results of `order`, which is all of them, each at
-- its position, sorted by `Before`.
pub record IsRanking (results ranked : List UrlTestResult) : Type 0 where
  pub order : List Ranked
  pub shown : ranked ≡ map (λ (a : Ranked). a.result) order
  pub all : Perm order (with_index 0 results)
  pub sorted : IsSorted order

-- The ranked list holds exactly the given results, the fastest first, those that were not reached
-- last, and equal ones in the order of the input.
pub rank-IsRanking :
    (results : List UrlTestResult) → IsRanking results (rank results) × Perm (rank results) results
unfolding rank
rank-IsRanking results =
    let order = sort (with_index 0 results) in
    let all = sort-perm (with_index 0 results) in
    (
      record {
        order = order;
        shown = refl;
        all = all;
        sorted = Ordered-IsSorted order (sort-Ordered (with_index 0 results));
      },
      rw (map-with_index 0 results) at (Perm.map (λ (a : Ranked). a.result) all),
    )
