-- ===== src/Versions/Matching.antt =====
-- What the two expressions of src/versions/parse.ts match.
use react_native_nitro_xray.Prelude.{
  All, Bool-cases, Lacks, List, Option-cases, Text, [], ap, arith, false, inl, inr, length,
  length-append, none, refl, some, true, ℕ, ◌++◌, ◌+◌, ◌∷◌, ◌≡◌, ◌≢◌,
}
use react_native_nitro_xray.Versions.{
  Class, digit, matches, all_digits, some_digits, tag_classes, tag_groups, tagged, pseudo_classes,
  ends, pseudo,
}

-- Units that the classes accept, one by one.
abbrev pub Accepts : List Class → Text → Type 0
Accepts [] [] = Unit
Accepts (p ∷ ps) (c ∷ s) = (p c ≡ true) × Accepts ps s
Accepts _ _ = ⊥

pub matches-append :
    (ps qs : List Class) (s t : Text) → Accepts ps s → matches (ps ++ qs) (s ++ t) ≡ matches qs t
unfolding matches
matches-append [] qs [] t h = refl
matches-append (p ∷ ps) qs (c ∷ s) t (h, k) = rw h (matches-append ps qs s t k)
matches-append [] qs (c ∷ s) t h = elim h [ ]
matches-append (p ∷ ps) qs [] t h = elim h [ ]

pub some_same : {A : Type 0} {a b : A} → some a ≡ some b → a ≡ b
some_same h = cc h

pub matches-Accepts : (ps : List Class) (s : Text) → Accepts ps s → matches ps s ≡ some []
unfolding matches
matches-Accepts [] [] h = refl
matches-Accepts (p ∷ ps) (c ∷ s) (h, k) = rw h (matches-Accepts ps s k)
matches-Accepts [] (c ∷ s) h = elim h [ ]
matches-Accepts (p ∷ ps) [] h = elim h [ ]

pub Accepts-append :
    (ps qs : List Class) (s t : Text) → Accepts ps s → Accepts qs t → Accepts (ps ++ qs) (s ++ t)
Accepts-append [] qs [] t h k = k
Accepts-append (p ∷ ps) qs (c ∷ s) t (h, hs) k = (h, Accepts-append ps qs s t hs k)
Accepts-append [] qs (c ∷ s) t h k = elim h [ ]
Accepts-append (p ∷ ps) qs [] t h k = elim h [ ]

matches-length :
    (ps : List Class) (s t : Text) → matches ps s ≡ some t → length s ≡ length ps + length t
unfolding matches
matches-length [] s t h = omega (arith, ap (λ s. length s) (some_same h))
matches-length (p ∷ ps) [] t h = cc
matches-length (p ∷ ps) (c ∷ s) t h = elim (Bool-cases (p c)) [
  | inl fits ↦ omega (arith, matches-length ps s t (rw fits at h))
  | inr other ↦ cc (rw other at h)
]

-- Classes without the dash match no dash.
matches-Lacks :
    (ps : List Class) (s t : Text)
    → All (λ p. p b'-' ≡ false) ps
    → matches ps s ≡ some t
    → Lacks b'-' t
    → Lacks b'-' s
unfolding matches
matches-Lacks [] s t a h l = rw (some_same h) l
matches-Lacks (p ∷ ps) [] t a h l = cc
matches-Lacks (p ∷ ps) (c ∷ s) t (q, a) h l = elim (Bool-cases (p c)) [
  | inl fits ↦ (λ (e : c ≡ b'-'). cc (fits, q, ap p e), matches-Lacks ps s t a (rw fits at h) l)
  | inr other ↦ cc (rw other at h)
]

all_digits-Lacks : (s : Text) → all_digits s ≡ true → Lacks b'-' s
unfolding all_digits
all_digits-Lacks [] h = tt
all_digits-Lacks (c ∷ s) h = elim (Bool-cases (digit c)) [
  | inl fits ↦ (ground (arith, fits), all_digits-Lacks s (rw fits at h))
  | inr other ↦ cc (rw other at h)
]

some_digits-Lacks : (s : Text) → some_digits s ≡ true → Lacks b'-' s
some_digits-Lacks [] h = tt
some_digits-Lacks (c ∷ s) h = all_digits-Lacks (c ∷ s) h

-- No release tag has a dash.
dashed-tag : (base after : Text) → Lacks b'-' (base ++ b'-' ∷ after) → ⊥
dashed-tag [] after (h, k) = h refl
dashed-tag (c ∷ base) after (h, k) = dashed-tag base after k

tag_classes-dash : All (λ p. p b'-' ≡ false) tag_classes
tag_classes-dash =
    (refl, (refl, (refl, (refl, (refl, (refl, (refl, (refl, (refl, (refl, tt))))))))))

pub tagged-dash : (base after : Text) → tagged (base ++ b'-' ∷ after) ≡ none
unfolding tagged tag_groups
tagged-dash base after = elim (Option-cases (matches tag_classes (base ++ b'-' ∷ after))) [
  | inl nothing ↦ rw nothing refl
  | inr (rest, found) ↦ elim (Bool-cases (some_digits rest)) [
    | inl digits ↦ absurd (
        dashed-tag base after
          (matches-Lacks tag_classes _ rest tag_classes-dash found (some_digits-Lacks rest digits)))
    | inr other ↦ rw found (rw other refl)
  ]
]

ends-length : (s : Text) → ends s ≡ true → length s ≡ 28
ends-length s h = elim (Option-cases (matches pseudo_classes s)) [
  | inl nothing ↦ cc (rw nothing at h)
  | inr ([], found) ↦ matches-length pseudo_classes s [] found
  | inr (c ∷ t, found) ↦ cc (rw found at h)
]

longer : (c : ℕ) (base stamp : Text) → length stamp ≡ 28 → length (c ∷ base ++ stamp) ≢ 28
longer c base stamp h k = omega (arith, h, k, length-append base stamp)

-- Whatever comes before it, the stamp at the end is what the second expression finds.
pub pseudo-append : (base stamp : Text) → ends stamp ≡ true → pseudo (base ++ stamp) ≡ some stamp
unfolding pseudo matches
pseudo-append [] [] h = cc h
pseudo-append [] (c ∷ stamp) h = rw h refl
pseudo-append (c ∷ base) stamp h = elim (Bool-cases (ends (c ∷ base ++ stamp))) [
  | inl early ↦
      absurd (longer c base stamp (ends-length stamp h) (ends-length (c ∷ base ++ stamp) early))
  | inr late ↦ rw late (pseudo-append base stamp h)
]
