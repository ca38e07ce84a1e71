-- ===== src/Versions/Display.antt =====
-- src/versions/parse.ts on the versions that Go and XTLS write.
use react_native_nitro_xray.Prelude.{
  List, Text, [], ap, append_assoc, arith, codes, drop, drop-append_cons, length, none, refl,
  replicate, some, suc, sym, take, true, ℕ, ◌%◌, ◌*◌, ◌++◌, ◌+◌, ◌/◌, ◌<◌, ◌∙◌, ◌∷◌, ◌≡◌,
}
use react_native_nitro_xray.Subscription.Numbers.Digits.{read_digit, digits_value-end}
use react_native_nitro_xray.Versions.{
  Class, digit, hex, separator, literal, matches, some_digits, tag_classes, tag_groups, tagged,
  pseudo_classes, ends, number, dotted, xray_display_version, pseudo_version_identity,
}
use react_native_nitro_xray.Versions.Matching.{
  Accepts, matches-append, Accepts-append, matches-Accepts, tagged-dash, pseudo-append,
}

abbrev pub two : ℕ → Text
two n = (n / 10 + b'0') ∷ (n % 10 + b'0') ∷ []

abbrev pub four : ℕ → Text
four n = (n / 1000 + b'0') ∷ (n / 100 % 10 + b'0') ∷ (n / 10 % 10 + b'0') ∷ (n % 10 + b'0') ∷ []

digit_of : (d : ℕ) → d < 10 → digit (d + b'0') ≡ true
digit_of d h = ground arith

number-two : (n : ℕ) → n < 100 → number (two n) ≡ n
number-two n h =
    read_digit 0 (n / 10) ((n % 10 + b'0') ∷ []) (omega arith)
    ∙ (read_digit (0 * 10 + n / 10) (n % 10) [] (omega arith)
        ∙ (digits_value-end ((0 * 10 + n / 10) * 10 + n % 10) ∙ omega arith))

number-four : (n : ℕ) → n < 10000 → number (four n) ≡ n
number-four n h =
    read_digit 0 (n / 1000) _ (omega arith)
    ∙ (read_digit (0 * 10 + n / 1000) (n / 100 % 10) _ (omega arith)
        ∙ (read_digit ((0 * 10 + n / 1000) * 10 + n / 100 % 10) (n / 10 % 10) _ (omega arith)
            ∙ (read_digit (((0 * 10 + n / 1000) * 10 + n / 100 % 10) * 10 + n / 10 % 10) (n % 10) []
                  (omega arith)
                ∙ (digits_value-end _ ∙ omega arith))))

-- `v1.YYMMDD.` and a patch number.
abbrev pub release : ℕ → ℕ → ℕ → Text → Text
release y m d patch = codes "v1." ++ two y ++ two m ++ two d ++ b'.' ∷ patch

-- What a pseudo-version ends with.
abbrev pub stamp : ℕ → ℕ → ℕ → ℕ → Text → Text → Text
stamp sep y m d time sha = sep ∷ (four y ++ two m ++ two d ++ time ++ b'-' ∷ sha)

tagged-release :
    (y m d : ℕ) (patch : Text)
    → y < 100
    → m < 100
    → d < 100
    → some_digits patch ≡ true
    → tagged (release y m d patch) ≡ some (two y ++ two m ++ two d)
unfolding tagged tag_groups matches
tagged-release y m d patch hy hm hd h =
    let accepted : Accepts tag_classes (codes "v1." ++ two y ++ two m ++ two d ++ b'.' ∷ []) = (
      refl,
      (
        refl,
        (
          refl,
          (
            digit_of (y / 10) (omega arith),
            (
              digit_of (y % 10) (omega arith),
              (
                digit_of (m / 10) (omega arith),
                (
                  digit_of (m % 10) (omega arith),
                  (digit_of (d / 10) (omega arith), (digit_of (d % 10) (omega arith), (refl, tt))),
                ),
              ),
            ),
          ),
        ),
      ),
    ) in
    let found : matches tag_classes (release y m d patch) ≡ some patch =
      matches-append tag_classes [] (codes "v1." ++ two y ++ two m ++ two d ++ b'.' ∷ []) patch
        accepted in
    rw found (rw h refl)

dotted-two :
    (y m d : ℕ)
    → y < 100
    → m < 100
    → d < 100
    → dotted (number (two y)) (number (two m)) (number (two d)) ≡ dotted y m d
dotted-two y m d hy hm hd = rw (number-two y hy, number-two m hm, number-two d hd) refl

-- The tag of a release, whose patch number has a digit at least, is shown as year, month and day,
-- without leading zeros.
pub xray_display_version-release :
    (y m d : ℕ) (patch : Text)
    → y < 100
    → m < 100
    → d < 100
    → some_digits patch ≡ true
    → xray_display_version (release y m d patch) ≡ some (dotted y m d)
unfolding xray_display_version
xray_display_version-release y m d patch hy hm hd h =
    rw (tagged-release y m d patch hy hm hd h, xray_display_version)
      (ap some (dotted-two y m d hy hm hd))

Accepts-length : (ps : List Class) (s : Text) → Accepts ps s → length s ≡ length ps
Accepts-length [] [] h = refl
Accepts-length (p ∷ ps) (c ∷ s) (h, k) = ap suc (Accepts-length ps s k)
Accepts-length [] (c ∷ s) h = elim h [ ]
Accepts-length (p ∷ ps) [] h = elim h [ ]

-- A time of six digits.
abbrev pub IsTime : Text → Type 0
IsTime = Accepts (replicate 6 digit)

abbrev pub IsHash : Text → Type 0
IsHash = Accepts (replicate 12 hex)

ends-stamp :
    (sep y m d : ℕ) (time sha : Text)
    → separator sep ≡ true
    → y < 10000
    → m < 100
    → d < 100
    → IsTime time
    → IsHash sha
    → ends (stamp sep y m d time sha) ≡ true
ends-stamp sep y m d time sha h hy hm hd ht hs =
    let rest =
      Accepts-append (replicate 6 digit) (literal b'-' ∷ replicate 12 hex) time (b'-' ∷ sha) ht
        (refl, hs) in
    let accepted : Accepts pseudo_classes (stamp sep y m d time sha) = (
      h,
      (
        digit_of (y / 1000) (omega arith),
        (
          digit_of (y / 100 % 10) (omega arith),
          (
            digit_of (y / 10 % 10) (omega arith),
            (
              digit_of (y % 10) (omega arith),
              (
                digit_of (m / 10) (omega arith),
                (
                  digit_of (m % 10) (omega arith),
                  (digit_of (d / 10) (omega arith), (digit_of (d % 10) (omega arith), rest)),
                ),
              ),
            ),
          ),
        ),
      ),
    ) in
    rw (matches-Accepts pseudo_classes (stamp sep y m d time sha) accepted) refl

-- Twelve units behind a time of six and a dash.
take_hash : (time sha : Text) → IsTime time → take 7 (drop 7 (time ++ b'-' ∷ sha)) ≡ take 7 sha
take_hash time sha h =
    ap (λ n. take 7 (drop (suc n) (time ++ b'-' ∷ sha)))
      (sym (Accepts-length (replicate 6 digit) time h))
    ∙ ap (λ s. take 7 s) (drop-append_cons time b'-' sha)

abbrev pub dashed : ℕ → ℕ → ℕ → Text
dashed y m d = four y ++ b'-' ∷ two m ++ b'-' ∷ two d

module _ (base : Text) (sep y m d : ℕ) (time sha : Text) where
  tagged-pseudo : tagged (base ++ stamp sep y m d time sha) ≡ none
  tagged-pseudo =
      ap tagged (sym (append_assoc base (sep ∷ (four y ++ two m ++ two d ++ time)) (b'-' ∷ sha)))
      ∙ tagged-dash (base ++ sep ∷ (four y ++ two m ++ two d ++ time)) sha

  -- The pseudo-version of a commit, whatever comes before its stamp, is shown as the day of the commit,
  -- and its identity is the first seven digits of the commit and this day.
  pub xray_display_version-pseudo :
      separator sep ≡ true
      → y < 10000
      → m < 100
      → d < 100
      → IsTime time
      → IsHash sha
      → (xray_display_version (base ++ stamp sep y m d time sha) ≡ some (dotted (y % 100) m d))
        × (pseudo_version_identity (base ++ stamp sep y m d time sha)
            ≡ record { commit = take 7 sha; date = dashed y m d })
  unfolding xray_display_version pseudo_version_identity
  xray_display_version-pseudo h hy hm hd ht hs =
      let found =
        pseudo-append base (stamp sep y m d time sha)
          (ends-stamp sep y m d time sha h hy hm hd ht hs) in
      (
        rw
            (
              tagged-pseudo,
              found,
              number-four y hy,
              number-two m hm,
              number-two d hd,
              xray_display_version,
            )
            refl,
        rw (found, pseudo_version_identity)
            (ap (λ c. record { commit = c; date = dashed y m d }) (take_hash time sha ht)),
      )
