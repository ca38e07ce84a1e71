-- ===== src/Versions/Tests.antt =====
-- Runs of src/versions/parse.ts and scripts/gen-core-versions.ts, and their theorems at concrete texts.
use react_native_nitro_xray.Prelude.{
  All, Text, [], arith, codes, drop, inr, none, refl, some, suc, true, zero, ℕ, ◌++◌, ◌<◌, ◌↔◌, ◌∷◌,
  ◌≡◌, text_eq,
}
use react_native_nitro_xray.Subscription.Numbers.{
  leading_digits, digits_value, whole_text, digits_text,
}
use react_native_nitro_xray.Versions.{
  matches, all_digits, tagged, tag_groups, dotted, xray_display_version, pseudo_version_identity,
}
use react_native_nitro_xray.Versions.Display.{
  stamp, dashed, IsTime, IsHash, xray_display_version-pseudo,
}
use react_native_nitro_xray.Versions.Generator.{
  scan, scan_keys, see, add_file, resolve, only_version, module_path, Artifact, find_dep_version,
  after_needle, behind, needle_of, version_at, resolve_all, xray_key, olcrtc_key,
}
use react_native_nitro_xray.Versions.Agreement.{agreed, IsFound, resolve_all-found}
use react_native_nitro_xray.Versions.Entry.{IsVersion, find_dep_version-append}

shown : xray_display_version (codes "v1.260327.0") ≡ some (codes "26.3.27")
unfolding xray_display_version tagged tag_groups matches all_digits dotted leading_digits
    digits_value whole_text digits_text
shown = refl

all_digits_zero : all_digits (codes "0") ≡ true
unfolding all_digits
all_digits_zero = refl

time : IsTime (codes "075948")
time = (refl, (refl, (refl, (refl, (refl, (refl, tt))))))

hash : IsHash (codes "5ca6f4b7d4dc")
hash = (
  refl,
  (refl, (refl, (refl, (refl, (refl, (refl, (refl, (refl, (refl, (refl, (refl, tt))))))))))),
)

xray_display_version-pseudo_example :
    let s = codes "v1.260327.1-0" ++ stamp b'.' 2026 7 28 (codes "075948") (codes "5ca6f4b7d4dc") in
    (xray_display_version s ≡ some (dotted 26 7 28))
    × (pseudo_version_identity s ≡ record { commit = codes "5ca6f4b"; date = dashed 2026 7 28 })
xray_display_version-pseudo_example =
    xray_display_version-pseudo (codes "v1.260327.1-0") b'.' 2026 7 28 (codes "075948")
      (codes "5ca6f4b7d4dc") refl (omega arith) (omega arith) (omega arith) time hash

abbrev entry : Text
entry = codes "x" ++ needle_of (codes "m") ++ (codes "v1" ++ 10 ∷ [])

not_before :
    (k : ℕ)
    → k < 1
    → behind
        (needle_of (codes "m"))
        (drop k (codes "x" ++ needle_of (codes "m") ++ (codes "v1" ++ 10 ∷ [])))
      ≡ none
unfolding behind needle_of
not_before zero h = refl
not_before (suc k) h = absurd (omega arith)

version_one : IsVersion (codes "v1")
version_one = record { filled = λ e. cc e; clean = (refl, (refl, tt)) }

find_dep_version-append_example : find_dep_version entry (codes "m") ≡ some (codes "v1")
find_dep_version-append_example =
    find_dep_version-append (codes "x") (codes "m") (codes "v1") (10 ∷ []) version_one refl
      not_before

found : find_dep_version entry (codes "m") ≡ some (codes "v1")
unfolding find_dep_version after_needle behind needle_of version_at
found = refl

abbrev shipped : Text → Artifact
shipped rel = record {
  rel = rel;
  buf =
      needle_of (module_path xray_key)
      ++ (codes "v1" ++ 10 ∷ (needle_of (module_path olcrtc_key) ++ (codes "v2" ++ 0 ∷ [])));
}

abbrev so : Artifact
so = shipped (codes "libxray.so")

abbrev lib : Artifact
lib = shipped (codes "libxray.a")

resolved : resolve_all (so ∷ lib ∷ []) ≡ inr (agreed (codes "v1") (codes "v2"))
unfolding resolve_all scan scan_keys see add_file resolve only_version find_dep_version after_needle
    behind needle_of version_at module_path text_eq
resolved = refl

resolve_all-found_example :
    (resolve_all (so ∷ lib ∷ []) ≡ inr (agreed (codes "v1") (codes "v2")))
    ↔ All (IsFound (codes "v1") (codes "v2")) (so ∷ lib ∷ [])
resolve_all-found_example = resolve_all-found (codes "v1") (codes "v2") so (lib ∷ [])
