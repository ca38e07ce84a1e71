-- ===== src/Versions/Generator.antt =====
-- scripts/gen-core-versions.ts: the version of a module in the build-info of an artifact, and the versions
-- on which all artifacts agree.
use react_native_nitro_xray.Prelude.{
  Bool, List, Option, Text, [], codes, false, if◌then◌else◌, inl, inr, leb, none, some, text_eq,
  true, truthy, ℕ, ◌++◌, ◌==◌, ◌||◌, ◌∷◌, ◌⊎◌,
}
use react_native_nitro_xray.Versions.{xray_display_version, pseudo_version_identity}

-- What is left of a text behind a prefix.
unfoldable pub behind : Text → Text → Option Text
behind [] s = some s
behind (n ∷ needle) [] = none
behind (n ∷ needle) (c ∷ s) = if c == n then behind needle s else none

-- What follows the first place of the buffer where the needle stands.
unfoldable pub after_needle : Text → Text → Option Text
after_needle needle [] = behind needle []
after_needle needle (b ∷ buf) = elim (behind needle (b ∷ buf)) [
  | some rest ↦ some rest
  | none ↦ after_needle needle buf
]

-- A byte that ends a version.
abbrev pub ends_version : ℕ → Bool
ends_version b = leb b 0x20 || b == 0x7f

unfoldable pub version_at : Text → Text
version_at [] = []
version_at (b ∷ buf) = if ends_version b then [] else b ∷ version_at buf

unfoldable pub needle_of : Text → Text
needle_of mod_path = codes "dep" ++ 9 ∷ mod_path ++ 9 ∷ []

-- A buffer is a list of bytes, and its latin1 text the same list. The empty version is `null`.
unfoldable pub find_dep_version : Text → Text → Option Text
find_dep_version buf mod_path = elim (after_needle (needle_of mod_path) buf) [
  | none ↦ none
  | some rest ↦ truthy (some (version_at rest))
]

-- The keys of `MODULES`.
pub data Key : Type 0 where
  xray_key olcrtc_key : Key

abbrev pub same_key : Key → Key → Bool
same_key xray_key xray_key = true
same_key olcrtc_key olcrtc_key = true
same_key _ _ = false

unfoldable pub module_path : Key → Text
module_path xray_key = codes "github.com/xtls/xray-core"
module_path olcrtc_key = codes "github.com/openlibrecommunity/olcrtc"

-- `Object.entries(MODULES)`
abbrev pub keys : List Key
keys = xray_key ∷ olcrtc_key ∷ []

-- A file of `ARTIFACTS`: its name and its content.
pub record Artifact : Type 0 where
  pub rel : Text
  pub buf : Text

-- The errors, by what they name.
pub data Failure : Type 0 where
  no_entry : Key → Text → Failure
  disagreement : Key → Failure

-- The files by version, in the order of the map's insertions, and these by key.
abbrev pub ByVersion : Type 0
ByVersion = List (Text × List Text)

abbrev pub Seen : Type 0
Seen = List (Key × ByVersion)

-- `perKey.set(version, [...(perKey.get(version) ?? []), rel])`
unfoldable pub add_file : Text → Text → ByVersion → ByVersion
add_file version rel [] = (version, rel ∷ []) ∷ []
add_file version rel ((v, files) ∷ rest) =
    if text_eq v version
    then (v, files ++ rel ∷ []) ∷ rest
    else (v, files) ∷ add_file version rel rest

-- `seen.get(key) ?? new Map()`, filled, and `seen.set(key, perKey)`.
unfoldable pub see : Key → Text → Text → Seen → Seen
see key version rel [] = (key, add_file version rel []) ∷ []
see key version rel ((k, by_version) ∷ rest) =
    if same_key k key
    then (k, add_file version rel by_version) ∷ rest
    else (k, by_version) ∷ see key version rel rest

unfoldable pub scan_keys : Artifact → List Key → Seen → Failure ⊎ Seen
scan_keys a [] seen = inr seen
scan_keys a (key ∷ ks) seen = elim (find_dep_version a.buf (module_path key)) [
  | none ↦ inl (no_entry key a.rel)
  | some version ↦ scan_keys a ks (see key version a.rel seen)
]

unfoldable pub scan : List Artifact → Seen → Failure ⊎ Seen
scan [] seen = inr seen
scan (a ∷ artifacts) seen = elim (scan_keys a keys seen) [
  | inl failure ↦ inl failure
  | inr seen' ↦ scan artifacts seen'
]

-- The only version of a key, or none if there are several.
unfoldable pub only_version : ByVersion → Option Text
only_version ((v, files) ∷ []) = some v
only_version _ = none

unfoldable pub resolve : Seen → Failure ⊎ List (Key × Text)
resolve [] = inr []
resolve ((key, by_version) ∷ rest) = elim (only_version by_version) [
  | none ↦ inl (disagreement key)
  | some v ↦ elim (resolve rest) [
    | inl failure ↦ inl failure
    | inr resolved ↦ inr ((key, v) ∷ resolved)
  ]
]

unfoldable pub resolve_all : List Artifact → Failure ⊎ List (Key × Text)
resolve_all artifacts = elim (scan artifacts []) [
  | inl failure ↦ inl failure
  | inr seen ↦ resolve seen
]

-- src/generated/core-versions.ts.
pub record CoreVersions : Type 0 where
  pub xray : Text
  pub xray_module : Text
  pub olcrtc : Text
  pub olcrtc_module : Text
  pub olcrtc_date : Text

-- The constant that is written for two module versions.
unfoldable pub core_versions_of : Text → Text → CoreVersions
core_versions_of xray_module olcrtc_module =
    let identity = pseudo_version_identity olcrtc_module in
    record {
      xray = elim (xray_display_version xray_module) [ none ↦ xray_module | some shown ↦ shown ];
      xray_module = xray_module;
      olcrtc = identity.commit;
      olcrtc_module = olcrtc_module;
      olcrtc_date = identity.date;
    }
