-- ===== src/Client/Shown.antt =====
-- The versions that `coreVersions` of src/client.ts shows.
use react_native_nitro_xray.Prelude.{
  Option-cases, Text, [], inl, inr, or_default, refl, some, truthy, ℕ, ◌++◌, ◌∙◌, ◌∷◌, ◌≡◌, ◌≢◌,
}
use react_native_nitro_xray.Versions.{tagged, pseudo, dotted, xray_display_version}
use react_native_nitro_xray.Versions.Generator.{CoreVersions, core_versions_of}
use react_native_nitro_xray.Versions.Matching.{some_same}
use react_native_nitro_xray.Client.{core_versions, version}
use react_native_nitro_xray.Client.Engine.{
  NitroXrayCore, World, Outcome, returned, thrown, caught, continued, pure,
}
use react_native_nitro_xray.Client.Sessions.{call}

append_cons-filled : (s : Text) (c : ℕ) (t : Text) → s ++ c ∷ t ≢ []
append_cons-filled [] c t e = cc e
append_cons-filled (d ∷ s) c t e = cc e

dotted-filled : (y m d : ℕ) → dotted y m d ≢ []
unfolding dotted
dotted-filled y m d = append_cons-filled _ b'.' _

display-filled : (s shown : Text) → xray_display_version s ≡ some shown → shown ≢ []
unfolding xray_display_version
display-filled s shown h = elim (Option-cases (tagged s)) [
  | inr (groups, found) ↦
      λ e. dotted-filled _ _ _ (some_same (rw (found, xray_display_version) at h) ∙ e)
  | inl release ↦ elim (Option-cases (pseudo s)) [
    | inr (stamp, found) ↦
        λ e. dotted-filled _ _ _ (some_same (rw (release, found, xray_display_version) at h) ∙ e)
    | inl other ↦ cc (rw (release, other, xray_display_version) at h)
  ]
]

constant-filled : (x o : Text) → x ≢ [] → (core_versions_of x o).xray ≢ []
unfolding core_versions_of
constant-filled x o h = elim (Option-cases (xray_display_version x)) [
  | inl nothing ↦ rw (nothing, core_versions_of) h
  | inr (shown, found) ↦ rw (found, core_versions_of) (display-filled x shown found)
]

-- What is shown: the constant with the version that the engine names, if it names one.
abbrev pub shown_for : Outcome Text → CoreVersions → CoreVersions
shown_for (returned (c ∷ v)) constant = record constant { xray = c ∷ v }
shown_for _ constant = constant

shown-filled :
    (r : Outcome Text) (constant : CoreVersions)
    → constant.xray ≢ []
    → (shown_for r constant).xray ≢ []
shown-filled (returned (c ∷ v)) constant h = λ e. cc e
shown-filled (returned []) constant h = h
shown-filled (thrown e) constant h = h

module _ {N : Type 0} (core : NitroXrayCore N) where
  caught-shown :
      (r : Outcome Text) (constant : CoreVersions) (w : World N)
      → let m =
          continued
            (λ shown.
              pure (record constant { xray = or_default (truthy (some shown)) constant.xray }))
            (caught (λ e. pure []) r w).0
            (caught (λ e. pure []) r w).1 in
        m.0 ≡ returned (shown_for r constant)
  caught-shown (returned (c ∷ v)) constant w = refl
  caught-shown (returned []) constant w = refl
  caught-shown (thrown e) constant w = refl

  -- With the constant that is generated for a module version of Xray that is not empty, `coreVersions`
  -- returns, whatever the native object does; what it shows is the constant, with the version that the
  -- engine names if it names one, and its version of Xray is not empty.
  pub core_versions-filled :
      (x o : Text) (w : World N)
      → x ≢ []
      → let shown = shown_for (core.get_version w.native).0 (core_versions_of x o) in
        ((core_versions core (core_versions_of x o) w).0 ≡ returned shown) × (shown.xray ≢ [])
  unfolding core_versions version call
  core_versions-filled x o w h = (
    caught-shown (core.get_version w.native).0 (core_versions_of x o) _,
    shown-filled (core.get_version w.native).0 (core_versions_of x o) (constant-filled x o h),
  )
