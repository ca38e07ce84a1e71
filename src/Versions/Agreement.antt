-- ===== src/Versions/Agreement.antt =====
-- What a successful run of scripts/gen-core-versions.ts says about the artifacts.
use react_native_nitro_xray.Prelude.{
  All, Bool-cases, List, Option, Option-cases, Text, [], ap, inl, inr, none, refl, some, text_eq,
  text_eq_refl, text_eq_sound, ◌++◌, ◌∙◌, ◌∷◌, ◌≡◌, ◌⊎◌, ◌↔◌,
}
use react_native_nitro_xray.Versions.Generator.{
  Key, xray_key, olcrtc_key, keys, module_path, find_dep_version, Artifact, Failure, no_entry,
  ByVersion, Seen, add_file, see, scan_keys, scan, only_version, resolve, resolve_all,
}

-- A version that has files.
Has : Text → ByVersion → Type 0
Has version [] = ⊥
Has version ((v, files) ∷ rest) = (v ≡ version) ⊎ Has version rest

Has-add_file : (v rel : Text) (b : ByVersion) → Has v (add_file v rel b)
unfolding Has add_file
Has-add_file v rel [] = inl refl
Has-add_file v rel ((w, files) ∷ b) = elim (Bool-cases (text_eq w v)) [
  | inl same ↦ rw (same, add_file) (inl (text_eq_sound w v same))
  | inr other ↦ rw (other, add_file) (inr (Has-add_file v rel b))
]

Has-add_file_other : (w v rel : Text) (b : ByVersion) → Has w b → Has w (add_file v rel b)
unfolding Has add_file
Has-add_file_other w v rel [] h = elim h [ ]
Has-add_file_other w v rel ((u, files) ∷ b) h = elim (Bool-cases (text_eq u v)) [
  | inl same ↦ rw (same, add_file) h
  | inr other ↦
      rw (other, add_file)
        (elim h [ inl here ↦ inl here | inr there ↦ inr (Has-add_file_other w v rel b there) ])
]

-- What has been seen once an artifact has.
abbrev both : ByVersion → ByVersion → Seen
both bx bo = (xray_key, bx) ∷ (olcrtc_key, bo) ∷ []

abbrev pub find : Key → Artifact → Option Text
find key a = find_dep_version a.buf (module_path key)

-- One artifact, by what is found in it.
abbrev seen_in : Artifact → ByVersion → ByVersion → Option Text → Option Text → Failure ⊎ Seen
seen_in a bx bo none o = inl (no_entry xray_key a.rel)
seen_in a bx bo (some x) none = inl (no_entry olcrtc_key a.rel)
seen_in a bx bo (some x) (some o) = inr (both (add_file x a.rel bx) (add_file o a.rel bo))

scan_keys-both :
    (a : Artifact) (bx bo : ByVersion)
    → scan_keys a keys (both bx bo) ≡ seen_in a bx bo (find xray_key a) (find olcrtc_key a)
unfolding scan_keys see
scan_keys-both a bx bo = elim (Option-cases (find xray_key a)) [
  | inl nothing ↦ rw (nothing, scan_keys) refl
  | inr (x, found) ↦ elim (Option-cases (find olcrtc_key a)) [
    | inl nothing ↦ rw (found, scan_keys) (rw (nothing, scan_keys) refl)
    | inr (o, also) ↦ rw (found, scan_keys) (rw (also, scan_keys) refl)
  ]
]

scan_keys-first :
    (a : Artifact) → scan_keys a keys [] ≡ seen_in a [] [] (find xray_key a) (find olcrtc_key a)
unfolding scan_keys see
scan_keys-first a = elim (Option-cases (find xray_key a)) [
  | inl nothing ↦ rw (nothing, scan_keys) refl
  | inr (x, found) ↦ elim (Option-cases (find olcrtc_key a)) [
    | inl nothing ↦ rw (found, scan_keys) (rw (nothing, scan_keys) refl)
    | inr (o, also) ↦ rw (found, scan_keys) (rw (also, scan_keys) refl)
  ]
]

scan-first :
    (a : Artifact) (rest : List Artifact) → scan (a ∷ rest) [] ≡ scan (a ∷ rest) (both [] [])
unfolding scan
scan-first a rest = rw (scan_keys-first a, scan_keys-both a [] [], scan) refl

-- Both modules are found in an artifact, in these versions.
pub record IsFound (x o : Text) (a : Artifact) : Type 0 where
  pub xray_there : find xray_key a ≡ some x
  pub olcrtc_there : find olcrtc_key a ≡ some o

scan-found :
    (x o : Text) (a : Artifact) (rest : List Artifact) (bx bo : ByVersion)
    → IsFound x o a
    → scan (a ∷ rest) (both bx bo) ≡ scan rest (both (add_file x a.rel bx) (add_file o a.rel bo))
unfolding scan
scan-found x o a rest bx bo f = rw (scan_keys-both a bx bo, f.xray_there, f.olcrtc_there, scan) refl

-- A scan that goes past an artifact has found both modules there.
scan-cons :
    (a : Artifact) (rest : List Artifact) (bx bo : ByVersion) (seen : Seen)
    → scan (a ∷ rest) (both bx bo) ≡ inr seen
    → (x : Text) × ((o : Text) × (IsFound x o a
          × (scan rest (both (add_file x a.rel bx) (add_file o a.rel bo)) ≡ inr seen)))
unfolding scan
scan-cons a rest bx bo seen h = elim (Option-cases (find xray_key a)) [
  | inl nothing ↦ cc (rw (scan_keys-both a bx bo, nothing, scan) at h)
  | inr (x, found) ↦ elim (Option-cases (find olcrtc_key a)) [
    | inl nothing ↦ cc (rw (scan_keys-both a bx bo, found, nothing, scan) at h)
    | inr (o, also) ↦ (
      x,
      (
        o,
        (
          record { xray_there = found; olcrtc_there = also },
          rw (scan_keys-both a bx bo, found, also, scan) at h,
        ),
      ),
    )
  ]
]

-- The versions of every artifact are among those of a scan.
record IsSeen (bx bo : ByVersion) (a : Artifact) : Type 0 where
  x : Text
  o : Text
  found : IsFound x o a
  has_x : Has x bx
  has_o : Has o bo

record Scanned (artifacts : List Artifact) (bx bo : ByVersion) (seen : Seen) : Type 0 where
  bx' : ByVersion
  bo' : ByVersion
  shape : seen ≡ both bx' bo'
  more_x : (v : Text) → Has v bx → Has v bx'
  more_o : (v : Text) → Has v bo → Has v bo'
  all_seen : All (IsSeen bx' bo') artifacts

scan-Scanned :
    (artifacts : List Artifact) (bx bo : ByVersion) (seen : Seen)
    → scan artifacts (both bx bo) ≡ inr seen
    → Scanned artifacts bx bo seen
unfolding scan
scan-Scanned [] bx bo seen h = record {
  bx' = bx;
  bo' = bo;
  shape = cc h;
  more_x = λ v h. h;
  more_o = λ v h. h;
  all_seen = tt;
}
scan-Scanned (a ∷ rest) bx bo seen h =
    let (x, (o, (f, later))) = scan-cons a rest bx bo seen h in
    let s = scan-Scanned rest (add_file x a.rel bx) (add_file o a.rel bo) seen later in
    record {
      bx' = s.bx';
      bo' = s.bo';
      shape = s.shape;
      more_x = λ v h. s.more_x v (Has-add_file_other v x a.rel bx h);
      more_o = λ v h. s.more_o v (Has-add_file_other v o a.rel bo h);
      all_seen = (
        record {
          x = x;
          o = o;
          found = f;
          has_x = s.more_x x (Has-add_file x a.rel bx);
          has_o = s.more_o o (Has-add_file o a.rel bo);
        },
        s.all_seen,
      );
    }

abbrev pub agreed : Text → Text → List (Key × Text)
agreed x o = (xray_key, x) ∷ (olcrtc_key, o) ∷ []

-- The only version is the one that a map has.
only_version-Has : (b : ByVersion) (v w : Text) → only_version b ≡ some v → Has w b → w ≡ v
unfolding only_version Has
only_version-Has [] v w h k = cc h
only_version-Has ((u, files) ∷ []) v w h (inl e) = cc (h, e)
only_version-Has ((u, files) ∷ []) v w h (inr e) = elim e [ ]
only_version-Has (p ∷ q ∷ b) v w h k = cc h

resolve-both :
    (bx bo : ByVersion) (x o : Text)
    → resolve (both bx bo) ≡ inr (agreed x o)
    → (only_version bx ≡ some x) × (only_version bo ≡ some o)
unfolding resolve
resolve-both bx bo x o h = elim (Option-cases (only_version bx)) [
  | inl nothing ↦ cc (rw (nothing, resolve) at h)
  | inr (v, one) ↦ elim (Option-cases (only_version bo)) [
    | inl nothing ↦ cc (rw (one, nothing, resolve) at h)
    | inr (w, other) ↦
        (cc (one, rw (one, other, resolve) at h), cc (other, rw (one, other, resolve) at h))
  ]
]

IsSeen-found :
    (x o : Text) (bx bo : ByVersion)
    → only_version bx ≡ some x
    → only_version bo ≡ some o
    → (a : Artifact) → IsSeen bx bo a
    → IsFound x o a
IsSeen-found x o bx bo hx ho a s = record {
  xray_there = s.found.xray_there ∙ ap some (only_version-Has bx x s.x hx s.has_x);
  olcrtc_there = s.found.olcrtc_there ∙ ap some (only_version-Has bo o s.o ho s.has_o);
}

All-map :
    {A : Type 0} {P Q : A → Type 0} → ((a : A) → P a → Q a) → (xs : List A) → All P xs → All Q xs
All-map f [] h = tt
All-map f (x ∷ xs) (p, h) = (f x p, All-map f xs h)

-- A map with one version keeps it alone when it is added again.
add_file-same :
    (v rel : Text) (files : List Text)
    → add_file v rel ((v, files) ∷ []) ≡ (v, files ++ rel ∷ []) ∷ []
unfolding add_file
add_file-same v rel files = rw (text_eq_refl v, add_file) refl

scan-agreed :
    (x o : Text) (artifacts : List Artifact) (fx fo : List Text)
    → All (IsFound x o) artifacts
    → (gx : List Text) × ((go : List Text) × (scan artifacts (both ((x, fx) ∷ []) ((o, fo) ∷ []))
          ≡ inr (both ((x, gx) ∷ []) ((o, go) ∷ []))))
unfolding scan
scan-agreed x o [] fx fo h = (fx, (fo, refl))
scan-agreed x o (a ∷ rest) fx fo (f, h) =
    let (gx, (go, e)) = scan-agreed x o rest (fx ++ a.rel ∷ []) (fo ++ a.rel ∷ []) h in
    (
      gx,
      (
        go,
        scan-found x o a rest ((x, fx) ∷ []) ((o, fo) ∷ []) f
            ∙ rw (add_file-same x a.rel fx, add_file-same o a.rel fo) e,
      ),
    )

resolved-found :
    (x o : Text) (artifacts : List Artifact) (seen : Seen)
    → scan artifacts (both [] []) ≡ inr seen
    → resolve seen ≡ inr (agreed x o)
    → All (IsFound x o) artifacts
resolved-found x o artifacts seen h r =
    let s = scan-Scanned artifacts [] [] seen h in
    let (hx, ho) = resolve-both s.bx' s.bo' x o (rw s.shape at r) in
    All-map (IsSeen-found x o s.bx' s.bo' hx ho) artifacts s.all_seen

resolved-forth :
    (x o : Text) (a : Artifact) (rest : List Artifact)
    → resolve_all (a ∷ rest) ≡ inr (agreed x o)
    → All (IsFound x o) (a ∷ rest)
unfolding resolve_all
resolved-forth x o a rest h = elim (Sum-cases (scan (a ∷ rest) (both [] []))) [
  | inl (failure, e) ↦ cc (rw (scan-first a rest, e, resolve_all) at h)
  | inr (seen, e) ↦
      resolved-found x o (a ∷ rest) seen e (rw (scan-first a rest, e, resolve_all) at h)
]
  where
    Sum-cases : {A B : Type 0} (s : A ⊎ B) → ((a : A) × (s ≡ inl a)) ⊎ ((b : B) × (s ≡ inr b))
    Sum-cases (inl a) = inl (a, refl)
    Sum-cases (inr b) = inr (b, refl)

resolved-back :
    (x o : Text) (a : Artifact) (rest : List Artifact)
    → All (IsFound x o) (a ∷ rest)
    → resolve_all (a ∷ rest) ≡ inr (agreed x o)
unfolding add_file resolve only_version resolve_all
resolved-back x o a rest (f, h) =
    let (gx, (go, e)) = scan-agreed x o rest (a.rel ∷ []) (a.rel ∷ []) h in
    let whole = scan-found x o a rest [] [] f ∙ e in rw (scan-first a rest, whole, resolve_all) refl

-- For at least one artifact, the versions `x` of Xray and `o` of olcrtc are resolved exactly if in every
-- artifact these two are found.
pub resolve_all-found :
    (x o : Text) (a : Artifact) (rest : List Artifact)
    → (resolve_all (a ∷ rest) ≡ inr (agreed x o)) ↔ All (IsFound x o) (a ∷ rest)
resolve_all-found x o a rest = (resolved-forth x o a rest, resolved-back x o a rest)
