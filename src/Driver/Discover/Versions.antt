-- ===== src/Driver/Discover/Versions.antt =====
-- Which versions the discovery returns.
use nvidia_ci.Common.{
  ℕ, zero, suc, ◌+◌, true, false, ◌≡◌, refl, sym, ap, subst, ◌⊎◌, inl, inr, ◌↔◌, List, [], ◌∷◌,
  ◌++◌, Option, none, some, some_inj, none-ne-some, any, any_iff, is_nil, Has, drop, length,
  Bool-cases, Result, ok, err, ok_inj, err-ne-ok, ◌≤◌,
}
use nvidia_ci.Text.{Text, codes, text_eq, is_empty, has_suffix}
use nvidia_ci.Text.Search.{contains, index, index_sound, text_eq_sound}
use nvidia_ci.Text.Labels.{lookup}
use nvidia_ci.Registry.Site.{Library, precompiled_registry}
use nvidia_ci.Registry.Client.{Server, RegistryError}
use nvidia_ci.Driver.Sort.{IsSorted, Pairs}
use nvidia_ci.Driver.Dedup.{major_of, deduplicate_by_major_version}
use nvidia_ci.Driver.Dedup.Laws.{OtherMajor, deduplicate_by_major_version-IsDedup}
use nvidia_ci.Driver.Discover.Defs.{
  version_of, list_driver_tags, before_dash, note_version, collect_versions, versions_of_tags,
  from_listing, with_auth, with_config, discover,
}

-- The tag names the version in front of "-kernel", and is no source image.
pub record IsDriverTag (kernel_version version tag : Text) : Type 0 where
  pub not_empty : is_empty version ≡ false
  pub behind : Text
  pub spelled : tag ≡ version ++ ((codes "-" ++ kernel_version) ++ behind)
  pub no_source : has_suffix (codes "-source") tag ≡ false

before_dash-IsDriverTag :
    (k tag v : Text) (at : Option ℕ)
    → index (codes "-" ++ k) tag ≡ at
    → has_suffix (codes "-source") tag ≡ false
    → before_dash tag at ≡ some v
    → IsDriverTag k v tag
before_dash-IsDriverTag k tag v none e s h = absurd (none-ne-some h)
before_dash-IsDriverTag k tag v (some zero) e s h = absurd (none-ne-some h)
before_dash-IsDriverTag k [] v (some (suc i)) e s h =
    absurd (empty_tag (index_sound (codes "-" ++ k) [] (suc i) e))
  where
    empty_tag : [] ≡ codes "-" ++ (k ++ drop (suc i + length (codes "-" ++ k)) []) → ⊥
    empty_tag p = cc p
before_dash-IsDriverTag k (c ∷ tag) v (some (suc i)) e s h =
    subst (λ x. IsDriverTag k x (c ∷ tag)) (some_inj h)
      record {
        not_empty = refl;
        behind = drop (suc i + length (codes "-" ++ k)) (c ∷ tag);
        spelled = index_sound (codes "-" ++ k) (c ∷ tag) (suc i) e;
        no_source = s;
      }

version_of-IsDriverTag : (k tag v : Text) → version_of k tag ≡ some v → IsDriverTag k v tag
unfolding version_of
version_of-IsDriverTag k tag v h = elim (Bool-cases (contains k tag)) [
  | inr e ↦ absurd (none-ne-some (rw e at h))
  | inl e ↦ elim (Bool-cases (has_suffix (codes "-source") tag)) [
    | inl s ↦ absurd (none-ne-some (rw (e, s) at h))
    | inr s ↦ before_dash-IsDriverTag k tag v (index (codes "-" ++ k) tag) refl s (rw (e, s) at h)
  ]
]

-- A version that one of the tags gives.
pub record Given (kernel_version : Text) (tags : List Text) (version : Text) : Type 0 where
  pub tag : Text
  pub has_tag : Has tag tags
  pub gives : version_of kernel_version tag ≡ some version

Has-append : (v w : Text) (vs : List Text) → Has v (vs ++ w ∷ []) → Has v vs ⊎ (v ≡ w)
Has-append v w [] (inl e) = inr e
Has-append v w [] (inr n) = absurd n
Has-append v w (u ∷ vs) (inl e) = inl (inl e)
Has-append v w (u ∷ vs) (inr h) = elim (Has-append v w vs h) [ inl i ↦ inl (inr i) | inr e ↦ inr e ]

append-Has : (v w : Text) (vs : List Text) → Has v vs ⊎ (v ≡ w) → Has v (vs ++ w ∷ [])
append-Has v w [] (inl n) = absurd n
append-Has v w [] (inr e) = inl e
append-Has v w (u ∷ vs) (inl (inl e)) = inl e
append-Has v w (u ∷ vs) (inl (inr h)) = inr (append-Has v w vs (inl h))
append-Has v w (u ∷ vs) (inr e) = inr (append-Has v w vs (inr e))

-- A round adds exactly the tag's version.
note_version_iff :
    (o : Option Text) (vs : List Text) (v : Text)
    → Has v (note_version o vs) ↔ (Has v vs ⊎ (o ≡ some v))
note_version_iff none vs v =
    (λ h. inl h, λ h. elim h [ inl i ↦ i | inr e ↦ absurd (none-ne-some e) ])
note_version_iff (some w) vs v = elim (Bool-cases (any (λ u. text_eq u w) vs)) [
  | inl seen ↦ rw seen (
    λ h. inl h,
    λ h. elim h [ inl i ↦ i | inr e ↦ subst (λ x. Has x vs) (some_inj e) (seen_before seen) ],
  )
  | inr fresh ↦ rw fresh (
    λ h. elim (Has-append v w vs h) [ inl i ↦ inl i | inr e ↦ inr (ap some (sym e)) ],
    λ h. append-Has v w vs (elim h [ inl i ↦ inl i | inr e ↦ inr (sym (some_inj e)) ]),
  )
]
  where
    seen_before : any (λ u. text_eq u w) vs ≡ true → Has w vs
    seen_before seen =
        let (u, has, same) = (any_iff (λ u. text_eq u w) vs).0 seen in
        subst (λ x. Has x vs) (text_eq_sound u w same) has

Given-later :
    {k : Text} {tags : List Text} {v : Text} (tag : Text) → Given k tags v → Given k (tag ∷ tags) v
Given-later tag g = record { tag = g.tag; has_tag = inr g.has_tag; gives = g.gives }

Given-split :
    (k tag : Text) (tags : List Text) (v : Text)
    → Given k (tag ∷ tags) v
    → (version_of k tag ≡ some v) ⊎ Given k tags v
Given-split k tag tags v g = elim g.has_tag [
  | inl e ↦ inl (subst (λ t. version_of k t ≡ some v) e g.gives)
  | inr h ↦ inr (record { tag = g.tag; has_tag = h; gives = g.gives })
]

collect_versions_iff :
    (k : Text) (tags vs : List Text) (v : Text)
    → Has v (collect_versions k tags vs) ↔ (Has v vs ⊎ Given k tags v)
unfolding collect_versions
collect_versions_iff k [] vs v = (λ h. inl h, λ h. elim h [ inl i ↦ i | inr g ↦ absurd g.has_tag ])
collect_versions_iff k (tag ∷ tags) vs v =
    let later = collect_versions_iff k tags (note_version (version_of k tag) vs) v in
    (λ h. there (later.0 h), λ h. later.1 (back h))
  where
    noted : List Text
    noted = note_version (version_of k tag) vs

    there : Has v noted ⊎ Given k tags v → Has v vs ⊎ Given k (tag ∷ tags) v
    there (inr g) = inr (Given-later tag g)
    there (inl i) = elim ((note_version_iff (version_of k tag) vs v).0 i) [
      | inl j ↦ inl j
      | inr e ↦ inr (record { tag = tag; has_tag = inl refl; gives = e })
    ]

    back : Has v vs ⊎ Given k (tag ∷ tags) v → Has v noted ⊎ Given k tags v
    back (inl i) = inl ((note_version_iff (version_of k tag) vs v).1 (inl i))
    back (inr g) = elim (Given-split k tag tags v g) [
      | inl e ↦ inl ((note_version_iff (version_of k tag) vs v).1 (inr e))
      | inr later_given ↦ inr later_given
    ]

-- What the versions are for the tags.
pub record Discovered (k : Text) (tags vs : List Text) : Type 0 where
  pub sound : (v : Text) → Has v vs → (tag : Text) × Has tag tags × IsDriverTag k v tag
  pub sorted : IsSorted vs
  pub apart : Pairs OtherMajor vs
  pub covers :
      (tag v : Text)
      → Has tag tags
      → version_of k tag ≡ some v
      → (w : Text) × Has w vs × (major_of w ≡ major_of v) × (length v ≤ length w)

collected-Discovered :
    (k : Text) (tags : List Text)
    → Discovered k tags (deduplicate_by_major_version (collect_versions k tags []))
collected-Discovered k tags =
    let vs = collect_versions k tags [] in
    let d = deduplicate_by_major_version-IsDedup vs in
    record {
      sound = λ v h. given v ((collect_versions_iff k tags [] v).0 (d.members v h));
      sorted = d.sorted;
      apart = d.apart;
      covers = λ tag v has gives. d.covers v (
          (collect_versions_iff k tags [] v).1
            (inr (record { tag = tag; has_tag = has; gives = gives })));
    }
  where
    given :
        (v : Text) → Has v [] ⊎ Given k tags v → (tag : Text) × Has tag tags × IsDriverTag k v tag
    given v (inl n) = absurd n
    given v (inr g) = (g.tag, g.has_tag, version_of-IsDriverTag k g.tag v g.gives)

versions_of_tags-Discovered :
    (k : Text) (tags vs : List Text) → versions_of_tags k tags ≡ ok vs → Discovered k tags vs
versions_of_tags-Discovered k tags vs h = elim (Bool-cases (is_nil (collect_versions k tags []))) [
  | inl e ↦ absurd (err-ne-ok (rw e at h))
  | inr e ↦ subst (Discovered k tags) (ok_inj (rw e at h)) (collected-Discovered k tags)
]

-- The discovered versions come from the listed tags for the kernel that are no source images; they
-- are sorted, of distinct major versions, and for each such tag's version there is one with the same
-- major that is at least as long.
pub discover-Discovered :
    (rounds : ℕ) (lib : Library) (decode : Text → Option (List (Text × Text))) (server : Server)
    (secret : Result Text Text) (k : Text) (vs : List Text)
    → discover rounds lib decode server secret k ≡ ok vs
    → (auth : Text) × (tags : List Text) × (list_driver_tags rounds lib server auth ≡ ok tags)
      × Discovered k tags vs
unfolding discover
discover-Discovered rounds lib decode server (err e) k vs h = absurd (err-ne-ok h)
discover-Discovered rounds lib decode server (ok raw) k vs h = by_config (decode raw) h
  where
    by_listing :
        (auth : Text) (r : Result RegistryError (List Text))
        → list_driver_tags rounds lib server auth ≡ r
        → from_listing k r ≡ ok vs
        → (auth : Text) × (tags : List Text) × (list_driver_tags rounds lib server auth ≡ ok tags)
          × Discovered k tags vs
    by_listing auth (err e) at p = absurd (err-ne-ok p)
    by_listing auth (ok tags) at p = (auth, tags, at, versions_of_tags-Discovered k tags vs p)

    by_auth :
        (auth : Option Text)
        → with_auth rounds lib server k auth ≡ ok vs
        → (auth : Text) × (tags : List Text) × (list_driver_tags rounds lib server auth ≡ ok tags)
          × Discovered k tags vs
    by_auth none p = absurd (err-ne-ok p)
    by_auth (some auth) p = by_listing auth (list_driver_tags rounds lib server auth) refl p

    by_config :
        (config : Option (List (Text × Text)))
        → with_config rounds lib server k config ≡ ok vs
        → (auth : Text) × (tags : List Text) × (list_driver_tags rounds lib server auth ≡ ok tags)
          × Discovered k tags vs
    by_config none p = absurd (err-ne-ok p)
    by_config (some auths) p = by_auth (lookup precompiled_registry auths) p
