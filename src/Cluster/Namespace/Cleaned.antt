-- ===== src/Cluster/Namespace/Cleaned.antt =====
-- About CleanObjects: what was left of each kind of object.
use nvidia_ci.Common.{
  ◌≤◌, ◌⊎◌, Bool, ◌&&◌, ◌==◌, ltb, length, any_iff, subst, false-ne-true, arith, ◌≡◌, refl, sym,
  true, false, Bool-cases, inl, inr, List, [], ◌∷◌, Option, none, some, none-ne-some, Has, All,
  Result, ok, err, is_nil,
}
use nvidia_ci.Text.{Text, codes, text_eq, is_empty}
use nvidia_ci.Text.Search.{text_eq_sound}
use nvidia_ci.Text.Labels.{Labels}
use nvidia_ci.Cluster.Api.{Client, BuilderError}
use nvidia_ci.Wait.Poll.{Ended, reached, timed_out, stopped, poll}
use nvidia_ci.Cluster.Namespace.Defs.{
  NamespaceBuilder, Cleaning, has_name, has_only_default_config_maps, is_config_maps, is_clean,
  clean_step, cleaned_one, clean_all, checked_namespace, namespace_exists, clean_objects,
}

-- The names of the objects of a listing: one at most, or those of the two default ConfigMaps.
abbrev pub IsLeft : Text → List Text → Type 0
IsLeft resource names =
    (length names ≤ 1)
    ⊎ ((resource ≡ codes "configmaps")
        × (length names ≡ 2)
        × Has (codes "kube-root-ca.crt") names
        × Has (codes "openshift-service-ca.crt") names)

-- The objects were deleted, and no others than such were left at a poll.
abbrev pub IsCleaned : Cleaning → Type 0
IsCleaned c =
    (c.deletion ≡ none) × ((names : List Text) × Has (ok names) c.polls × IsLeft c.resource names)

has_name_sound : (name : Text) (names : List Text) → has_name name names ≡ true → Has name names
has_name_sound name names h =
    let (n, has, same) = (any_iff (λ n. text_eq n name) names).0 h in
    subst (λ m. Has m names) (text_eq_sound n name same) has

is_clean_sound :
    (resource : Text) (names : List Text) → is_clean resource names ≡ true → IsLeft resource names
is_clean_sound resource names h = elim (Bool-cases (ltb 1 (length names))) [
  | inr e ↦ inl (ground arith)
  | inl e ↦
      let (maps, defaults) =
        both (is_config_maps resource) (has_only_default_config_maps names) (rw e at h) in
      let (two, rest) = both (length names == 2) _ defaults in
      let (root, service) =
        both (has_name (codes "kube-root-ca.crt") names)
          (has_name (codes "openshift-service-ca.crt") names) rest in
      inr (
        text_eq_sound resource (codes "configmaps") maps,
        ground arith,
        has_name_sound (codes "kube-root-ca.crt") names root,
        has_name_sound (codes "openshift-service-ca.crt") names service,
      )
]
  where
    both : (a b : Bool) → a && b ≡ true → (a ≡ true) × (b ≡ true)
    both true b h = (refl, h)
    both false b h = absurd (false-ne-true h)

timed_out-ne-reached : ◌≡◌ {A = Ended Text} timed_out reached → ⊥
timed_out-ne-reached h = cc

stopped-ne-reached : {e : Text} → stopped e ≡ reached → ⊥
stopped-ne-reached h = cc

poll_clean :
    (resource : Text) (polls : List (Result Text (List Text)))
    → poll (clean_step resource) polls ≡ reached
    → (names : List Text) × Has (ok names) polls × IsLeft resource names
poll_clean resource [] h = absurd (timed_out-ne-reached h)
poll_clean resource (err e ∷ polls) h = absurd (stopped-ne-reached h)
poll_clean resource (ok names ∷ polls) h = elim (Bool-cases (is_clean resource names)) [
  | inl e ↦ (names, inl refl, is_clean_sound resource names e)
  | inr e ↦ let (n, has, c) = poll_clean resource polls (rw e at h) in (n, inr has, c)
]

-- Each of the three has gone well.
cleaned_none :
    (e : Option Text) (wait : Ended Text) (rest : Option BuilderError)
    → cleaned_one e wait rest ≡ none
    → (e ≡ none) × (wait ≡ reached) × (rest ≡ none)
cleaned_none (some e) wait rest h = absurd (none-ne-some (sym h))
cleaned_none none reached rest h = (refl, refl, h)
cleaned_none none timed_out rest h = absurd (none-ne-some (sym h))
cleaned_none none (stopped e) rest h = absurd (none-ne-some (sym h))

clean_all-IsCleaned : (objects : List Cleaning) → clean_all objects ≡ none → All IsCleaned objects
unfolding clean_all
clean_all-IsCleaned [] h = tt
clean_all-IsCleaned (c ∷ objects) h =
    let (deleted, waited, rest) =
      cleaned_none c.deletion (poll (clean_step c.resource) c.polls) (clean_all objects) h in
    ((deleted, poll_clean c.resource c.polls waited), clean_all-IsCleaned objects rest)

-- If CleanObjects reports no error, it was given some kind of object, and the objects of each kind were
-- deleted without an error and were listed once with no more than one of them left, or with the two
-- default ConfigMaps.
pub clean_objects-IsCleaned :
    (c : Client Labels) (b : NamespaceBuilder) (w : c.World) (objects : List Cleaning)
    → clean_objects c b w objects ≡ none
    → (is_nil objects ≡ false) × All IsCleaned objects
unfolding clean_objects
clean_objects-IsCleaned c b w objects h =
    elim (Bool-cases (is_empty (checked_namespace b).error_msg)) [
      | inr e ↦ absurd (none-ne-some (sym (rw e at h)))
      | inl e ↦ elim (Bool-cases (is_nil objects)) [
        | inl f ↦ absurd (none-ne-some (sym (rw (e, f) at h)))
        | inr f ↦ elim (Bool-cases (namespace_exists c (checked_namespace b) w).0) [
          | inr g ↦ absurd (none-ne-some (sym (rw (e, f, g) at h)))
          | inl g ↦ (f, clean_all-IsCleaned objects (rw (e, f, g) at h))
        ]
      ]
    ]
