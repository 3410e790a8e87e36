-- ===== src/Cluster/ConfigMap/Behaviour.antt =====
-- What the ConfigMap builder does to the cluster.
use nvidia_ci.Common.{
  true, false, ◌≡◌, refl, sym, ap, ◌∙◌, subst, ◌⊎◌, inl, inr, ◌↔◌, [], ◌∷◌, Option, none, some,
  none-ne-some, false-ne-true, Result, ok, err, err-ne-ok, ok_inj,
}
use nvidia_ci.Text.{Text, is_empty}
use nvidia_ci.Text.Labels.{Labels}
use nvidia_ci.Cluster.Api.{
  Object, Reply, found, not_found, failed, reply_object, seems_there, Client, IsClient,
}
use nvidia_ci.Cluster.ConfigMap.Defs.{
  ConfigMapBuilder, config_map_of, new_builder, validate, lookup_of, exists, pull, pulled, Outcome,
  created, create_unless, create_config_map,
}

-- A builder that is valid, with the definition `d`.
pub record IsValid (b : ConfigMapBuilder) (d : Object Labels) : Type 0 where
  pub valid : validate b ≡ none
  pub defined : b.definition ≡ some d

module _ (c : Client Labels) (b : ConfigMapBuilder) (d : Object Labels) (v : IsValid b d) where
  -- What Exists answers and leaves.
  exists-valid :
      (w : c.World)
      → exists c b w
        ≡ (seems_there (lookup_of c d w), record b { object = reply_object (lookup_of c d w) })
  unfolding exists
  exists-valid w = rw (v.valid, v.defined)

  create-reply :
      (w : c.World) (r : Reply Labels)
      → lookup_of c d w ≡ r
      → create_config_map c b w
        ≡ create_unless c (seems_there r, record b { object = reply_object r }) w
  unfolding create_config_map
  create-reply w r e = rw (v.valid, exists-valid w, e)

  create-present :
      (w : c.World) (o : Object Labels)
      → lookup_of c d w ≡ found o
      → create_config_map c b w ≡ (record b { object = some o }, none, w)
  create-present w o e = create-reply w (found o) e

  -- If Get fails for another reason than a missing object, Create reports success, and the cluster
  -- is unchanged: no object is created.
  pub create_config_map-failed :
      (w : c.World) (o : Option (Object Labels)) (e : Text)
      → lookup_of c d w ≡ failed o e
      → create_config_map c b w ≡ (record b { object = o }, none, w)
  create_config_map-failed w o e h = create-reply w (failed o e) h

  create-absent :
      (w : c.World) (o : Option (Object Labels))
      → lookup_of c d w ≡ not_found o
      → create_config_map c b w ≡ created c (record b { object = o }) (c.create d w)
  create-absent w o e = create-reply w (not_found o) e ∙ (rw v.defined)

  -- The object is there, or Get fails in an unchanged cluster.
  abbrev pub IsSettled : c.World → c.World → Type 0
  IsSettled w w' =
      ((o : Object Labels) × (lookup_of c d w' ≡ found o))
      ⊎ ((o : Option (Object Labels)) × (e : Text) × (lookup_of c d w ≡ failed o e) × (w' ≡ w))

  created-IsSettled :
      IsClient c
      → (b₁ b' : ConfigMapBuilder) (w w' : c.World) (r : Result Text (Object Labels) × c.World)
      → c.create d w ≡ r
      → created c b₁ r ≡ (b', none, w')
      → IsSettled w w'
  created-IsSettled law b₁ b' w w' (ok o, w₁) at h = inl (
    o,
    law.create_found d o w w'
        (at ∙ ap (λ (x : c.World). (ok o, x)) (ap (λ (t : Outcome c). t.2) h)),
  )
  created-IsSettled law b₁ b' w w' (err e, w₁) at h =
      absurd (none-ne-some (sym (ap (λ (t : Outcome c). t.1) h)))

  -- If Create reports no error, the object is in the cluster, or Get fails for another reason than a
  -- missing object and the cluster is unchanged.
  pub create_config_map-IsSettled :
      IsClient c
      → (b' : ConfigMapBuilder) (w w' : c.World) → create_config_map c b w ≡ (b', none, w')
      → IsSettled w w'
  create_config_map-IsSettled law b' w w' h = of_reply (lookup_of c d w) refl
    where
      of_reply : (r : Reply Labels) → lookup_of c d w ≡ r → IsSettled w w'
      of_reply (found o) e =
          let same : w ≡ w' = ap (λ (t : Outcome c). t.2) (sym (create-present w o e) ∙ h) in
          inl (o, subst (λ x. lookup_of c d x ≡ found o) same e)
      of_reply (failed o x) e =
          let same : w ≡ w' =
            ap (λ (t : Outcome c). t.2) (sym (create_config_map-failed w o x e) ∙ h) in
          inr (o, x, e, sym same)
      of_reply (not_found o) e =
          created-IsSettled law (record b { object = o }) b' w w' (c.create d w) refl
            (sym (create-absent w o e) ∙ h)

  -- A second Create behind a successful one changes nothing and succeeds.
  pub create_config_map-again :
      IsClient c
      → (b' : ConfigMapBuilder) (w w' : c.World) → create_config_map c b w ≡ (b', none, w')
      → ((create_config_map c b w').1 ≡ none) × ((create_config_map c b w').2 ≡ w')
  create_config_map-again law b' w w' h = elim (create_config_map-IsSettled law b' w w' h) [
    | inl found_there ↦
        let again = create-present w' found_there.0 found_there.1 in
        (ap (λ (t : Outcome c). t.1) again, ap (λ (t : Outcome c). t.2) again)
    | inr fails ↦
        let again =
          create_config_map-failed w' fails.0 fails.1
            (subst (λ x. lookup_of c d x ≡ failed fails.0 fails.1) (sym fails.3) fails.2) in
        (ap (λ (t : Outcome c). t.1) again, ap (λ (t : Outcome c). t.2) again)
  ]

-- A new builder is valid exactly when neither name is empty.
pub new_builder_iff :
    (name nsname : Text)
    → (validate (new_builder name nsname) ≡ none)
      ↔ ((is_empty name ≡ false) × (is_empty nsname ≡ false))
unfolding validate new_builder
new_builder_iff [] nsname =
    (λ h. absurd (none-ne-some (sym h)), λ h. absurd (false-ne-true (sym h.0)))
new_builder_iff (a ∷ name) [] =
    (λ h. absurd (none-ne-some (sym h)), λ h. absurd (false-ne-true (sym h.1)))
new_builder_iff (a ∷ name) (d ∷ nsname) = (λ h. (refl, refl), λ h. refl)

-- A pulled builder has the cluster's answer as its definition and as its object, and no error. The
-- answer does not say that the object is missing.
pub pull_sound :
    (c : Client Labels) (name nsname : Text) (w : c.World) (b : ConfigMapBuilder)
    → pull c name nsname w ≡ ok b
    → (seems_there (c.get nsname name w) ≡ true)
      × (b.object ≡ reply_object (c.get nsname name w))
      × (b.definition ≡ b.object)
      × (b.error_msg ≡ [])
unfolding pull exists validate
pull_sound c [] nsname w b h = absurd (err-ne-ok h)
pull_sound c (a ∷ name) [] w b h = absurd (err-ne-ok h)
pull_sound c (a ∷ name) (d ∷ nsname) w b h = of_reply (c.get (d ∷ nsname) (a ∷ name) w) h
  where
    asked : Reply Labels → ConfigMapBuilder
    asked r = record {
      definition = some (config_map_of (a ∷ name) (d ∷ nsname));
      object = reply_object r;
      error_msg = [];
      has_client = true;
    }

    of_reply :
        (r : Reply Labels)
        → pulled c (seems_there r, asked r) ≡ ok b
        → (seems_there r ≡ true)
          × (b.object ≡ reply_object r)
          × (b.definition ≡ b.object)
          × (b.error_msg ≡ [])
    of_reply (found o) p = rw (← ok_inj p) (refl, refl, refl, refl)
    of_reply (not_found o) p = absurd (err-ne-ok p)
    of_reply (failed o e) p = rw (← ok_inj p) (refl, refl, refl, refl)
