-- ===== src/Cluster/Olm/Settled.antt =====
-- About Create of the builders of pkg/olm: what a call that reports no error leaves in the cluster.
use nvidia_ci.Common.{
  Bool, true, false, ◌≡◌, refl, sym, ap, ◌∙◌, subst, [], none, some, none-ne-some, Result, ok, err,
}
use nvidia_ci.Text.{Text, is_empty}
use nvidia_ci.Cluster.Api.{Object, seems_there, reply_object, Client, IsClient, Builder}
use nvidia_ci.Cluster.Crd.{checked}
use nvidia_ci.Cluster.Olm.Defs.{
  OlmKind, checked_olm, olm_exists, olm_create, olm_create_if, olm_create_unless, olm_written,
  call_olm_create, OlmOutcome,
}

-- A builder with nothing to complain of, and its definition.
pub record IsSound {P : Type 0} (b : Builder P) (d : Object P) : Type 0 where
  pub defined : b.definition ≡ some d
  pub has_client : b.has_client ≡ true
  pub no_error : b.error_msg ≡ []

module _ (k : OlmKind) {P : Type 0} (c : Client P) (law : IsClient c) where
  -- Get does not say that the object is missing.
  abbrev pub IsThere : Object P → c.World → Type 0
  IsThere d w = seems_there (c.get d.namespace d.name w) ≡ true

  checked_sound : (b : Builder P) (d : Object P) → IsSound b d → checked_olm k b ≡ b
  unfolding checked
  checked_sound b d r = ap (λ e. record b { error_msg = e }) (rw (r.has_client, r.defined))

  exists_sound :
      (b : Builder P) (d : Object P) (w : c.World)
      → IsSound b d
      → olm_exists k c b w ≡ (
        seems_there (c.get d.namespace d.name w),
        record b { object = reply_object (c.get d.namespace d.name w) },
      )
  unfolding olm_exists checked
  exists_sound b d w r = rw (r.has_client, r.defined, r.no_error)

  create_sound :
      (b : Builder P) (d : Object P) (w : c.World)
      → IsSound b d
      → olm_create k c b w ≡ olm_create_unless k c (olm_exists k c b w) w
  unfolding olm_create
  create_sound b d w r =
      ap (λ x. olm_create_if k c (is_empty x.error_msg) x w) (checked_sound b d r)
      ∙ ap (λ e. olm_create_if k c (is_empty e) b w) r.no_error

  written-IsThere :
      (b b' : Builder P) (d : Object P) (w w' : c.World) (r : Result Text (Object P) × c.World)
      → c.create d w ≡ r
      → olm_written k c b r ≡ (b', none, w')
      → IsThere d w'
  written-IsThere b b' d w w' (ok o, v) call done =
      subst (IsThere d) (ap (λ (t : OlmOutcome k c). t.2) done)
        (ap seems_there (law.create_found d o w v call))
  written-IsThere b b' d w w' (err e, v) call done =
      absurd (none-ne-some (sym (ap (λ (t : OlmOutcome k c). t.1) done)))

  unless-IsThere :
      (there : Bool) (b b' : Builder P) (d : Object P) (w w' : c.World)
      → b.definition ≡ some d
      → seems_there (c.get d.namespace d.name w) ≡ there
      → olm_create_unless k c (there, b) w ≡ (b', none, w')
      → IsThere d w'
  unless-IsThere true b b' d w w' defined at done =
      subst (IsThere d) (ap (λ (t : OlmOutcome k c). t.2) done) at
  unless-IsThere false b b' d w w' defined at done =
      written-IsThere b b' d w w' (c.create d w) refl
        (subst (λ o. olm_written k c b (call_olm_create k c o w) ≡ (b', none, w')) defined done)

  -- For a builder of pkg/olm with a definition, a client and no message, and a client under which a
  -- created object is found: if Create reports no error, Get does not say behind it that the object is
  -- missing.
  pub olm_create-IsThere :
      (b b' : Builder P) (d : Object P) (w w' : c.World)
      → IsSound b d
      → olm_create k c b w ≡ (b', none, w')
      → IsThere d w'
  olm_create-IsThere b b' d w w' r done =
      unless-IsThere (seems_there (c.get d.namespace d.name w))
        (record b { object = reply_object (c.get d.namespace d.name w) }) b' d w w' r.defined refl
        (ap (λ t. olm_create_unless k c t w) (sym (exists_sound b d w r))
          ∙ sym (create_sound b d w r)
          ∙ done)
