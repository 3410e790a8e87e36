-- ===== src/Cluster/Crd/Behaviour.antt =====
-- About the builders of cluster-scoped custom resources: a pull, and what can be done with its builder.
use nvidia_ci.Common.{Bool, true, false, ◌≡◌, refl, [], Option, none, some, ok}
use nvidia_ci.Text.{Text, is_empty}
use nvidia_ci.Cluster.Api.{Object, found, failed, Client, message}
use nvidia_ci.Cluster.Crd.Defs.{
  Kind, CrdBuilder, undefined_error, checked, crd_pull, crd_exists, crd_create, crd_delete,
  crd_update,
}

module _ (k : Kind) {P : Type 0} (c : Client P) where
  -- No definition: each call ends with the same error and leaves the cluster.
  pub record IsUseless (b : CrdBuilder P) : Type 0 where
    pub create_fails :
        (w : c.World)
        → crd_create k c b w
          ≡ (record b { error_msg = (undefined_error k) }, some (message (undefined_error k)), w)
    pub delete_fails :
        (w : c.World)
        → crd_delete k c b w
          ≡ (record b { error_msg = (undefined_error k) }, some (message (undefined_error k)), w)
    pub update_fails :
        (force : Bool) (w : c.World)
        → crd_update k c force b w
          ≡ (record b { error_msg = (undefined_error k) }, some (message (undefined_error k)), w)

  -- If Get fails for another reason than a missing object, the pull still succeeds, with a builder
  -- that has no definition and of which Create, Delete and Update all fail.
  pub crd_pull-failed :
      (no_spec : P) (name : Text) (w : c.World) (o : Option (Object P)) (e : Text)
      → is_empty name ≡ false
      → c.get [] name w ≡ failed o e
      → (b : CrdBuilder P) × (crd_pull k c no_spec name w ≡ ok b)
        × (b.definition ≡ none)
        × IsUseless b
  crd_pull-failed no_spec name w o e named fails = (
    record { definition = none; object = none; error_msg = []; has_client = true },
    unfold crd_pull crd_exists checked in rw (named, fails),
    refl,
    record {
      create_fails = λ v. unfold crd_create checked in refl;
      delete_fails = λ v. unfold crd_delete checked in refl;
      update_fails = λ force v. unfold crd_update checked in refl;
    },
  )

  -- A pull that finds the object gives a builder that is valid and whose definition is that object.
  pub crd_pull-found :
      (no_spec : P) (name : Text) (w : c.World) (o : Object P)
      → is_empty name ≡ false
      → c.get [] name w ≡ found o
      → crd_pull k c no_spec name w
        ≡ ok (record { definition = some o; object = some o; error_msg = []; has_client = true })
  unfolding crd_pull crd_exists checked
  crd_pull-found no_spec name w o named at = rw (named, at)
