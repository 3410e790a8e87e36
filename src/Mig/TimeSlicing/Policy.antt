-- ===== src/Mig/TimeSlicing/Policy.antt =====
-- About the pulls and the updates of the ClusterPolicy over the store, where no reading call fails.
use nvidia_ci.Common.{
  suc, ◌≡◌, refl, sym, ap, subst, Bool, true, false, [], Option, none, some, ok, err, err-ne-ok,
  ok_inj,
}
use nvidia_ci.Text.{Text}
use nvidia_ci.Text.Labels.{Labels}
use nvidia_ci.Cluster.Api.{Object}
use nvidia_ci.Cluster.Crd.{
  CrdBuilder, checked, crd_exists, crd_create, crd_delete, crd_update, created, deleted, recreate,
  updated,
}
use nvidia_ci.Cluster.ClusterPolicy.{cluster_policy_kind, pull_cluster_policy}
use nvidia_ci.Mig.TimeSlicing.Store.{
  Spec, World, Faults, tick, StepFailure, Outcome, Action, continue, policy_object, write_policy,
  add_policy, drop_policy, policy_client,
}
use nvidia_ci.Mig.TimeSlicing.Defs.{
  pull_policy, with_spec, update_outcome, update_policy, change_policy,
}

abbrev pub no_faults : Faults
no_faults n = none

module _ {A : Type 0} where
  pub failed-ne-done :
      {e : StepFailure} {a : A} {w w' : World} → ◌≡◌ {A = Outcome A} (err e, w) (ok a, w') → ⊥
  failed-ne-done h = err-ne-ok (ap (λ (t : Outcome A). t.0) h)

  pub world_of : {a b : A} {w w' : World} → ◌≡◌ {A = Outcome A} (ok a, w) (ok b, w') → w ≡ w'
  world_of h = ap (λ (t : Outcome A). t.1) h

  pub value_of : {a b : A} {w w' : World} → ◌≡◌ {A = Outcome A} (ok a, w) (ok b, w') → a ≡ b
  value_of h = ok_inj (ap (λ (t : Outcome A). t.0) h)

-- A step that ends well, and what it hands on.
pub continue-eq-ok :
    {A B : Type 0} (f : A → Action B) (r : Outcome A) {b : B} {w' : World}
    → continue f r ≡ (ok b, w')
    → (a : A) × (w : World) × (r ≡ (ok a, w)) × (f a w ≡ (ok b, w'))
continue-eq-ok f (ok a, w) h = (a, w, refl, h)
continue-eq-ok f (err e, w) h = absurd (failed-ne-done h)

abbrev pub pulled_builder : Spec → CrdBuilder Spec
pulled_builder spec = record {
  definition = some (policy_object spec);
  object = some (policy_object spec);
  error_msg = [];
  has_client = true;
}

module _ (writes : Faults) where
  -- The pull of a policy that is there.
  pub pull_policy-eq :
      (w : World) (spec : Spec)
      → w.policy ≡ some spec
      → pull_policy no_faults writes w ≡ (ok (pulled_builder spec), w)
  unfolding pull_policy pull_cluster_policy crd_exists checked
  pull_policy-eq w spec there =
      subst (λ v. pull_policy no_faults writes v ≡ (ok (pulled_builder spec), v))
        (sym (ap (λ p. record w { policy = p }) there)) refl

  -- The policy is the new one, and the ConfigMap the old one.
  abbrev pub IsChanged : Spec → Option Labels → World → Type 0
  IsChanged spec cm w = (w.policy ≡ some spec) × (w.config_map ≡ cm)

  module _ (old new : Spec) (cm : Option Labels) where
    after_create :
        (f : Option Text) (b : CrdBuilder Spec) (w w' : World)
        → w.config_map ≡ cm
        → update_outcome no_faults writes (
            created cluster_policy_kind
              (policy_client no_faults writes)
              b
              (add_policy f none (policy_object new) w))
          ≡ (ok tt, w')
        → IsChanged new cm w'
    after_create (some e) b w w' same h = absurd (failed-ne-done h)
    after_create none b w w' same h = subst (IsChanged new cm) (world_of h) (refl, same)

    after_delete :
        (f : Option Text) (o : Option (Object Spec)) (w w' : World)
        → w.config_map ≡ cm
        → update_outcome no_faults writes (
            recreate cluster_policy_kind (policy_client no_faults writes) (
              deleted cluster_policy_kind
                (policy_client no_faults writes)
                (record (with_spec no_faults writes (pulled_builder old) (policy_object new)) {
                  object = o;
                })
                (drop_policy f (some old) w)))
          ≡ (ok tt, w')
        → IsChanged new cm w'
    unfolding crd_create crd_exists checked
    after_delete (some e) o w w' same h = absurd (failed-ne-done h)
    after_delete none o w w' same h =
        after_create (writes (suc w.calls))
          (record (with_spec no_faults writes (pulled_builder old) (policy_object new)) {
            object = none;
          })
          (tick (record w { policy = none })) w' same h

    after_update :
        (f : Option Text) (force : Bool) (w w' : World)
        → w.config_map ≡ cm
        → update_outcome no_faults writes (
            updated cluster_policy_kind
              (policy_client no_faults writes)
              force
              (with_spec no_faults writes (pulled_builder old) (policy_object new))
              (write_policy f (some old) (policy_object new) (record w { policy = some old })))
          ≡ (ok tt, w')
        → IsChanged new cm w'
    unfolding crd_delete crd_exists checked
    after_update none force w w' same h = subst (IsChanged new cm) (world_of h) (refl, same)
    after_update (some e) false w w' same h = absurd (failed-ne-done h)
    after_update (some e) true w w' same h =
        after_delete (writes (suc w.calls)) (some (policy_object old))
          (tick (record w { policy = some old })) w' same h

  -- A change of the policy that reports no error.
  pub change_policy-IsChanged :
      (force : Bool) (change : Spec → Spec) (w w' : World) (spec : Spec)
      → w.policy ≡ some spec
      → change_policy no_faults writes force change (pulled_builder spec) w ≡ (ok tt, w')
      → IsChanged (change spec) w.config_map w'
  unfolding update_policy crd_update checked
  change_policy-IsChanged force change w w' spec there h =
      after_update spec (change spec) w.config_map (writes w.calls) force w w' refl (
        subst
          (λ v. change_policy no_faults writes force change (pulled_builder spec) v ≡ (ok tt, w'))
          (ap (λ p. record w { policy = p }) there) h)
