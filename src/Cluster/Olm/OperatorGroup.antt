-- ===== src/Cluster/Olm/OperatorGroup.antt =====
-- pkg/olm/operatorgroup.go: the methods of OperatorGroupBuilder.
use nvidia_ci.Common.{Bool, [], List, ◌∷◌, Result}
use nvidia_ci.Text.{Text, codes}
use nvidia_ci.Cluster.Api.{Client, Builder, BuilderError}
use nvidia_ci.Cluster.Olm.Defs.{
  OlmKind, new_olm_builder, checked_olm, olm_exists, olm_pull, olm_create, olm_delete, olm_update,
  OlmOutcome,
}

abbrev pub operator_group_kind : OlmKind
operator_group_kind = record {
  kind = record { name = codes "OperatorGroup"; crd_name = codes "OperatorGroup" };
  name_error = codes "OperatorGroup 'groupName' cannot be empty";
  nsname_error = codes "OperatorGroup 'Namespace' cannot be empty";
}

-- NewOperatorGroupBuilder with a client; `spec_of` makes the specification for the target namespaces.
abbrev pub new_operator_group : {P : Type 0} → (List Text → P) → Text → Text → Builder P
new_operator_group spec_of group_name ns_name =
    new_olm_builder operator_group_kind group_name ns_name (spec_of (ns_name ∷ [])) []

-- PullOperatorGroup has another message for an empty name.
abbrev pub pulled_operator_group_kind : OlmKind
pulled_operator_group_kind = record operator_group_kind {
  name_error = codes "OperatorGroup 'Name' cannot be empty";
}

-- validate
abbrev pub checked_operator_group : {P : Type 0} → Builder P → Builder P
checked_operator_group = checked_olm operator_group_kind

module _ {P : Type 0} (c : Client P) where
  abbrev pub operator_group_exists : Builder P → c.World → Bool × Builder P
  operator_group_exists = olm_exists operator_group_kind c

  abbrev pub pull_operator_group : P → Text → Text → c.World → Result BuilderError (Builder P)
  pull_operator_group = olm_pull pulled_operator_group_kind c

  abbrev pub create_operator_group : Builder P → c.World → OlmOutcome operator_group_kind c
  create_operator_group = olm_create operator_group_kind c

  abbrev pub delete_operator_group : Builder P → c.World → OlmOutcome operator_group_kind c
  delete_operator_group = olm_delete operator_group_kind c

  abbrev pub update_operator_group : Builder P → c.World → OlmOutcome operator_group_kind c
  update_operator_group = olm_update operator_group_kind c
