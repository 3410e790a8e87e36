-- ===== src/Cluster/Olm/InstallPlan.antt =====
-- pkg/olm/installplan.go: the methods of InstallPlanBuilder.
use nvidia_ci.Common.{Bool, []}
use nvidia_ci.Text.{Text, codes}
use nvidia_ci.Cluster.Api.{Client, Builder}
use nvidia_ci.Cluster.Olm.Defs.{
  OlmKind, new_olm_builder, checked_olm, olm_exists, olm_create, olm_delete, olm_update, OlmOutcome,
}

abbrev pub install_plan_kind : OlmKind
install_plan_kind = record {
  kind = record { name = codes "InstallPlan"; crd_name = codes "installplan" };
  name_error = codes "installplan 'name' cannot be empty";
  nsname_error = codes "installplan 'nsname' cannot be empty";
}

-- NewInstallPlanBuilder with a client
abbrev pub new_install_plan : {P : Type 0} → P → Text → Text → Builder P
new_install_plan no_spec name nsname = new_olm_builder install_plan_kind name nsname no_spec []

-- validate
abbrev pub checked_install_plan : {P : Type 0} → Builder P → Builder P
checked_install_plan = checked_olm install_plan_kind

module _ {P : Type 0} (c : Client P) where
  abbrev pub install_plan_exists : Builder P → c.World → Bool × Builder P
  install_plan_exists = olm_exists install_plan_kind c

  abbrev pub create_install_plan : Builder P → c.World → OlmOutcome install_plan_kind c
  create_install_plan = olm_create install_plan_kind c

  abbrev pub delete_install_plan : Builder P → c.World → OlmOutcome install_plan_kind c
  delete_install_plan = olm_delete install_plan_kind c

  abbrev pub update_install_plan : Builder P → c.World → OlmOutcome install_plan_kind c
  update_install_plan = olm_update install_plan_kind c
