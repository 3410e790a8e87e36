-- ===== src/Cluster/Olm/Subscription.antt =====
-- pkg/olm/subscription.go: the methods of SubscriptionBuilder.
use nvidia_ci.Common.{Bool, true, false, ◌||◌, [], some, if◌then◌else◌, Result}
use nvidia_ci.Text.{Text, codes, text_eq, is_empty}
use nvidia_ci.Cluster.Api.{Client, Builder, BuilderError, message, does_not_exist}
use nvidia_ci.Cluster.Crd.{checked}
use nvidia_ci.Cluster.Olm.Defs.{
  OlmKind, new_olm_builder, checked_olm, with_change, olm_exists, olm_pull, olm_create, olm_delete,
  OlmOutcome, olm_written, call_olm_update,
}

abbrev pub subscription_kind : OlmKind
subscription_kind = record {
  kind = record { name = codes "Subscription"; crd_name = codes "Subscription" };
  name_error = codes "Subscription 'subName' cannot be empty";
  nsname_error = codes "Subscription 'subNamespace' cannot be empty";
}

-- SubscriptionSpec
pub record SubscriptionSpec : Type 0 where
  pub catalog_source : Text
  pub catalog_source_namespace : Text
  pub package_name : Text
  pub channel : Text
  pub starting_csv : Text
  pub install_plan_approval : Text

-- NewSubscriptionBuilder with a client; the last test that fails gives the message.
unfoldable pub new_subscription : Text → Text → Text → Text → Text → Builder SubscriptionSpec
unfolding new_olm_builder
new_subscription name nsname catalog_source catalog_source_namespace package_name =
    new_olm_builder subscription_kind name nsname
      record {
        catalog_source = catalog_source;
        catalog_source_namespace = catalog_source_namespace;
        package_name = package_name;
        channel = [];
        starting_csv = [];
        install_plan_approval = [];
      }
      (if is_empty package_name
        then codes "Subscription 'packageName' cannot be empty"
        else if is_empty catalog_source_namespace
        then codes "Subscription 'catalogSourceNamespace' cannot be empty"
        else if is_empty catalog_source
        then codes "Subscription 'catalogSource' cannot be empty"
        else [])

-- WithChannel
abbrev pub with_channel : Text → Builder SubscriptionSpec → Builder SubscriptionSpec
with_channel channel =
    with_change subscription_kind
      (if is_empty channel then codes "can not redefine subscription with empty channel" else [])
      (λ (s : SubscriptionSpec). record s { channel = channel })

-- WithStartingCSV
abbrev pub with_starting_csv : Text → Builder SubscriptionSpec → Builder SubscriptionSpec
with_starting_csv starting_csv =
    with_change subscription_kind
      (if is_empty starting_csv
        then codes "can not redefine subscription with empty startingCSV"
        else [])
      (λ (s : SubscriptionSpec). record s { starting_csv = starting_csv })

-- WithInstallPlanApproval
abbrev pub with_install_plan_approval : Text → Builder SubscriptionSpec → Builder SubscriptionSpec
with_install_plan_approval approval =
    with_change subscription_kind
      (if text_eq approval (codes "Automatic") || text_eq approval (codes "Manual")
        then []
        else codes "Subscription 'installPlanApproval' must be either \"Automatic\" or \"Manual\"")
      (λ (s : SubscriptionSpec). record s { install_plan_approval = approval })

-- validate
abbrev pub checked_subscription : {P : Type 0} → Builder P → Builder P
checked_subscription = checked_olm subscription_kind

module _ {P : Type 0} (c : Client P) where
  abbrev pub subscription_exists : Builder P → c.World → Bool × Builder P
  subscription_exists = olm_exists subscription_kind c

  abbrev pub pull_subscription : P → Text → Text → c.World → Result BuilderError (Builder P)
  pull_subscription = olm_pull subscription_kind c

  abbrev pub create_subscription : Builder P → c.World → OlmOutcome subscription_kind c
  create_subscription = olm_create subscription_kind c

  abbrev pub delete_subscription : Builder P → c.World → OlmOutcome subscription_kind c
  delete_subscription = olm_delete subscription_kind c

  abbrev pub update_there : Bool × Builder P → c.World → OlmOutcome subscription_kind c
  update_there (false, b) w = (b, some does_not_exist, w)
  update_there (true, b) w =
      olm_written subscription_kind c b (call_olm_update subscription_kind c b.definition w)

  abbrev pub update_subscription_if : Bool → Builder P → c.World → OlmOutcome subscription_kind c
  update_subscription_if false b w = (b, some (message b.error_msg), w)
  update_subscription_if true b w = update_there (subscription_exists b w) w

  -- Update, of a subscription that is there; the source returns nil for the builder of a missing one.
  unfoldable pub update_subscription : Builder P → c.World → OlmOutcome subscription_kind c
  unfolding olm_exists checked
  update_subscription b w =
      update_subscription_if (is_empty (checked_subscription b).error_msg) (checked_subscription b)
        w
