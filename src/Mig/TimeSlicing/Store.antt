-- ===== src/Mig/TimeSlicing/Store.antt =====
-- The cluster's objects that time slicing reads and writes, and the calls of the API on them. A call
-- reads `reads` or `writes` at the number of the writing calls so far: an error there is the call's.
use nvidia_ci.Common.{
  ℕ, suc, Bool, List, [], ◌∷◌, Option, none, some, if◌then◌else◌, Result, ok, err,
}
use nvidia_ci.Text.{Text, codes, text_eq}
use nvidia_ci.Text.Labels.{Labels}
use nvidia_ci.Cluster.Api.{Object, Reply, found, not_found, failed, Client, BuilderError}

-- DevicePluginConfig
pub record PluginConfig : Type 0 where
  pub name : Text
  pub default_config : Text

-- Spec.DevicePlugin.Config and Spec.GPUFeatureDiscovery.Enabled of a ClusterPolicy, which may be nil, its
-- Status.State, and the rest of it.
pub record Spec : Type 0 where
  pub device_plugin_config : Option PluginConfig
  pub gfd_enabled : Option Bool
  pub state : Text
  pub rest : Text

pub record GpuNode : Type 0 where
  pub name : Text
  pub labels : Labels

-- The ClusterPolicy, the data of the device plugin's ConfigMap, the nodes, and the count of calls.
pub record World : Type 0 where
  pub policy : Option Spec
  pub config_map : Option Labels
  pub nodes : List GpuNode
  pub calls : ℕ

abbrev pub Faults : Type 0
Faults = ℕ → Option Text

abbrev pub tick : World → World
tick w = record w { calls = suc w.calls }

pub data StepFailure : Type 0 where
  nil_pointer refused not_in_time : StepFailure
  call_failed : Text → StepFailure
  builder_failed : BuilderError → StepFailure

-- A call's outcome and the world behind it.
abbrev pub Outcome : Type 0 → Type 0
Outcome A = Result StepFailure A × World

abbrev pub Action : Type 0 → Type 0
Action A = World → Outcome A

abbrev pub continue : {A B : Type 0} → (A → Action B) → Outcome A → Outcome B
continue f (ok a, w) = f a w
continue f (err e, w) = (err e, w)

infixl 5 ◌>>=◌ ◌>>◌
abbrev pub ◌>>=◌ : {A B : Type 0} → Action A → (A → Action B) → Action B
◌>>=◌ m f w = continue f (m w)

abbrev pub ◌>>◌ : {A B : Type 0} → Action A → Action B → Action B
m >> k = m >>= λ _. k

abbrev pub pure : {A : Type 0} → A → Action A
pure a w = (ok a, w)

abbrev pub raise : {A : Type 0} → StepFailure → Action A
raise e w = (err e, w)

abbrev pub policy_name : Text
policy_name = codes "gpu-cluster-policy"

abbrev pub policy_object : Spec → Object Spec
policy_object spec = record { name = policy_name; namespace = []; payload = spec }

abbrev pub policy_reply : Option Text → Option Spec → Reply Spec
policy_reply (some e) policy = failed none e
policy_reply none none = not_found none
policy_reply none (some spec) = found (policy_object spec)

abbrev pub write_policy :
    Option Text → Option Spec → Object Spec → World → Result Text (Object Spec) × World
write_policy (some e) policy o w = (err e, tick w)
write_policy none none o w = (err (codes "not found"), tick w)
write_policy none (some old) o w = (ok o, tick (record w { policy = some o.payload }))

abbrev pub add_policy :
    Option Text → Option Spec → Object Spec → World → Result Text (Object Spec) × World
add_policy (some e) policy o w = (err e, tick w)
add_policy none none o w = (ok o, tick (record w { policy = some o.payload }))
add_policy none (some old) o w = (err (codes "already exists"), tick w)

abbrev pub drop_policy : Option Text → Option Spec → World → Option Text × World
drop_policy (some e) policy w = (some e, tick w)
drop_policy none none w = (some (codes "not found"), tick w)
drop_policy none (some old) w = (none, tick (record w { policy = none }))

-- The outcomes of the ConfigMap's calls.
pub data CallError : Type 0 where
  already_exists missing : CallError
  other : Text → CallError

abbrev pub read_config_map : Option Text → Option Labels → Result CallError Labels
read_config_map (some e) data' = err (other e)
read_config_map none none = err missing
read_config_map none (some data') = ok data'

abbrev pub add_config_map :
    Option Text → Option Labels → Labels → World → Result CallError Labels × World
add_config_map (some e) old data' w = (err (other e), tick w)
add_config_map none none data' w = (ok data', tick (record w { config_map = some data' }))
add_config_map none (some old) data' w = (err already_exists, tick w)

abbrev pub write_config_map :
    Option Text → Option Labels → Labels → World → Result CallError Labels × World
write_config_map (some e) old data' w = (err (other e), tick w)
write_config_map none none data' w = (err missing, tick w)
write_config_map none (some old) data' w = (ok data', tick (record w { config_map = some data' }))

abbrev pub drop_config_map : Option Text → Option Labels → World → Option CallError × World
drop_config_map (some e) old w = (some (other e), tick w)
drop_config_map none none w = (some missing, tick w)
drop_config_map none (some old) w = (none, tick (record w { config_map = none }))

-- The node of the same name is replaced.
abbrev pub put_node : GpuNode → List GpuNode → List GpuNode
put_node n [] = []
put_node n (m ∷ nodes) =
    let rest = put_node n nodes in if text_eq m.name n.name then n ∷ rest else m ∷ rest

module _ (reads writes : Faults) where
  -- The client of the ClusterPolicy builder.
  abbrev pub policy_client : Client Spec
  policy_client = record {
    World = World;
    get = λ ns name w. policy_reply (reads w.calls) w.policy;
    create = λ o w. add_policy (writes w.calls) w.policy o w;
    update = λ o w. write_policy (writes w.calls) w.policy o w;
    delete = λ ns name w. drop_policy (writes w.calls) w.policy w;
  }
