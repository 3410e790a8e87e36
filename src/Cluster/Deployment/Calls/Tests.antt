-- ===== src/Cluster/Deployment/Calls/Tests.antt =====
-- A deployment of two replicas that is created and becomes ready.
use nvidia_ci.Common.{◌≡◌, refl, true, [], ◌∷◌, Option, none, some, ok}
use nvidia_ci.Text.{codes}
use nvidia_ci.Cluster.Api.{Object, found, not_found, Client}
use nvidia_ci.Cluster.Deployment.Calls.{Status, DeploymentBuilder, create_and_wait_until_ready}
use nvidia_ci.Cluster.Deployment.Calls.Rollout.{
  WasSeenReady, create_and_wait_until_ready-WasSeenReady,
}

abbrev cluster : Client Status
cluster = record {
  World = Option (Object Status);
  get = λ ns n w. elim w [ none ↦ not_found none | some o ↦ found o ];
  create = λ o w. (ok o, some o);
  update = λ o w. (ok o, some o);
  delete = λ ns n w. (none, none);
}

abbrev web : Object Status
web = record {
  name = codes "web";
  namespace = codes "ns";
  payload = record { replicas = 2; ready_replicas = 1; conditions = [] };
}

abbrev web_ready : Object Status
web_ready = record web { payload = record web.payload { ready_replicas = 2 } }

abbrev to_create : DeploymentBuilder
to_create = record { definition = some web; object = none; error_msg = []; has_client = true }

becomes_ready :
    create_and_wait_until_ready cluster to_create none (found web ∷ found web_ready ∷ [])
    ≡ ok (record to_create { object = some web })
unfolding create_and_wait_until_ready
becomes_ready = refl

create_and_wait_until_ready-WasSeenReady_example : WasSeenReady (found web ∷ found web_ready ∷ [])
create_and_wait_until_ready-WasSeenReady_example =
    create_and_wait_until_ready-WasSeenReady cluster to_create
      (record to_create { object = some web }) none (found web ∷ found web_ready ∷ []) becomes_ready
