-- ===== src/Cluster/Deployment/Calls/Rollout.antt =====
-- About CreateAndWaitUntilReady: a deployment that it returns was seen with all its replicas ready.
use nvidia_ci.Common.{
  ◌<◌, arith, ◌≡◌, refl, Bool-cases, inl, inr, true, List, [], ◌∷◌, none, some, Has, ok, err-ne-ok,
  false-ne-true,
}
use nvidia_ci.Cluster.Api.{Object, Reply, found, not_found, failed, Client}
use nvidia_ci.Wait.Poll.{poll}
use nvidia_ci.Cluster.Deployment.Calls.{
  Status, DeploymentBuilder, is_rolled_out, rollout_step, ends_well, Outcome, create_deployment,
  deployment_is_ready, ready_behind, create_and_wait_until_ready,
}
use nvidia_ci.Cluster.Deployment.{deployment_exists}

-- An answer to Get has shown a ready replica, and as many ready replicas as replicas.
abbrev pub WasSeenReady : List (Reply Status) → Type 0
WasSeenReady polls =
    (o : Object Status) × Has (found o) polls
    × (0 < o.payload.ready_replicas)
    × (o.payload.replicas ≡ o.payload.ready_replicas)

is_rolled_out_sound :
    (s : Status) → is_rolled_out s ≡ true → (0 < s.ready_replicas) × (s.replicas ≡ s.ready_replicas)
is_rolled_out_sound s h = (ground arith, ground arith)

seen :
    (polls : List (Reply Status)) → ends_well (poll rollout_step polls) ≡ true → WasSeenReady polls
seen [] h = absurd (false-ne-true h)
seen (not_found o ∷ polls) h = absurd (false-ne-true h)
seen (failed o e ∷ polls) h = absurd (false-ne-true h)
seen (found o ∷ polls) h = elim (Bool-cases (is_rolled_out o.payload)) [
  | inl e ↦
      let (some_ready, all_ready) = is_rolled_out_sound o.payload e in
      (o, inl refl, some_ready, all_ready)
  | inr e ↦
      let (x, has, some_ready, all_ready) = seen polls (rw e at h) in
      (x, inr has, some_ready, all_ready)
]

ready-seen :
    (c : Client Status) (b : DeploymentBuilder) (w : c.World) (polls : List (Reply Status))
    → deployment_is_ready c b w polls ≡ true
    → WasSeenReady polls
unfolding deployment_is_ready
ready-seen c b w polls h = elim (Bool-cases (deployment_exists c b w).0) [
  | inl e ↦ seen polls (rw e at h)
  | inr e ↦ absurd (false-ne-true (rw e at h))
]

behind-seen :
    (c : Client Status) (r : Outcome c) (b : DeploymentBuilder) (polls : List (Reply Status))
    → ready_behind c r polls ≡ ok b
    → WasSeenReady polls
behind-seen c (b', some e, w) b polls h = absurd (err-ne-ok h)
behind-seen c (b', none, w) b polls h = elim (Bool-cases (deployment_is_ready c b' w polls)) [
  | inl e ↦ ready-seen c b' w polls e
  | inr e ↦ absurd (err-ne-ok (rw e at h))
]

-- If CreateAndWaitUntilReady returns a builder, an answer to Get up to the timeout had a deployment with
-- at least one ready replica and as many ready replicas as replicas.
pub create_and_wait_until_ready-WasSeenReady :
    (c : Client Status) (b b' : DeploymentBuilder) (w : c.World) (polls : List (Reply Status))
    → create_and_wait_until_ready c b w polls ≡ ok b'
    → WasSeenReady polls
unfolding create_and_wait_until_ready
create_and_wait_until_ready-WasSeenReady c b b' w polls h =
    behind-seen c (create_deployment c b w) b' polls h
