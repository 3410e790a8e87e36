-- ===== src/Wait/Created/Early.antt =====
-- About DeploymentCreated under an API server that answers with another error than a missing object.
use nvidia_ci.Common.{◌≡◌, List, [], ◌∷◌, ◌++◌, Option, some, true, false, All}
use nvidia_ci.Text.{Text, is_empty}
use nvidia_ci.Cluster.Api.{Object, not_found, failed, Client}
use nvidia_ci.Cluster.Deployment.{pull_deployment, deployment_exists}
use nvidia_ci.Wait.Poll.{reached, poll}
use nvidia_ci.Wait.Created.{deployment_step, deployment_created}

module _ {P : Type 0} (c : Client P) (no_spec : P) (name namespace : Text) where
  -- Get says that the deployment is missing.
  abbrev pub IsMissing : c.World → Type 0
  IsMissing w = (o : Option (Object P)) × (c.get namespace name w ≡ not_found o)

  early :
      (before : List c.World) (w : c.World) (later : List c.World) (nothing o : Object P)
      (e e' : Text)
      → is_empty name ≡ false
      → is_empty namespace ≡ false
      → All IsMissing before
      → c.get namespace name w ≡ failed (some nothing) e
      → c.get nothing.namespace nothing.name w ≡ failed (some o) e'
      → poll
          (λ v. deployment_step c no_spec (pull_deployment c no_spec name namespace v) v)
          (before ++ w ∷ later)
        ≡ reached
  unfolding pull_deployment deployment_exists
  early [] w later nothing o e e' named spaced missing fails refused =
      rw (named, spaced, fails, refused)
  early (v ∷ before) w later nothing o e e' named spaced ((m, at), missing) fails refused =
      rw (named, spaced, at)
        (early before w later nothing o e e' named spaced missing fails refused)

  -- For a deployment with a name and a namespace: if it is missing at each poll up to one at which Get
  -- fails for another reason, with an empty object for which Get fails in such a way too, the wait
  -- reports that the deployment was created.
  pub deployment_created-early :
      (before : List c.World) (w : c.World) (later : List c.World) (nothing o : Object P)
      (e e' : Text)
      → is_empty name ≡ false
      → is_empty namespace ≡ false
      → All IsMissing before
      → c.get namespace name w ≡ failed (some nothing) e
      → c.get nothing.namespace nothing.name w ≡ failed (some o) e'
      → deployment_created c no_spec name namespace (before ++ w ∷ later) ≡ true
  unfolding deployment_created
  deployment_created-early before w later nothing o e e' named spaced missing fails refused =
      rw (early before w later nothing o e e' named spaced missing fails refused)
