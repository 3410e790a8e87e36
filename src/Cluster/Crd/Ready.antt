-- ===== src/Cluster/Crd/Ready.antt =====
-- About validate of the builders of custom resources: the builders that it leaves as they are.
use nvidia_ci.Common.{◌≡◌, ap, [], some, true}
use nvidia_ci.Cluster.Api.{Object}
use nvidia_ci.Cluster.Crd.Defs.{Kind, CrdBuilder, checked}

-- A builder with nothing to complain of, and the definition `d` of a cluster-scoped object.
pub record IsReady {P : Type 0} (b : CrdBuilder P) (d : Object P) : Type 0 where
  pub defined : b.definition ≡ some d
  pub has_client : b.has_client ≡ true
  pub no_error : b.error_msg ≡ []
  pub cluster_scoped : d.namespace ≡ []

pub checked_ready :
    (k : Kind) {P : Type 0} (b : CrdBuilder P) (d : Object P) → IsReady b d → checked k b ≡ b
unfolding checked
checked_ready k b d r = ap (λ e. record b { error_msg = e }) (rw (r.has_client, r.defined))
