-- ===== src/Cluster/Namespace/Tests.antt =====
-- A namespace of which one pod is left.
use nvidia_ci.Common.{◌≡◌, refl, Bool, false, List, [], ◌∷◌, none, All, is_nil, ok}
use nvidia_ci.Text.{codes, text_eq}
use nvidia_ci.Text.Labels.{Labels}
use nvidia_ci.Cluster.Api.{found, Client}
use nvidia_ci.Cluster.Olm.{olm_exists}
use nvidia_ci.Cluster.Crd.{checked}
use nvidia_ci.Cluster.Namespace.Defs.{Cleaning, new_namespace, clean_all, clean_objects}
use nvidia_ci.Cluster.Namespace.Cleaned.{IsCleaned, clean_objects-IsCleaned}

abbrev there : Client Labels
there = record {
  World = Bool;
  get = λ ns n w. found (record { name = n; namespace = ns; payload = [] });
  create = λ o w. (ok o, w);
  update = λ o w. (ok o, w);
  delete = λ ns n w. (none, w);
}

abbrev pods_and_maps : List Cleaning
pods_and_maps =
    record {
      resource = codes "pods";
      deletion = none;
      polls = ok (codes "a" ∷ codes "b" ∷ []) ∷ ok (codes "a" ∷ []) ∷ [];
    }
    ∷ record {
      resource = codes "configmaps";
      deletion = none;
      polls = ok (codes "openshift-service-ca.crt" ∷ codes "kube-root-ca.crt" ∷ []) ∷ [];
    }
    ∷ []

cleans : clean_objects there (new_namespace (codes "ns")) false pods_and_maps ≡ none
unfolding clean_objects clean_all olm_exists checked text_eq
cleans = refl

clean_objects-IsCleaned_example : (is_nil pods_and_maps ≡ false) × All IsCleaned pods_and_maps
clean_objects-IsCleaned_example =
    clean_objects-IsCleaned there (new_namespace (codes "ns")) false pods_and_maps cleans
