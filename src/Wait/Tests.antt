-- ===== src/Wait/Tests.antt =====
-- The waits on short lists of polls.
use nvidia_ci.Common.{
  ◌≡◌, refl, sym, ap, ◌∙◌, ◌↔◌, inl, inr, Bool, true, false, List, [], ◌∷◌, none, some, Has, Result,
  ok, err, ok_inj, subst, none-ne-some, Bool-cases, err-ne-ok, if◌then◌else◌,
}
use nvidia_ci.Text.{Text, codes, text_eq, is_empty}
use nvidia_ci.Text.Search.{text_eq_sound}
use nvidia_ci.Text.Labels.{Labels, lookup}
use nvidia_ci.Text.Number.{ℤ, pos, eq_int}
use nvidia_ci.Cluster.Api.{Object, Reply, found, not_found, failed, Client}
use nvidia_ci.Wait.Created.{deployment_created}
use nvidia_ci.Wait.Created.Early.{deployment_created-early}
use nvidia_ci.Wait.Poll.{reached, stopped}
use nvidia_ci.Wait.Ready.{
  state_ready, state_not_ready, nil_pointer, cluster_policy_ready, cluster_policy_not_ready,
  nic_cluster_policy_ready, macvlan_network_ready, ipoib_network_ready,
}
use nvidia_ci.Wait.Ready.Policy.{IsAwaited, cluster_policy_ready_iff}
use nvidia_ci.Wait.Ready.Network.{network_waits_crash}
use nvidia_ci.Wait.Nodes.{Node, waited, node_label_exists}
use nvidia_ci.Wait.Nodes.Selected.{IsMatch, IsListing, IsCompatible, IsSeen, node_label_exists_iff}
use nvidia_ci.Wait.Slices.{
  Device, ResourceSlice, Uuids, gpu_resource_slice_uuids, gpu_resource_slice_uuids_match,
}
use nvidia_ci.Wait.Slices.Report.{IsReport, gpu_resource_slice_uuids-IsReport}
use nvidia_ci.Wait.Slices.Match.{Answer, IsMatching, gpu_resource_slice_uuids_match_iff}

-- A world is the answer to Get in it.
abbrev scripted : Client Text
scripted = record {
  World = Reply Text;
  get = λ ns n w. w;
  create = λ o w. (ok o, found o);
  update = λ o w. (ok o, found o);
  delete = λ ns n w. (none, w);
}

abbrev at_state : Text → Reply Text
at_state s = found (record { name = codes "p"; namespace = []; payload = s })

abbrev policy_polls : List (Reply Text)
policy_polls =
    at_state (codes "notReady") ∷ failed none (codes "timeout") ∷ at_state (codes "ready") ∷ []

cluster_policy_ready_iff_example :
    ((cluster_policy_ready (λ s. s) scripted [] (codes "p") policy_polls ≡ reached)
      ↔ IsAwaited (λ s. s) scripted [] (codes "p") state_ready policy_polls)
    × ((cluster_policy_not_ready (λ s. s) scripted [] (codes "p") policy_polls ≡ reached)
        ↔ IsAwaited (λ s. s) scripted [] (codes "p") state_not_ready policy_polls)
cluster_policy_ready_iff_example =
    cluster_policy_ready_iff (λ s. s) scripted [] (codes "p") policy_polls refl

network_waits_crash_example :
    (nic_cluster_policy_ready (λ s. s) scripted [] (codes "p") policy_polls ≡ stopped nil_pointer)
    × (macvlan_network_ready (λ s. s) scripted [] (codes "p") policy_polls ≡ stopped nil_pointer)
    × (ipoib_network_ready (λ s. s) scripted [] (codes "p") policy_polls ≡ stopped nil_pointer)
network_waits_crash_example =
    network_waits_crash (λ s. s) scripted [] (codes "p") (at_state (codes "notReady") ∷ [])
      (failed none (codes "timeout")) (at_state (codes "ready") ∷ []) none (codes "timeout") refl
      (
        (
          record { name = codes "p"; namespace = []; payload = codes "notReady" },
          refl,
          unfold text_eq in refl,
        ),
        tt,
      )
      refl

-- A node that is labelled in the second world.
abbrev key : Text
key = codes "nvidia.com/gpu.present"

abbrev value : Text
value = codes "true"

abbrev labelled : Node
labelled = record { name = codes "n"; labels = (key, value) ∷ [] }

abbrev nodes : Bool → List Node
nodes false = []
nodes true = labelled ∷ []

-- The API server of the example knows two selectors.
abbrev list : Labels → Bool → Result Text (List Node)
list [] w = ok (nodes w)
list ((k, v) ∷ []) w =
    if text_eq k key then if text_eq v value then ok (nodes w) else err [] else err []
list (a ∷ b ∷ selector) w = err []

by_label :
    (selector : Labels) (w : Bool) (got : List Node)
    → ((n : Node) → Has n (nodes w) → IsMatch selector n.labels)
    → ◌≡◌ {A = Result Text (List Node)} (ok (nodes w)) (ok got)
    → (n : Node) → Has n got ↔ (Has n (nodes w) × IsMatch selector n.labels)
by_label selector w got fits at n = (
  λ has. let there = subst (λ xs. Has n xs) (sym (ok_inj at)) has in (there, fits n there),
  λ (there, m). subst (λ xs. Has n xs) (ok_inj at) there,
)

fits_all : (w : Bool) (n : Node) → Has n (nodes w) → IsMatch [] n.labels
unfolding lookup
fits_all w n has k v at = absurd (none-ne-some at)

fits_key : (w : Bool) (n : Node) → Has n (nodes w) → IsMatch ((key, value) ∷ []) n.labels
fits_key false n has = absurd has
fits_key true n (inl e) = λ k v at. ap (λ x. lookup k x.labels) e ∙ at
fits_key true n (inr has) = absurd has

list-lists :
    (selector : Labels) (w : Bool) (got : List Node)
    → list selector w ≡ ok got
    → (n : Node) → Has n got ↔ (Has n (nodes w) × IsMatch selector n.labels)
list-lists [] w got at n = by_label [] w got (fits_all w) at n
list-lists ((k, v) ∷ []) w got at n = elim (Bool-cases (text_eq k key)) [
  | inl e ↦ elim (Bool-cases (text_eq v value)) [
    | inl f ↦
        by_label ((k, v) ∷ []) w got
          (subst (λ x. (m : Node) → Has m (nodes w) → IsMatch ((x, v) ∷ []) m.labels)
            (sym (text_eq_sound k key e))
            (subst (λ y. (m : Node) → Has m (nodes w) → IsMatch ((key, y) ∷ []) m.labels)
              (sym (text_eq_sound v value f)) (fits_key w)))
          (rw (e, f) at at) n
    | inr f ↦ absurd (err-ne-ok (rw (e, f) at at))
  ]
  | inr e ↦ absurd (err-ne-ok (rw e at at))
]
list-lists (a ∷ b ∷ selector) w got at n = absurd (err-ne-ok at)

list-IsListing : IsListing nodes list
list-IsListing = record { lists = list-lists }

node_label_exists_iff_example :
    (node_label_exists list key value [] (false ∷ true ∷ []) ≡ waited reached) ↔ (
      IsCompatible key value [] × IsSeen nodes list list-IsListing key value [] (false ∷ true ∷ []))
node_label_exists_iff_example =
    node_label_exists_iff nodes list list-IsListing key value [] (false ∷ true ∷ [])

-- A pool of two generations; the newer one is complete.
abbrev device : Text → Device
device u = record { name = codes "gpu"; attributes = (codes "uuid", some u) ∷ [] }

abbrev slice_of : ℤ → Text → ResourceSlice
slice_of generation u = record {
  name = codes "s";
  pool_name = codes "n";
  generation = generation;
  resource_slice_count = pos 1;
  devices = device u ∷ [];
}

abbrev items : List ResourceSlice
items = slice_of (pos 1) (codes "a") ∷ slice_of (pos 2) (codes "b") ∷ []

abbrev uuids : Uuids
uuids = (codes "b", true) ∷ []

reports : gpu_resource_slice_uuids (ok items) ≡ ok uuids
unfolding gpu_resource_slice_uuids eq_int
reports = refl

gpu_resource_slice_uuids-IsReport_example : IsReport items uuids
gpu_resource_slice_uuids-IsReport_example = gpu_resource_slice_uuids-IsReport items uuids reports

abbrev answers : List Answer
answers = err (codes "timeout") ∷ ok items ∷ []

gpu_resource_slice_uuids_match_iff_example :
    (gpu_resource_slice_uuids_match uuids answers ≡ reached)
    ↔ ((answer : Answer) × Has answer answers × IsMatching uuids answer)
gpu_resource_slice_uuids_match_iff_example = gpu_resource_slice_uuids_match_iff uuids answers

abbrev nothing : Object Text
nothing = record { name = []; namespace = []; payload = [] }

-- An API server that refuses an empty name, and whose answers are scripted otherwise.
abbrev strict : Client Text
strict = record {
  World = Reply Text;
  get = λ ns n w.
      if is_empty n then failed (some nothing) (codes "resource name may not be empty") else w;
  create = λ o w. (ok o, found o);
  update = λ o w. (ok o, found o);
  delete = λ ns n w. (none, w);
}

abbrev timeout : Reply Text
timeout = failed (some nothing) (codes "timeout")

deployment_created-early_example :
    deployment_created strict [] (codes "d") (codes "ns") (not_found none ∷ timeout ∷ []) ≡ true
deployment_created-early_example =
    deployment_created-early strict [] (codes "d") (codes "ns") (not_found none ∷ []) timeout []
      nothing nothing (codes "timeout") (codes "resource name may not be empty") refl refl
      ((none, refl), tt) refl refl
