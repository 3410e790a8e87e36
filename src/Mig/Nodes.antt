-- ===== src/Mig/Nodes.antt =====
-- IsMig, gpuCountFromNodeObject, firstGPUProductFromNodes and the label filters of pkg/mig/mig.go,
-- over the nodes' labels and capacities.
use nvidia_ci.Common.{
  ℕ, zero, suc, ◌<◌, Bool, true, false, not, ◌||◌, ◌≡◌, refl, sym, ap, ◌∙◌, subst, ◌⊎◌, inl, inr,
  ◌↔◌, List, [], ◌∷◌, Option, none, some, some_inj, none-ne-some, arith, if◌then◌else◌, any,
  any_iff, Has, Bool-cases, Result, ok, err, err-ne-ok, ok_inj, false-ne-true,
}
use nvidia_ci.Text.{Text, codes, text_eq, is_empty, trim_suffix}
use nvidia_ci.Text.Search.{contains}
use nvidia_ci.Text.Trim.{trim_space}
use nvidia_ci.Text.Number.{ℤ, pos, negsuc, Parsed, value, bad_syntax, out_of_range, atoi}
use nvidia_ci.Text.Labels.{Labels, label, lookup}
use nvidia_ci.Text.Labels.Laws.{text_eq_iff}

abbrev pub mig_config_label : Text
mig_config_label = codes "nvidia.com/mig.config"

abbrev pub mig_config_state_label : Text
mig_config_state_label = codes "nvidia.com/mig.config.state"

abbrev pub mig_config_disabled : Text
mig_config_disabled = codes "all-disabled"

abbrev pub gpu_product_label_key : Text
gpu_product_label_key = codes "nvidia.com/gpu.product"

abbrev pub gpu_count_label_key : Text
gpu_count_label_key = codes "nvidia.com/gpu.count"

abbrev pub gpu_capacity_key : Text
gpu_capacity_key = codes "nvidia.com/gpu"

abbrev pub gpu_product_shared_suffix : Text
gpu_product_shared_suffix = codes "-SHARED"

-- The configuration label is there, with another value than all-disabled.
abbrev pub is_configured : Option Text → Bool
is_configured none = false
is_configured (some cfg) = not (text_eq cfg mig_config_disabled)

-- The two tests of the loop's body.
unfoldable pub is_mig_node : Labels → Bool
unfolding lookup
is_mig_node labels =
    text_eq (label mig_config_state_label labels) (codes "failed")
    || is_configured (lookup mig_config_label labels)

-- The loop of IsMig over the listed nodes' labels.
unfoldable pub is_mig_nodes : List Labels → Bool
unfolding is_mig_node
is_mig_nodes [] = false
is_mig_nodes (labels ∷ nodes) = if is_mig_node labels then true else is_mig_nodes nodes

-- An error of the listing is passed on.
unfoldable pub is_mig : Result Text (List Labels) → Result Text Bool
unfolding is_mig_nodes
is_mig (err e) = err e
is_mig (ok nodes) = ok (is_mig_nodes nodes)

pub record Node : Type 0 where
  pub labels : Labels
  pub capacity : List (Text × ℤ)

pub data CountError : Type 0 where
  not_integer not_positive missing : CountError

abbrev pub positive_count : ℤ → Result CountError ℕ
positive_count (pos zero) = err not_positive
positive_count (pos (suc n)) = ok (suc n)
positive_count (negsuc n) = err not_positive

abbrev pub count_of_label : Parsed → Result CountError ℕ
count_of_label (value z) = positive_count z
count_of_label _ = err not_integer

abbrev pub count_of_capacity : Option ℤ → Result CountError ℕ
count_of_capacity none = err missing
count_of_capacity (some z) = positive_count z

-- gpuCountFromNodeObject on a node that is not nil
unfoldable pub gpu_count_from_node_object : Node → Result CountError ℕ
unfolding atoi
gpu_count_from_node_object node =
    let s = label gpu_count_label_key node.labels in
    if is_empty s
    then count_of_capacity (lookup gpu_capacity_key node.capacity)
    else count_of_label (atoi s)

abbrev pub or_else : Result CountError ℕ → Option ℕ → Option ℕ
or_else (ok n) later = some n
or_else (err e) later = later

-- The loop of GPUCountFromNode; `none` is its last error.
unfoldable pub gpu_count_from_nodes : List Node → Option ℕ
unfolding gpu_count_from_node_object
gpu_count_from_nodes [] = none
gpu_count_from_nodes (node ∷ nodes) =
    or_else (gpu_count_from_node_object node) (gpu_count_from_nodes nodes)

-- The loop of firstGPUProductFromNodes; "" if no node has the label.
unfoldable pub first_gpu_product : List Labels → Text
first_gpu_product [] = []
first_gpu_product (labels ∷ nodes) =
    let v = label gpu_product_label_key labels in if is_empty v then first_gpu_product nodes else v

unfoldable pub base_gpu_product_name : Text → Text
base_gpu_product_name product = trim_suffix gpu_product_shared_suffix (trim_space product)

unfoldable pub is_label_in_filter : Text → Text → Bool
is_label_in_filter filter_query name =
    if is_empty filter_query then false else contains name filter_query

unfoldable pub any_label_in_filter : Text → List Text → Bool
any_label_in_filter filter_query names =
    if is_empty filter_query then false else any (λ name. contains name filter_query) names

-- The loop of ShouldKeepOperator, which does not test for an empty filter.
unfoldable pub should_keep_operator : Text → List Text → Bool
should_keep_operator filter_query [] = false
should_keep_operator filter_query (name ∷ names) =
    if contains name filter_query then true else should_keep_operator filter_query names

is_mig_nodes-any : (nodes : List Labels) → is_mig_nodes nodes ≡ any is_mig_node nodes
unfolding is_mig_nodes
is_mig_nodes-any [] = refl
is_mig_nodes-any (labels ∷ nodes) = ground (arith, is_mig_nodes-any nodes)

-- The node has a failed state, or a configuration other than all-disabled.
abbrev pub HasMig : Labels → Type 0
HasMig labels =
    (label mig_config_state_label labels ≡ codes "failed")
    ⊎ ((cfg : Text) × (lookup mig_config_label labels ≡ some cfg) × ¬ (cfg ≡ mig_config_disabled))

is_mig_node_iff : (labels : Labels) → (is_mig_node labels ≡ true) ↔ HasMig labels
unfolding is_mig_node
is_mig_node_iff labels = (there, back)
  where
    state : Text
    state = label mig_config_state_label labels

    configured :
        (o : Option Text)
        → is_configured o ≡ true
        → (cfg : Text) × (o ≡ some cfg) × ¬ (cfg ≡ mig_config_disabled)
    configured none h = absurd (false-ne-true h)
    configured (some cfg) h = (
      cfg,
      refl,
      λ e. false-ne-true (ap not (sym ((text_eq_iff cfg mig_config_disabled).1 e)) ∙ h),
    )

    there :
        (text_eq state (codes "failed") || is_configured (lookup mig_config_label labels)) ≡ true
        → HasMig labels
    there h = elim (Bool-cases (text_eq state (codes "failed"))) [
      | inl e ↦ inl ((text_eq_iff state (codes "failed")).0 e)
      | inr e ↦ inr (configured (lookup mig_config_label labels) (rw e at h))
    ]

    differs :
        (cfg : Text) → ¬ (cfg ≡ mig_config_disabled) → not (text_eq cfg mig_config_disabled) ≡ true
    differs cfg ne = elim (Bool-cases (text_eq cfg mig_config_disabled)) [
      | inl e ↦ absurd (ne ((text_eq_iff cfg mig_config_disabled).0 e))
      | inr e ↦ rw e
    ]

    back :
        HasMig labels
        → (text_eq state (codes "failed") || is_configured (lookup mig_config_label labels)) ≡ true
    back (inl e) = rw ((text_eq_iff state (codes "failed")).1 e)
    back (inr (cfg, at, ne)) = elim (Bool-cases (text_eq state (codes "failed"))) [
      | inl e ↦ rw e
      | inr e ↦ rw (e, at) (differs cfg ne)
    ]

-- The answer is "yes" exactly when one of the listed nodes has a failed MIG state or a MIG
-- configuration other than all-disabled.
pub is_mig_iff :
    (nodes : List Labels)
    → (is_mig (ok nodes) ≡ ok true) ↔ ((labels : Labels) × Has labels nodes × HasMig labels)
unfolding is_mig
is_mig_iff nodes = (
  λ h.
      let (labels, has, mig) =
        (any_iff is_mig_node nodes).0 (sym (is_mig_nodes-any nodes) ∙ ok_inj h) in
      (labels, has, (is_mig_node_iff labels).0 mig),
  λ w. ap ok (
      is_mig_nodes-any nodes
      ∙ (any_iff is_mig_node nodes).1 (w.0, w.1, (is_mig_node_iff w.0).1 w.2)),
)

positive_count-pos : (z : ℤ) (n : ℕ) → positive_count z ≡ ok n → 0 < n
positive_count-pos (pos zero) n h = absurd (err-ne-ok h)
positive_count-pos (pos (suc m)) n h = subst (λ k. 0 < k) (ok_inj h) (omega arith)
positive_count-pos (negsuc m) n h = absurd (err-ne-ok h)

gpu_count-pos : (node : Node) (n : ℕ) → gpu_count_from_node_object node ≡ ok n → 0 < n
unfolding gpu_count_from_node_object
gpu_count-pos node n h = elim (Bool-cases (is_empty (label gpu_count_label_key node.labels))) [
  | inl e ↦ of_capacity (lookup gpu_capacity_key node.capacity) (rw e at h)
  | inr e ↦ of_label (atoi (label gpu_count_label_key node.labels)) (rw e at h)
]
  where
    of_capacity : (o : Option ℤ) → count_of_capacity o ≡ ok n → 0 < n
    of_capacity none p = absurd (err-ne-ok p)
    of_capacity (some z) p = positive_count-pos z n p

    of_label : (o : Parsed) → count_of_label o ≡ ok n → 0 < n
    of_label (value z) p = positive_count-pos z n p
    of_label bad_syntax p = absurd (err-ne-ok p)
    of_label (out_of_range z) p = absurd (err-ne-ok p)

-- A count is positive, and it is the count of one of the nodes.
pub gpu_count_from_nodes_sound :
    (nodes : List Node) (n : ℕ)
    → gpu_count_from_nodes nodes ≡ some n
    → (0 < n) × ((node : Node) × Has node nodes × (gpu_count_from_node_object node ≡ ok n))
unfolding gpu_count_from_nodes
gpu_count_from_nodes_sound [] n h = absurd (none-ne-some h)
gpu_count_from_nodes_sound (node ∷ nodes) n h =
    of_first (gpu_count_from_node_object node) refl h (gpu_count_from_nodes_sound nodes n)
  where
    of_first :
        (r : Result CountError ℕ)
        → gpu_count_from_node_object node ≡ r
        → or_else r (gpu_count_from_nodes nodes) ≡ some n
        → (gpu_count_from_nodes nodes ≡ some n
            → (0 < n) × ((m : Node) × Has m nodes × (gpu_count_from_node_object m ≡ ok n)))
        → (0 < n) × ((m : Node) × Has m (node ∷ nodes) × (gpu_count_from_node_object m ≡ ok n))
    of_first (ok k) at p ih =
        let same : gpu_count_from_node_object node ≡ ok n = at ∙ ap ok (some_inj p) in
        (gpu_count-pos node n same, (node, inl refl, same))
    of_first (err e) at p ih = let (gt, (m, has, at')) = ih p in (gt, (m, inr has, at'))
