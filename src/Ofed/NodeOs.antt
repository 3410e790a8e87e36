-- ===== src/Ofed/NodeOs.antt =====
-- NodeOSTag of pkg/nvidianetwork/nodeostag.go.
use nvidia_ci.Common.{
  false, not, ◌&&◌, ◌≡◌, refl, ◌++◌, if◌then◌else◌, Result, ok, err, ok_inj, err-ne-ok, subst, [],
  ◌∷◌,
}
use nvidia_ci.Text.{Text, codes, is_empty}
use nvidia_ci.Text.Trim.{trim_space}
use nvidia_ci.Text.Labels.{Labels, label}
use nvidia_ci.Ofed.Image.{cluster_minor}

abbrev pub node_os_release_id_label : Text
node_os_release_id_label = codes "feature.node.kubernetes.io/system-os_release.ID"

abbrev pub node_os_release_version_id_label : Text
node_os_release_version_id_label = codes "feature.node.kubernetes.io/system-os_release.VERSION_ID"

-- The version that has no usable minor is the error's text.
unfoldable pub node_os_tag : Labels → Text → Result Text Text
node_os_tag labels cluster_version =
    let os_id = trim_space (label node_os_release_id_label labels) in
    let version_id = trim_space (label node_os_release_version_id_label labels) in
    let minor = cluster_minor cluster_version in
    if not (is_empty os_id) && not (is_empty version_id)
    then ok (os_id ++ version_id)
    else if is_empty minor
    then err cluster_version
    else ok (codes "rhcos" ++ minor)

-- A node's OS tag is never empty.
pub node_os_tag-ne-empty :
    (labels : Labels) (cluster_version tag : Text)
    → node_os_tag labels cluster_version ≡ ok tag
    → is_empty tag ≡ false
unfolding node_os_tag
node_os_tag-ne-empty labels cluster_version tag h =
    of_test (trim_space (label node_os_release_id_label labels))
      (trim_space (label node_os_release_version_id_label labels)) (cluster_minor cluster_version) h
  where
    of_test :
        (i v minor : Text)
        → (if not (is_empty i) && not (is_empty v)
            then ok (i ++ v)
            else if is_empty minor
            then err cluster_version
            else ok (codes "rhcos" ++ minor))
          ≡ ok tag
        → is_empty tag ≡ false
    of_test (c ∷ i) (d ∷ v) minor h = subst (λ t. is_empty t ≡ false) (ok_inj h) refl
    of_test [] v [] h = absurd (err-ne-ok h)
    of_test [] v (m ∷ minor) h = subst (λ t. is_empty t ≡ false) (ok_inj h) refl
    of_test (c ∷ i) [] [] h = absurd (err-ne-ok h)
    of_test (c ∷ i) [] (m ∷ minor) h = subst (λ t. is_empty t ≡ false) (ok_inj h) refl
