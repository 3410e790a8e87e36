-- ===== src/Ofed/DriverPods/Defs.antt =====
-- The pods' fields that the check reads, and its loops.
use nvidia_ci.Common.{Bool, false, not, ◌&&◌, List, [], ◌∷◌, if◌then◌else◌, Result, ok, err}
use nvidia_ci.Text.{Text, text_eq, is_empty}
use nvidia_ci.Text.Trim.{trim_space}
use nvidia_ci.Text.Labels.{Labels, insert, label}

pub record ContainerStatus : Type 0 where
  pub image : Text
  pub ready : Bool
  pub is_running : Bool  -- State.Running is not nil
  pub image_id : Text

pub record Pod : Type 0 where
  pub node_name : Text
  pub phase_running : Bool  -- Status.Phase is Running
  pub deleting : Bool  -- DeletionTimestamp is not nil
  pub container_statuses : List ContainerStatus

pub data VerifyError : Type 0 where
  two_workers_required : VerifyError
  no_driver_on : Text → VerifyError

unfoldable pub serves : Text → ContainerStatus → Bool
serves requested c =
    text_eq c.image requested && c.ready && c.is_running && not (is_empty (trim_space c.image_id))

-- The loop over a pod's containers: each that serves the image overwrites the worker's entry.
unfoldable pub note_containers : Text → Text → List ContainerStatus → Labels → Labels
unfolding serves insert
note_containers requested worker [] ids = ids
note_containers requested worker (c ∷ cs) ids =
    note_containers requested worker cs
      (if serves requested c then insert worker c.image_id ids else ids)

abbrev pub is_candidate : Text → Pod → Bool
is_candidate worker pod = text_eq pod.node_name worker && pod.phase_running && not pod.deleting

unfoldable pub note_pods : Text → Text → List Pod → Labels → Labels
unfolding note_containers
note_pods requested worker [] ids = ids
note_pods requested worker (pod ∷ pods) ids = note_pods requested worker pods (
    if is_candidate worker pod
    then note_containers requested worker pod.container_statuses ids
    else ids)

-- The loop over the workers.
unfoldable pub note_workers : Text → List Pod → List Text → Labels → Result VerifyError Labels
unfolding note_pods label
note_workers requested pods [] ids = ok ids
note_workers requested pods (worker ∷ workers) ids =
    let noted = note_pods requested worker pods ids in
    let later = note_workers requested pods workers noted in
    if is_empty (label worker noted) then err (no_driver_on worker) else later

-- `len(workers) == 2`, both not "", and distinct
unfoldable pub two_workers : List Text → Bool
two_workers (a ∷ b ∷ []) = not (is_empty a) && not (is_empty b) && not (text_eq a b)
two_workers _ = false

unfoldable pub verify_ofed_driver_pods : List Pod → Text → List Text → Result VerifyError Labels
unfolding two_workers note_workers
verify_ofed_driver_pods pods requested workers =
    if two_workers workers then note_workers requested pods workers [] else err two_workers_required
