-- ===== src/Mig/Tests.antt =====
-- Runs of the MIG helpers on concrete inputs.
use nvidia_ci.Common.{
  ℕ, ◌≤◌, ◌+◌, ◌≡◌, refl, ◌↔◌, not, true, List, [], ◌∷◌, none, some, ok, arith, All, Has, is_nil,
}
use nvidia_ci.Text.{Text, codes}
use nvidia_ci.Text.Number.{ℤ, pos}
use nvidia_ci.Text.Split.{split}
use nvidia_ci.Text.Labels.{Labels}
use nvidia_ci.Mig.Params.{read_burn_time, read_delay_between_pods, read_delay_between_pods_bounds}
use nvidia_ci.Mig.Slices.{read_time_slicing_parameters}
use nvidia_ci.Mig.Slices.Limits.{IsUpTo, total, read_time_slicing_parameters_bounds}
use nvidia_ci.Mig.Pids.{PidParseConfig, get_pids_with_regex}
use nvidia_ci.Mig.Pids.Unique.{Unique}
use nvidia_ci.Mig.Pids.Listed.{IsListed, get_pids_with_regex-IsListed}
use nvidia_ci.Mig.Nodes.{Node, HasMig, is_mig, is_mig_iff, gpu_count_from_nodes}

read_delay_between_pods_bounds_example :
    (n : ℕ) × (b : ℕ) × (read_burn_time (pos 60) ≡ pos b)
    × (read_delay_between_pods (pos 60) (pos 900) ≡ pos n)
    × (n ≤ b + 15)
read_delay_between_pods_bounds_example = read_delay_between_pods_bounds (pos 60) (pos 900)

slices_read : read_time_slicing_parameters (pos 8) (pos 16) (codes "2, 8") ≡ ok (pos 2 ∷ pos 8 ∷ [])
unfolding read_time_slicing_parameters
slices_read = refl

read_time_slicing_parameters_bounds_example :
    All (IsUpTo 8) (pos 2 ∷ pos 8 ∷ []) × (total (pos 2 ∷ pos 8 ∷ []) ≤ 16)
read_time_slicing_parameters_bounds_example =
    read_time_slicing_parameters_bounds 8 16 (codes "2, 8") (pos 2 ∷ pos 8 ∷ []) slices_read
      (omega arith)

abbrev pid_config : PidParseConfig
pid_config = record {
  re = λ line. some (line ∷ codes "42" ∷ []);
  pid_column = 1;
  skip_column = none;
}

get_pids_with_regex-IsListed_example :
    ((get_pids_with_regex (codes "a b") pid_config).0
      ≡ not (is_nil (get_pids_with_regex (codes "a b") pid_config).1))
    × Unique (get_pids_with_regex (codes "a b") pid_config).1
    × ((v : ℤ)
        → Has v (get_pids_with_regex (codes "a b") pid_config).1
          ↔ IsListed pid_config v (split 10 (codes "a b")))
get_pids_with_regex-IsListed_example = get_pids_with_regex-IsListed (codes "a b") pid_config

abbrev mig_nodes : List Labels
mig_nodes = ((codes "nvidia.com/mig.config", codes "all-1g.5gb") ∷ []) ∷ []

is_mig_iff_example :
    (is_mig (ok mig_nodes) ≡ ok true) ↔ ((labels : Labels) × Has labels mig_nodes × HasMig labels)
is_mig_iff_example = is_mig_iff mig_nodes

abbrev counted_nodes : List Node
counted_nodes =
    record { labels = []; capacity = [] }
    ∷ record { labels = (codes "nvidia.com/gpu.count", codes "4") ∷ []; capacity = [] }
    ∷ []

counted : gpu_count_from_nodes counted_nodes ≡ some 4
unfolding gpu_count_from_nodes nvidia_ci.Text.Labels.label
counted = refl
