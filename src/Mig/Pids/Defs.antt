-- ===== src/Mig/Pids/Defs.antt =====
-- The lines, their columns, and the distinct numbers.
use nvidia_ci.Common.{
  ℕ, Bool, false, not, ◌&&◌, ◌||◌, List, [], ◌∷◌, ◌++◌, Option, none, some, if◌then◌else◌, any,
  is_nil, ltb, leb, ◌==◌, length, get_or,
}
use nvidia_ci.Text.{Text, codes, text_eq, is_empty, has_prefix}
use nvidia_ci.Text.Split.{split}
use nvidia_ci.Text.Trim.{trim_space}
use nvidia_ci.Text.Number.{ℤ, pos, negsuc, Parsed, value, atoi}

abbrev pub int_eq : ℤ → ℤ → Bool
int_eq (pos a) (pos b) = a == b
int_eq (pos a) (negsuc b) = false
int_eq (negsuc a) (pos b) = false
int_eq (negsuc a) (negsuc b) = a == b

-- PidParseConfig; the expression gives the first match of a line with its groups, and a negative
-- SkipColumn is `none`.
pub record PidParseConfig : Type 0 where
  pub re : Text → Option (List Text)
  pub pid_column : ℕ
  pub skip_column : Option ℕ

abbrev pub skips : Option ℕ → List Text → Bool
skips none row = false
skips (some column) row = ltb column (length row) && text_eq (get_or row column []) (codes "-")

abbrev pub add_pid : Parsed → List ℤ → List ℤ
add_pid (value pid) pids = pids ++ pid ∷ []
add_pid _ pids = pids

unfoldable pub add_row : PidParseConfig → Option (List Text) → List ℤ → List ℤ
unfolding atoi
add_row cfg none pids = pids
add_row cfg (some row) pids =
    if skips cfg.skip_column row
    then pids
    else if leb (length row) cfg.pid_column
    then pids
    else add_pid (atoi (get_or row cfg.pid_column [])) pids

-- One round of the loop over the lines.
unfoldable pub add_line : PidParseConfig → Text → List ℤ → List ℤ
unfolding add_row trim_space
add_line cfg raw_line pids =
    let line = trim_space raw_line in
    if is_empty line || has_prefix (codes "#") line then pids else add_row cfg (cfg.re line) pids

unfoldable pub add_lines : PidParseConfig → List Text → List ℤ → List ℤ
unfolding add_line
add_lines cfg [] pids = pids
add_lines cfg (line ∷ lines) pids = add_lines cfg lines (add_line cfg line pids)

-- The map `seen` holds exactly the numbers of `out`.
unfoldable pub unique_from : List ℤ → List ℤ → List ℤ
unique_from [] out = out
unique_from (v ∷ s) out = unique_from s (if any (int_eq v) out then out else out ++ v ∷ [])

unfoldable pub unique_ints : List ℤ → List ℤ
unfolding unique_from
unique_ints s = unique_from s []

unfoldable pub get_pids_with_regex : Text → PidParseConfig → Bool × List ℤ
unfolding add_lines unique_ints split
get_pids_with_regex output cfg =
    let pids = unique_ints (add_lines cfg (split 10 output) []) in (not (is_nil pids), pids)
