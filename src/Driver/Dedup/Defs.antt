-- ===== src/Driver/Dedup/Defs.antt =====
-- The map from major versions to versions, as an association list in the order of insertion; Go's
-- map iteration has no fixed order, and the values are sorted behind it.
use nvidia_ci.Common.{
  ℕ, zero, suc, Bool, true, List, [], ◌∷◌, Option, none, some, ltb, if◌then◌else◌, length, take,
}
use nvidia_ci.Text.{Text, codes}
use nvidia_ci.Text.Search.{index}
use nvidia_ci.Text.Labels.{Labels, lookup, insert}
use nvidia_ci.Driver.Sort.{sort_strings}

abbrev pub before_dot : Text → Option ℕ → Text
before_dot v none = v
before_dot v (some zero) = v
before_dot v (some (suc i)) = take (suc i) v

-- The part before the first dot, the whole version if no dot stands behind the first byte.
unfoldable pub major_of : Text → Text
unfolding index
major_of v = before_dot v (index (codes ".") v)

-- `!ok || len(v) > len(existing)`
abbrev pub is_better : Text → Option Text → Bool
is_better v none = true
is_better v (some existing) = ltb (length existing) (length v)

-- One round of the loop.
unfoldable pub keep_best : Text → Labels → Labels
unfolding major_of insert lookup
keep_best v best =
    if is_better v (lookup (major_of v) best) then insert (major_of v) v best else best

unfoldable pub best_of : List Text → Labels → Labels
unfolding keep_best
best_of [] best = best
best_of (v ∷ versions) best = best_of versions (keep_best v best)

abbrev pub values : Labels → List Text
values [] = []
values ((k, v) ∷ m) = v ∷ values m

unfoldable pub deduplicate_by_major_version : List Text → List Text
unfolding best_of sort_strings
deduplicate_by_major_version versions = sort_strings (values (best_of versions []))
