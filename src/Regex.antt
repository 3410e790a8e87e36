-- ===== src/Regex.antt =====
-- The part of Go's `regexp` that the repository's patterns use: leftmost matches, the first in
-- Perl's priority order (greedy repetitions), with captured groups.
mod Defs
mod Sound
unfoldable pub use Defs.*
pub use Sound.*
