-- ===== src/Pg/Overlap.antt =====
-- internal/store/pg/setup.go: the search for the longest run of path components that two paths
-- share. The two indexed loops run over the components that are left, with the index beside them.
pub mod Longest
mod Tests
use ethereum_fetcher.Prelude.{
  ℕ, suc, ◌+◌, String, ℤ, pos, negsuc, List, [], ◌∷◌, ltb, str_eq, if◌then◌else◌,
}

-- `longestStart`, `longestEnd` and `maxLen`; the bounds are -1 until a run is found.
pub record Best : Type 0 where
  pub longest_start : ℤ
  pub longest_end : ℤ
  pub max_len : ℕ

-- the loop over `k`: how many components agree from here on
pub overlap_length : List String → List String → ℕ
overlap_length [] ys = 0
overlap_length (x ∷ xs) [] = 0
overlap_length (x ∷ xs) (y ∷ ys) = if str_eq x y then suc (overlap_length xs ys) else 0

-- `if k > maxLen { ... }`
pub improve : ℕ → ℕ → Best → Best
improve i k best =
    if ltb best.max_len k
    then record { longest_start = pos i; longest_end = pos (i + k); max_len = k }
    else best

-- the loop over `j`, at the `i` where `xs` begins
pub try_all : ℕ → List String → List String → Best → Best
unfolding overlap_length improve
try_all i xs [] best = best
try_all i xs (y ∷ ys) best = try_all i xs ys (improve i (overlap_length xs (y ∷ ys)) best)

-- the loop over `i`
pub search_from : ℕ → List String → List String → Best → Best
unfolding try_all
search_from i [] rel best = best
search_from i (x ∷ xs) rel best = search_from (suc i) xs rel (try_all i (x ∷ xs) rel best)

abbrev pub nothing_found : Best
nothing_found = record { longest_start = negsuc 0; longest_end = negsuc 0; max_len = 0 }

unfoldable pub find_longest_overlap : List String → List String → ℤ × ℤ
unfolding search_from
find_longest_overlap cur_dir_parts rel_dir_parts =
    let best = search_from 0 cur_dir_parts rel_dir_parts nothing_found in
    (best.longest_start, best.longest_end)
