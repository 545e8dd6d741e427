-- ===== src/Pg/Overlap/Tests.antt =====
-- The search for a common run at small inputs.
use ethereum_fetcher.Prelude.{ℕ, ◌+◌, ◌<◌, ◌≡◌, refl, ◌⊎◌, String, pos, negsuc, List, [], ◌∷◌}
use ethereum_fetcher.Pg.Overlap.{find_longest_overlap}
use ethereum_fetcher.Pg.Overlap.Longest.{Agree, IsBound, find_longest_overlap-longest}

abbrev migrations : List String
migrations = "internal" ∷ "store" ∷ "pg" ∷ "migrations" ∷ []

abbrev checkout : List String
checkout = "" ∷ "repo" ∷ "internal" ∷ "store" ∷ []

inside_checkout : find_longest_overlap checkout migrations ≡ (pos 2, pos 4)
unfolding find_longest_overlap
inside_checkout = refl

elsewhere : find_longest_overlap ("" ∷ "srv" ∷ []) migrations ≡ (negsuc 0, negsuc 0)
unfolding find_longest_overlap
elsewhere = refl

find_longest_overlap-longest_example :
    ((find_longest_overlap checkout migrations ≡ (negsuc 0, negsuc 0))
      × IsBound checkout migrations 0)
    ⊎ ((i j k : ℕ) × (0 < k)
        × (find_longest_overlap checkout migrations ≡ (pos i, pos (i + k)))
        × Agree checkout migrations i j k
        × IsBound checkout migrations k)
find_longest_overlap-longest_example = find_longest_overlap-longest checkout migrations
