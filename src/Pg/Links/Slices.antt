-- ===== src/Pg/Links/Slices.antt =====
-- The loop that takes one element out of a slice: the last element goes to its place.
pub mod Removal
use ethereum_fetcher.Prelude.{
  ℕ, zero, suc, ◌-◌, Bool, ◌&&◌, Option, none, some, List, [], ◌∷◌, length, get_elem?, take, ltb,
  if◌then◌else◌,
}

-- the first index with an element that the loop does not `continue` on
pub index_of : (ℕ → Bool) → List ℕ → Option ℕ
index_of p [] = none
index_of p (x ∷ xs) =
    if p x then some 0 else elim (index_of p xs) [ none ↦ none | some i ↦ some (suc i) ]

-- `xs[i] = x`
abbrev pub put : ℕ → ℕ → List ℕ → List ℕ
put i x [] = []
put zero x (y ∷ ys) = x ∷ ys
put (suc i) x (y ∷ ys) = y ∷ put i x ys

-- `xs[i] = xs[j]`, with both in range
abbrev pub put_from : ℕ → Option ℕ → List ℕ → List ℕ
put_from i none xs = xs
put_from i (some x) xs = put i x xs

pub remove_at : Option ℕ → List ℕ → List ℕ
remove_at none xs = xs
remove_at (some i) xs =
    let ln = length xs in
    take (ln - 1) (if ltb 1 ln && ltb i (ln - 1) then put_from i (get_elem? xs (ln - 1)) xs else xs)

unfoldable pub remove_first : (ℕ → Bool) → List ℕ → List ℕ
unfolding index_of remove_at
remove_first p xs = remove_at (index_of p xs) xs
