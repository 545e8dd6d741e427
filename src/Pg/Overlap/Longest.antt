-- ===== src/Pg/Overlap/Longest.antt =====
-- The runs of components that the search finds.
use mathlib.Core.Path.{subst₂}
use ethereum_fetcher.Prelude.{
  ℕ, subst, zero, suc, ◌+◌, ◌≤◌, ◌<◌, ◌≡◌, refl, String, pos, negsuc, ◌⊎◌, inl, inr, List, [], ◌∷◌,
  length, take, drop, arith, eq_iff, ltb, Bool-cases,
}
use ethereum_fetcher.Pg.Overlap.{
  Best, overlap_length, improve, try_all, search_from, nothing_found, find_longest_overlap,
}

-- `k` components of `cur` from `i` on are those of `rel` from `j` on.
abbrev pub Agree : List String → List String → ℕ → ℕ → ℕ → Type 0
Agree cur rel i j k =
    (take k (drop i cur) ≡ take k (drop j rel))
    × (k ≤ length (drop i cur))
    × (k ≤ length (drop j rel))

overlap_length-agrees :
    (xs ys : List String)
    → (take (overlap_length xs ys) xs ≡ take (overlap_length xs ys) ys)
      × (overlap_length xs ys ≤ length xs)
      × (overlap_length xs ys ≤ length ys)
unfolding overlap_length
overlap_length-agrees [] ys = (refl, omega arith, omega arith)
overlap_length-agrees (x ∷ xs) [] = (refl, omega arith, omega arith)
overlap_length-agrees (x ∷ xs) (y ∷ ys) = ground (arith, eq_iff x y, overlap_length-agrees xs ys)

overlap_length-longest :
    (xs ys : List String) (k : ℕ)
    → take k xs ≡ take k ys
    → k ≤ length xs
    → k ≤ length ys
    → k ≤ overlap_length xs ys
unfolding overlap_length
overlap_length-longest xs ys zero e h h' = omega arith
overlap_length-longest [] ys (suc k) e h h' = absurd (omega arith)
overlap_length-longest (x ∷ xs) [] (suc k) e h h' = absurd (omega arith)
overlap_length-longest (x ∷ xs) (y ∷ ys) (suc k) e h h' =
    ground (arith, eq_iff x y, overlap_length-longest xs ys k)

le-improve :
    (i k : ℕ) (b : Best) → (b.max_len ≤ (improve i k b).max_len) × (k ≤ (improve i k b).max_len)
unfolding improve
le-improve i k b = ground arith

le-try_all : (i : ℕ) (xs ys : List String) (b : Best) → b.max_len ≤ (try_all i xs ys b).max_len
unfolding try_all
le-try_all i xs [] b = omega arith
le-try_all i xs (y ∷ ys) b =
    let k = overlap_length xs (y ∷ ys) in
    omega (arith, le-improve i k b, le-try_all i xs ys (improve i k b))

le-search_from :
    (i : ℕ) (xs rel : List String) (b : Best) → b.max_len ≤ (search_from i xs rel b).max_len
unfolding search_from
le-search_from i [] rel b = omega arith
le-search_from i (x ∷ xs) rel b =
    omega
      (arith, le-try_all i (x ∷ xs) rel b, le-search_from (suc i) xs rel (try_all i (x ∷ xs) rel b))

overlap_length-nil : (xs : List String) → overlap_length xs [] ≡ 0
unfolding overlap_length
overlap_length-nil [] = refl
overlap_length-nil (x ∷ xs) = refl

-- The loop over `j` is not beaten at any `j`.
try_all-covers :
    (i : ℕ) (xs ys : List String) (b : Best) (j : ℕ)
    → overlap_length xs (drop j ys) ≤ (try_all i xs ys b).max_len
unfolding try_all
try_all-covers i xs [] b zero = omega (arith, overlap_length-nil xs)
try_all-covers i xs [] b (suc j) = omega (arith, overlap_length-nil xs)
try_all-covers i xs (y ∷ ys) b zero =
    let k = overlap_length xs (y ∷ ys) in
    omega (arith, le-improve i k b, le-try_all i xs ys (improve i k b))
try_all-covers i xs (y ∷ ys) b (suc j) = try_all-covers i xs ys _ j

search_from-covers :
    (i : ℕ) (xs rel : List String) (b : Best) (i' j' : ℕ)
    → overlap_length (drop i' xs) (drop j' rel) ≤ (search_from i xs rel b).max_len
unfolding search_from overlap_length
search_from-covers i [] rel b zero j' = omega arith
search_from-covers i [] rel b (suc i') j' = omega arith
search_from-covers i (x ∷ xs) rel b zero j' = omega (
  arith,
  try_all-covers i (x ∷ xs) rel b j',
  le-search_from (suc i) xs rel (try_all i (x ∷ xs) rel b),
)
search_from-covers i (x ∷ xs) rel b (suc i') j' = search_from-covers (suc i) xs rel _ i' j'

-- What the variables say while the search runs.
data IsSound (cur rel : List String) (b : Best) : Type 0 where
  nothing : b ≡ nothing_found → IsSound cur rel b
  found :
      (i j : ℕ)
      → b.longest_start ≡ pos i
      → b.longest_end ≡ pos (i + b.max_len)
      → 0 < b.max_len
      → overlap_length (drop i cur) (drop j rel) ≡ b.max_len
      → IsSound cur rel b

module _ (cur rel : List String) where
  improve-IsSound :
      (i j : ℕ) (b : Best)
      → IsSound cur rel b
      → IsSound cur rel (improve i (overlap_length (drop i cur) (drop j rel)) b)
  unfolding improve
  improve-IsSound i j b s =
      elim (Bool-cases (ltb b.max_len (overlap_length (drop i cur) (drop j rel)))) [
        | inl better ↦ rw better (found i j refl refl (ground arith) refl)
        | inr worse ↦ rw worse s
      ]

  drop-suc :
      (i : ℕ) (l : List String) {x : String} {xs : List String}
      → drop i l ≡ x ∷ xs
      → drop (suc i) l ≡ xs
  drop-suc zero [] e = cc
  drop-suc zero (y ∷ l) e = cc
  drop-suc (suc i) [] e = cc
  drop-suc (suc i) (y ∷ l) e = drop-suc i l e

  try_all-IsSound :
      (i j : ℕ) (xs ys : List String) (b : Best)
      → drop i cur ≡ xs
      → drop j rel ≡ ys
      → IsSound cur rel b
      → IsSound cur rel (try_all i xs ys b)
  unfolding try_all
  try_all-IsSound i j xs [] b ex ey s = s
  try_all-IsSound i j xs (y ∷ ys) b ex ey s =
      try_all-IsSound i (suc j) xs ys _ ex (drop-suc j rel ey) (
        subst₂ (λ p q. IsSound cur rel (improve i (overlap_length p q) b)) ex ey
          (improve-IsSound i j b s))

  search_from-IsSound :
      (i : ℕ) (xs : List String) (b : Best)
      → drop i cur ≡ xs
      → IsSound cur rel b
      → IsSound cur rel (search_from i xs rel b)
  unfolding search_from
  search_from-IsSound i [] b ex s = s
  search_from-IsSound i (x ∷ xs) b ex s =
      search_from-IsSound (suc i) xs _ (drop-suc i cur ex)
        (try_all-IsSound i 0 (x ∷ xs) rel b ex refl s)

-- No run of components that the two paths share has more than `n`.
abbrev pub IsBound : List String → List String → ℕ → Type 0
IsBound cur rel n = (i j k : ℕ) → Agree cur rel i j k → k ≤ n

-- The search returns -1 twice when the paths share no component, and otherwise the bounds of a run
-- of the first path that the second has too, where no run that they share is longer.
pub find_longest_overlap-longest :
    (cur rel : List String)
    → ((find_longest_overlap cur rel ≡ (negsuc 0, negsuc 0)) × IsBound cur rel 0)
      ⊎ ((i j k : ℕ) × (0 < k)
          × (find_longest_overlap cur rel ≡ (pos i, pos (i + k)))
          × Agree cur rel i j k
          × IsBound cur rel k)
unfolding find_longest_overlap
find_longest_overlap-longest cur rel =
    conclude (search_from-IsSound cur rel 0 cur nothing_found refl (nothing refl))
  where
    best : Best
    best = search_from 0 cur rel nothing_found

    bound : IsBound cur rel best.max_len
    bound i j k (same, h, h') = omega (
      arith,
      overlap_length-longest (drop i cur) (drop j rel) k same h h',
      search_from-covers 0 cur rel nothing_found i j,
    )

    conclude :
        IsSound cur rel best
        → ((find_longest_overlap cur rel ≡ (negsuc 0, negsuc 0)) × IsBound cur rel 0)
          ⊎ ((i j k : ℕ) × (0 < k)
              × (find_longest_overlap cur rel ≡ (pos i, pos (i + k)))
              × Agree cur rel i j k
              × IsBound cur rel k)
    conclude (nothing e) = inl (
      (λ i. ((e i).longest_start, (e i).longest_end)),
      subst (λ (b : Best). IsBound cur rel b.max_len) e bound,
    )
    conclude (found i j es ee h ek) = inr (
      i,
      j,
      best.max_len,
      h,
      (λ t. (es t, ee t)),
      subst (Agree cur rel i j) ek (overlap_length-agrees (drop i cur) (drop j rel)),
      bound,
    )
