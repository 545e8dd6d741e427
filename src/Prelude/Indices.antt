-- ===== src/Prelude/Indices.antt =====
-- What indexing, `take` and `drop` do to lists.
use Prim.Native.Nat.{ℕ, zero, suc, ◌+◌, ◌<◌}
use mathlib.Core.Path.{◌≡◌, refl, ap}
use mathlib.Core.List.{List, [], ◌∷◌, ◌++◌}
use mathlib.Core.Option.{some}
use native.Mathlib.Omega.{arith}
use ethereum_fetcher.Prelude.Lists.{length, get_elem?, take, drop}

module _ {ℓ} {A : Type ℓ} where
  pub get_elem?-take : (k m : ℕ) (xs : List A) → m < k → get_elem? (take k xs) m ≡ get_elem? xs m
  get_elem?-take zero m xs h = absurd (omega arith)
  get_elem?-take (suc k) m [] h = refl
  get_elem?-take (suc k) zero (x ∷ xs) h = refl
  get_elem?-take (suc k) (suc m) (x ∷ xs) h = get_elem?-take k m xs (omega arith)

  pub get_elem?-drop : (i m : ℕ) (xs : List A) → get_elem? (drop i xs) m ≡ get_elem? xs (i + m)
  get_elem?-drop zero m xs = let none_added : 0 + m ≡ m = omega arith in rw none_added refl
  get_elem?-drop (suc i) m [] = refl
  get_elem?-drop (suc i) m (x ∷ xs) =
      let next : suc i + m ≡ suc (i + m) = omega arith in rw next (get_elem?-drop i m xs)

  pub get_elem?-some : (i : ℕ) (xs : List A) → i < length xs → (x : A) × (get_elem? xs i ≡ some x)
  get_elem?-some i [] h = absurd (omega arith)
  get_elem?-some zero (x ∷ xs) h = (x, refl)
  get_elem?-some (suc i) (x ∷ xs) h = get_elem?-some i xs (omega arith)

  pub get_elem?-append_left :
      (xs ys : List A) (i : ℕ) → i < length xs → get_elem? (xs ++ ys) i ≡ get_elem? xs i
  get_elem?-append_left [] ys i h = absurd (omega arith)
  get_elem?-append_left (x ∷ xs) ys zero h = refl
  get_elem?-append_left (x ∷ xs) ys (suc i) h = get_elem?-append_left xs ys i (omega arith)

  pub drop-append : (xs ys : List A) → drop (length xs) (xs ++ ys) ≡ ys
  drop-append [] ys = refl
  drop-append (x ∷ xs) ys = drop-append xs ys

  pub take-append : (xs ys : List A) → take (length xs) (xs ++ ys) ≡ xs
  take-append [] ys = refl
  take-append (x ∷ xs) ys = ap (λ zs. x ∷ zs) (take-append xs ys)

  pub length-drop :
      (i : ℕ) (xs : List A) → 0 < length (drop i xs) → i + length (drop i xs) ≡ length xs
  length-drop zero xs h = omega arith
  length-drop (suc i) [] h = absurd (omega arith)
  length-drop (suc i) (x ∷ xs) h = omega (arith, length-drop i xs h)
