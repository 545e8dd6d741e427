-- ===== src/Prelude/Texts.antt =====
-- The order of texts, as `strings.Compare` has it.
use Prim.Native.Nat.compare as compare_ℕ
use Prim.Native.Nat.{ℕ, zero, suc, Ordering, compare as compare_ℕ}
use Prim.Native.Char.{code}
use Prim.Native.String.compare
use Prim.Native.String.{String, [], ◌∷◌, compare, then}
use Prim.Native.String
use mathlib.Core.List.{List}
use mathlib.Core.Path.{◌≡◌, refl, sym, ◌∙◌, ap, ap₂}

-- the comparison with its sides exchanged
abbrev pub opposite : Ordering → Ordering
opposite Ordering.lt = Ordering.gt
opposite Ordering.eq = Ordering.eq
opposite Ordering.gt = Ordering.lt

compare_ℕ_swap : (m n : ℕ) → compare_ℕ n m ≡ opposite (compare_ℕ m n)
compare_ℕ_swap zero zero = compare_ℕ.zero-zero ∙ ap opposite (sym compare_ℕ.zero-zero)
compare_ℕ_swap zero (suc n) = compare_ℕ.suc-zero n ∙ ap opposite (sym (compare_ℕ.zero-suc n))
compare_ℕ_swap (suc m) zero = compare_ℕ.zero-suc m ∙ ap opposite (sym (compare_ℕ.suc-zero m))
compare_ℕ_swap (suc m) (suc n) =
    compare_ℕ.suc-suc n m ∙ compare_ℕ_swap m n ∙ ap opposite (sym (compare_ℕ.suc-suc m n))

opposite-then : (o r : Ordering) → then (opposite o) (opposite r) ≡ opposite (then o r)
opposite-then Ordering.lt r = refl
opposite-then Ordering.eq r = refl
opposite-then Ordering.gt r = refl

pub compare_swap : (s t : String) → compare t s ≡ opposite (compare s t)
compare_swap [] [] = compare.nil-nil ∙ ap opposite (sym compare.nil-nil)
compare_swap [] (d ∷ t) = compare.cons-nil d t ∙ ap opposite (sym (compare.nil-cons d t))
compare_swap (c ∷ s) [] = compare.nil-cons c s ∙ ap opposite (sym (compare.cons-nil c s))
compare_swap (c ∷ s) (d ∷ t) =
    compare.cons-cons d c t s
    ∙ ap₂ then (compare_ℕ_swap (code c) (code d)) (compare_swap s t)
    ∙ opposite-then (compare_ℕ (code c) (code d)) (compare s t)
    ∙ ap opposite (sym (compare.cons-cons c d s t))

-- `strings.Join`, with the separator first
abbrev pub join_texts : String → List String → String
join_texts sep List.[] = ""
join_texts sep (List.◌∷◌ s List.[]) = s
join_texts sep (List.◌∷◌ s (List.◌∷◌ t ss)) =
    String.◌++◌ s (String.◌++◌ sep (join_texts sep (List.◌∷◌ t ss)))
