-- ===== src/Pg/Links/Slices/Removal.antt =====
-- What the loop takes out.
use mathlib.Core.List.{Perm, perm_middle, append-nil, append_assoc}
use mathlib.Core.List.Perm
use ethereum_fetcher.Prelude.{
  ℕ, suc, ◌+◌, ◌-◌, ◌≡◌, refl, sym, ap, ◌⊎◌, inl, inr, Bool, true, false, ◌&&◌, none, some, List,
  [], ◌∷◌, ◌++◌, length, length-append, get_elem?, take-append, ltb, All, Bool-cases, arith,
}
use ethereum_fetcher.Pg.Links.Slices.{index_of, put, remove_at, remove_first}

-- What stands before and after the first element that `p` is true of.
abbrev pub IsSplit : (ℕ → Bool) → (xs pre : List ℕ) → ℕ → List ℕ → Type 0
IsSplit p xs pre x post = (xs ≡ pre ++ x ∷ post) × (p x ≡ true) × All (λ y. p y ≡ false) pre

abbrev Found : (ℕ → Bool) → List ℕ → Type 0
Found p xs =
    (pre : List ℕ) × (x : ℕ) × (post : List ℕ) × IsSplit p xs pre x post
    × (index_of p xs ≡ some (length pre))

index_of-cases :
    (p : ℕ → Bool) (xs : List ℕ) → (All (λ y. p y ≡ false) xs × (index_of p xs ≡ none)) ⊎ Found p xs
unfolding index_of
index_of-cases p [] = inl (tt, refl)
index_of-cases p (x ∷ xs) = elim (Bool-cases (p x)) [
  | inl hit ↦ inr ([], x, xs, (refl, hit, tt), rw hit refl)
  | inr miss ↦ elim (index_of-cases p xs) [
    | inl (others, missing) ↦ inl ((miss, others), rw (miss, missing) refl)
    | inr (pre, y, post, (e, hit, others), found) ↦
        inr (x ∷ pre, y, post, (ap (λ zs. x ∷ zs) e, hit, (miss, others)), rw (miss, found) refl)
  ]
]

get_elem?-append : (xs ys : List ℕ) (y : ℕ) → get_elem? (xs ++ y ∷ ys) (length xs) ≡ some y
get_elem?-append [] ys y = refl
get_elem?-append (x ∷ xs) ys y = get_elem?-append xs ys y

put-append : (xs ys : List ℕ) (y z : ℕ) → put (length xs) z (xs ++ y ∷ ys) ≡ xs ++ z ∷ ys
put-append [] ys y z = refl
put-append (x ∷ xs) ys y z = ap (λ zs. x ∷ zs) (put-append xs ys y z)

last-cases : (xs : List ℕ) → (xs ≡ []) ⊎ ((ys : List ℕ) × (l : ℕ) × (xs ≡ ys ++ l ∷ []))
last-cases [] = inl refl
last-cases (x ∷ xs) = elim (last-cases xs) [
  | inl e ↦ inr ([], x, ap (λ zs. x ∷ zs) e)
  | inr (ys, l, e) ↦ inr (x ∷ ys, l, ap (λ zs. x ∷ zs) e)
]

remove_at_last : (pre : List ℕ) (x : ℕ) → remove_at (some (length pre)) (pre ++ x ∷ []) ≡ pre
unfolding remove_at
remove_at_last pre x =
    let ln : length (pre ++ x ∷ []) - 1 ≡ length pre = omega (arith, length-append pre (x ∷ [])) in
    let end : (ltb 1 (length (pre ++ x ∷ [])) && ltb (length pre) (length (pre ++ x ∷ []) - 1))
        ≡ false =
      ground arith in
    rw (end, ln) (take-append pre (x ∷ []))

remove_at_inner :
    (pre init : List ℕ) (x l : ℕ)
    → remove_at (some (length pre)) ((pre ++ x ∷ init) ++ l ∷ []) ≡ pre ++ l ∷ init
unfolding remove_at
remove_at_inner pre init x l =
    let zs = (pre ++ x ∷ init) ++ l ∷ [] in
    let part : length (pre ++ x ∷ init) ≡ length pre + suc (length init) =
      length-append pre (x ∷ init) in
    let whole : length zs ≡ length (pre ++ x ∷ init) + 1 =
      length-append (pre ++ x ∷ init) (l ∷ []) in
    let inner : (ltb 1 (length zs) && ltb (length pre) (length zs - 1)) ≡ true = ground arith in
    let ln : length zs - 1 ≡ length (pre ++ x ∷ init) = omega arith in
    let moved : put (length pre) l zs ≡ (pre ++ l ∷ init) ++ l ∷ [] =
      rw (append_assoc pre (x ∷ init) (l ∷ []), append_assoc pre (l ∷ init) (l ∷ []))
        (put-append pre (init ++ l ∷ []) x l) in
    let same : length (pre ++ x ∷ init) ≡ length (pre ++ l ∷ init) =
      omega (arith, length-append pre (l ∷ init)) in
    rw (inner, ln, get_elem?-append (pre ++ x ∷ init) [] l, moved, same)
      (take-append (pre ++ l ∷ init) (l ∷ []))

left_over :
    (pre post : List ℕ) (x : ℕ)
    → Perm (remove_at (some (length pre)) (pre ++ x ∷ post)) (pre ++ post)
left_over pre post x = elim (last-cases post) [
  | inl e ↦ rw (e, remove_at_last pre x, append-nil pre) (Perm.refl pre)
  | inr (init, l, e) ↦
      let there : Perm (pre ++ l ∷ init) (l ∷ (pre ++ init)) = perm_middle pre init in
      let back : Perm ((pre ++ init) ++ l ∷ []) (l ∷ (pre ++ init)) =
        rw (append-nil (pre ++ init)) at (perm_middle {a = l} (pre ++ init) []) in
      rw
        (
          e,
          sym (append_assoc pre (x ∷ init) (l ∷ [])),
          remove_at_inner pre init x l,
          sym (append_assoc pre init (l ∷ [])),
        )
        (Perm.trans there (Perm.symm back))
]

-- The loop leaves a slice as it is in which nothing passes the test. Otherwise it takes out the
-- first element that does, and what is left is the rest of the slice in some order.
pub remove_first-Perm :
    (p : ℕ → Bool) (xs : List ℕ)
    → (All (λ y. p y ≡ false) xs × (remove_first p xs ≡ xs))
      ⊎ ((pre : List ℕ) × (x : ℕ) × (post : List ℕ) × IsSplit p xs pre x post
          × Perm (remove_first p xs) (pre ++ post))
unfolding remove_first
remove_first-Perm p xs = elim (index_of-cases p xs) [
  | inl (others, missing) ↦ inl (others, rw missing refl)
  | inr (pre, x, post, split, found) ↦
      inr (pre, x, post, split, rw (found, split.0) (left_over pre post x))
]
