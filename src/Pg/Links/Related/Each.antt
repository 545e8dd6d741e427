-- ===== src/Pg/Links/Related/Each.antt =====
-- A change of the relations of several rows.
use ethereum_fetcher.Prelude.{
  ℕ, ◌≡◌, refl, sym, ap, ◌∙◌, inl, inr, Bool, true, false, Option, List, [], ◌∷◌, ◌==◌, ==_iff,
  Bool-cases, if◌then◌else◌,
}
use ethereum_fetcher.Pg.Links.Graph.{assign}

abbrev pub has : ℕ → List ℕ → Bool
has f [] = false
has f (x ∷ xs) = if x == f then true else has f xs

-- No pointer is given twice.
abbrev pub IsDistinct : List ℕ → Type 0
IsDistinct [] = Unit {0}
IsDistinct (x ∷ xs) = (has x xs ≡ false) × IsDistinct xs

-- `h` on the relation of each of the rows
unfoldable pub modify_each :
    (Option (List ℕ) → Option (List ℕ)) → List ℕ → (ℕ → Option (List ℕ)) → ℕ → Option (List ℕ)
modify_each h [] rel = rel
modify_each h (x ∷ xs) rel = modify_each h xs (assign x (h (rel x)) rel)

has_other : (x f : ℕ) (xs : List ℕ) → (x == f) ≡ true → has x xs ≡ has f xs
has_other x f xs e = ap (λ y. has y xs) ((==_iff x f).0 e)

pub modify_each_lem :
    (h : Option (List ℕ) → Option (List ℕ)) (xs : List ℕ) (rel : ℕ → Option (List ℕ)) (f : ℕ)
    → IsDistinct xs
    → modify_each h xs rel f ≡ (if has f xs then h (rel f) else rel f)
unfolding modify_each
modify_each_lem h [] rel f d = refl
modify_each_lem h (x ∷ xs) rel f (fresh, d) =
    modify_each_lem h xs (assign x (h (rel x)) rel) f d ∙ elim (Bool-cases (x == f)) [
      | inl same ↦
          let once : has f xs ≡ false = sym (has_other x f xs same) ∙ fresh in
          rw (same, once) (ap (λ y. h (rel y)) ((==_iff x f).0 same))
      | inr other ↦ rw other refl
    ]
