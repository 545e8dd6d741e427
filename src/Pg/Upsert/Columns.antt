-- ===== src/Pg/Upsert/Columns.antt =====
-- The columns that an upsert sets.
use Prim.Native.String.append
use text.Mathlib.TextLemmas.{append-nil}
use ethereum_fetcher.Prelude.{
  ℕ, suc, String, ◌≡◌, refl, sym, ap, inl, inr, Bool, false, not, List, [], ◌∷◌, map, filter, arith,
  join_texts, str_eq, ◌==◌, Bool-cases,
}
use ethereum_fetcher.Result.{◌+++◌}
use ethereum_fetcher.Pg.Upsert.{assignment, update_list}

abbrev pub is_named : String → Bool
is_named v = not (str_eq v "")

-- Each text with a comma before it.
abbrev after_commas : List String → String
after_commas [] = ""
after_commas (s ∷ ss) = "," +++ s +++ after_commas ss

join_texts-cons : (s : String) (ss : List String) → join_texts "," (s ∷ ss) ≡ s +++ after_commas ss
join_texts-cons s [] = sym (append-nil s)
join_texts-cons s (t ∷ ss) = ap (λ u. s +++ "," +++ u) (join_texts-cons t ss)

suc_is_not_zero : (i : ℕ) → (suc i == 0) ≡ false
suc_is_not_zero i = ground arith

module _ (ident_quote : String → String) (placeholders : ℕ → String) where
  update_list-suc :
      (i : ℕ) (vs : List String)
      → update_list ident_quote placeholders (suc i) vs
        ≡ after_commas (map (assignment ident_quote placeholders) (filter is_named vs))
  unfolding update_list
  update_list-suc i [] = refl
  update_list-suc i (v ∷ vs) = elim (Bool-cases (str_eq v "")) [
    | inl blank ↦ rw blank (update_list-suc (suc i) vs)
    | inr named ↦ rw (named, suc_is_not_zero i, update_list-suc (suc i) vs) refl
  ]

  -- When the first column has a name, the SET list is the assignments of all columns that have one,
  -- in their order and with a comma between any two.
  pub update_list-join_texts :
      (v : String) (vs : List String)
      → str_eq v "" ≡ false
      → update_list ident_quote placeholders 0 (v ∷ vs)
        ≡ join_texts "," (map (assignment ident_quote placeholders) (filter is_named (v ∷ vs)))
  unfolding update_list
  update_list-join_texts v vs named =
      rw (named, join_texts-cons, update_list-suc 0 vs) (append.nil _)
