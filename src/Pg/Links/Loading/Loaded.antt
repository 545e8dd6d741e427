-- ===== src/Pg/Links/Loading/Loaded.antt =====
-- A slice of rows after an eager load.
use ethereum_fetcher.Prelude.{
  ℕ, ◌≡◌, refl, sym, ap, subst, ◌∙◌, inl, inr, Bool, true, false, Option, none, some, List, [], ◌∷◌,
  ◌++◌, ◌==◌, ==_iff, Bool-cases, arith, length, if◌then◌else◌,
}
use ethereum_fetcher.Result.{Result, ok}
use ethereum_fetcher.Exec.{pure}
use ethereum_fetcher.Exec.Rules.{Keeps, >>=-Keeps, >>=-eq-ok, annotate-Keeps}
use ethereum_fetcher.Pg.Rows.Boiler.{Mod}
use ethereum_fetcher.Pg.Links.Graph.{Graph, Link, assign}
use ethereum_fetcher.Pg.Links.Related.Each.{has}
use ethereum_fetcher.Pg.Links.Loading.{
  slice, or_empty, ensure_each, is_arg, args_of, read_entries, hooks_on_each, fetch_related,
  attach_all, load_related,
}
use ethereum_fetcher.Pg.Links.Loading.Attached.{IsLawful, IsKeyed, of_key, attach_each_lem}

-- the entries of a relation, and none where it is nil
abbrev pub entries_of : Option (List ℕ) → List ℕ
entries_of none = []
entries_of (some xs) = xs

or_empty_lem : (r : Option (List ℕ)) → or_empty r ≡ some (entries_of r)
or_empty_lem none = refl
or_empty_lem (some xs) = refl

module _ {M L F K : Type 0} (link : Link M L F K) where
  ensure_each-locals : (os : List ℕ) (g : Graph M L F) → (ensure_each link os g).locals ≡ g.locals
  unfolding ensure_each
  ensure_each-locals [] g = refl
  ensure_each-locals (o ∷ os) g =
      ensure_each-locals os
        (record g { local_rel = assign o (or_empty (g.local_rel o)) g.local_rel })

  ensure_each-some :
      (os : List ℕ) (g : Graph M L F) (l : ℕ) (xs : List ℕ)
      → g.local_rel l ≡ some xs
      → (ensure_each link os g).local_rel l ≡ some xs
  unfolding ensure_each
  ensure_each-some [] g l xs e = e
  ensure_each-some (o ∷ os) g l xs e =
      ensure_each-some os (record g { local_rel = assign o (or_empty (g.local_rel o)) g.local_rel })
        l xs
        (elim (Bool-cases (o == l)) [
          | inl same ↦
              rw same (ap (λ y. or_empty (g.local_rel y)) ((==_iff o l).0 same) ∙ ap or_empty e)
          | inr other ↦ rw other e
        ])

  ensure_each-local_rel :
      (os : List ℕ) (g : Graph M L F) (l : ℕ)
      → has l os ≡ true
      → (ensure_each link os g).local_rel l ≡ some (entries_of (g.local_rel l))
  unfolding ensure_each
  ensure_each-local_rel [] g l m = cc
  ensure_each-local_rel (o ∷ os) g l m =
      let g' = record g { local_rel = assign o (or_empty (g.local_rel o)) g.local_rel } in
      elim (Bool-cases (o == l)) [
        | inl same ↦ ensure_each-some os g' l (entries_of (g.local_rel l)) (
            rw same (
              ap (λ y. or_empty (g.local_rel y)) ((==_iff o l).0 same)
              ∙ or_empty_lem (g.local_rel l)))
        | inr other ↦
            let kept : g'.local_rel l ≡ g.local_rel l = rw other refl in
            rw kept at (ensure_each-local_rel os g' l (rw other at m))
      ]

  some_arg : (k : K) (ks : List K) → is_arg link k ks ≡ true → (length ks == 0) ≡ false
  some_arg k [] h = cc
  some_arg k (j ∷ js) h = ground arith

  args_of_some :
      (os : List ℕ) (g : Graph M L F) (l : ℕ)
      → has l os ≡ true
      → (length (args_of link os g) == 0) ≡ false
  args_of_some [] g l m = cc
  args_of_some (o ∷ os) g l m =
      let k = link.local_key (g.locals o) in
      elim (Bool-cases (is_arg link k (args_of link os g))) [
        | inl old ↦ rw old (some_arg k (args_of link os g) old)
        | inr new ↦ rw new (ground arith)
      ]

  module _ (ls : ℕ → L) (rel : ℕ → Option (List ℕ)) where
    abbrev Loads : Graph M L F → Type 0
    Loads g = (g.locals ≡ ls) × (g.local_rel ≡ rel)

    read_entries-Keeps :
        (entries : List (Result (F × K) × Result (Unit {0})))
        → Keeps Loads (read_entries link entries)
    unfolding read_entries
    read_entries-Keeps [] = λ s h. h
    read_entries-Keeps ((scan, problem) ∷ entries) =
        >>=-Keeps Loads _ _ (annotate-Keeps Loads _ _ λ s h. h) λ one.
          >>=-Keeps Loads _ _ (annotate-Keeps Loads _ _ λ s h. h) λ a.
            >>=-Keeps Loads _ _ (λ s h. h)
              λ foreign. >>=-Keeps Loads _ _ (read_entries-Keeps entries) λ rows s h. h

    hooks_on_each-Keeps : (rows : List (ℕ × K)) → Keeps Loads (hooks_on_each link rows)
    unfolding hooks_on_each
    hooks_on_each-Keeps [] = λ s h. h
    hooks_on_each-Keeps (row ∷ rows) = >>=-Keeps Loads _ _ (λ s h. h) λ a. hooks_on_each-Keeps rows

    hooks-Keeps :
        (some_hooks : Bool) (rows : List (ℕ × K))
        → Keeps Loads (if some_hooks then hooks_on_each link rows else pure tt)
    hooks-Keeps true rows = hooks_on_each-Keeps rows
    hooks-Keeps false rows = λ s h. h

    fetch_related-Keeps :
        (mods : Option (List Mod → List Mod)) (args : List K)
        → Keeps Loads (fetch_related link mods args)
    unfolding fetch_related
    fetch_related-Keeps mods args =
        >>=-Keeps Loads _ _ (annotate-Keeps Loads _ _ λ s h. h) λ results.
          >>=-Keeps Loads _ _ (read_entries-Keeps results.entries) λ rows.
            >>=-Keeps Loads _ _ (annotate-Keeps Loads _ _ λ s h. h) λ a.
              >>=-Keeps Loads _ _ (annotate-Keeps Loads _ _ λ s h. h)
                λ b. >>=-Keeps Loads _ _ (hooks-Keeps link.has_select_hooks rows) λ c s h. h

  -- The foreign rows that are read for the slice with the key of a row are, in their order, what
  -- the row has after an eager load that it did not have before.
  abbrev pub Gives :
      Option (List Mod → List Mod) → List ℕ → (before after : Graph M L F) → ℕ → Type 0
  Gives mods os g g' l =
      (rows : List (ℕ × K)) × (g₂ : Graph M L F) × (fetch_related link mods
          (args_of link os (ensure_each link os g)) (ensure_each link os g)
        ≡ (ok rows, g₂))
      × (g'.local_rel l
          ≡ some (entries_of (g.local_rel l) ++ of_key link (link.local_key (g.locals l)) rows))

  pub load_related-slice :
      IsLawful link
      → (mods : Option (List Mod → List Mod)) (os : List ℕ) (g g' : Graph M L F) (l : ℕ)
      → IsKeyed link os g.locals
      → has l os ≡ true
      → load_related link (slice os) mods g ≡ (ok tt, g')
      → Gives mods os g g' l
  unfolding load_related attach_all
  load_related-slice lawful mods os g g' l keyed m e =
      let g₁ = ensure_each link os g in
      let (rows, g₂, fetched, attached) =
        >>=-eq-ok _ _ g₁ (rw (args_of_some os g₁ l m, load_related) at e) in
      let (locals, rel) =
        subst (λ r. Loads g₁.locals g₁.local_rel r.1) fetched
          (fetch_related-Keeps g₁.locals g₁.local_rel mods (args_of link os g₁) g₁ (refl, refl)) in
      (
        rows,
        g₂,
        fetched,
        ap (λ r. r.1.local_rel l) (sym attached)
            ∙ attach_each_lem link lawful os rows g₂ g.locals l (entries_of (g.local_rel l))
                (locals ∙ ensure_each-locals os g) keyed m
                (ap (λ r. r l) rel ∙ ensure_each-local_rel os g l m),
      )
