-- ===== src/Pg/Links/Related/Replaced.antt =====
-- The relations in memory after SetUsers.
use mathlib.Core.List.{Perm}
use ethereum_fetcher.Prelude.{
  ℕ, All, ◌⊎◌, ◌≡◌, refl, ap, subst, ◌∙◌, inl, inr, Bool, true, false, Option, none, some, List, [],
  ◌∷◌, ◌++◌, ◌==◌, Bool-cases, arith,
}
use ethereum_fetcher.Result.{ok}
use ethereum_fetcher.Exec.Rules.{Keeps, >>=-Keeps, >>=-eq-ok, annotate-Keeps}
use ethereum_fetcher.Pg.Links.Graph.{Graph, Link, assign, append_rel}
use ethereum_fetcher.Pg.Links.Slices.{remove_first}
use ethereum_fetcher.Pg.Links.Slices.Removal.{IsSplit, remove_first-Perm}
use ethereum_fetcher.Pg.Links.Related.Each.{has, IsDistinct, modify_each, modify_each_lem}
use ethereum_fetcher.Pg.Links.Related.{
  insert_related, link_related, append_to_each, append_related, add_related, has_key_of, remove_rel,
  remove_from_each, delete_links, cleared, clear_links, set_related,
}

module _ {M L F K : Type 0} (link : Link M L F K) where
  remove_from_each_lem :
      (o : ℕ) (related : List ℕ) (g : Graph M L F)
      → remove_from_each link o related g ≡ record g {
        foreign_rel = modify_each (remove_rel link (has_key_of link o g)) related g.foreign_rel;
      }
  unfolding remove_from_each modify_each
  remove_from_each_lem o [] g = refl
  remove_from_each_lem o (rel ∷ related) g = remove_from_each_lem o related (record g {
    foreign_rel =
        assign rel (remove_rel link (has_key_of link o g) (g.foreign_rel rel)) g.foreign_rel;
  })

  append_to_each_lem :
      (o : ℕ) (related : List ℕ) (g : Graph M L F)
      → append_to_each link o related g
        ≡ record g { foreign_rel = modify_each (append_rel (o ∷ [])) related g.foreign_rel }
  unfolding append_to_each modify_each
  append_to_each_lem o [] g = refl
  append_to_each_lem o (rel ∷ related) g = append_to_each_lem o related (record g {
    foreign_rel = assign rel (append_rel (o ∷ []) (g.foreign_rel rel)) g.foreign_rel;
  })

  -- the local rows, which no step changes, and both relations
  abbrev relations : Graph M L F → (ℕ → L) × (ℕ → Option (List ℕ)) × (ℕ → Option (List ℕ))
  relations g = (g.locals, g.local_rel, g.foreign_rel)

  module _ (t : (ℕ → L) × (ℕ → Option (List ℕ)) × (ℕ → Option (List ℕ))) where
    abbrev Related : Graph M L F → Type 0
    Related g = relations g ≡ t

    insert_related-Keeps :
        (insert : Bool) (related : List ℕ) → Keeps Related (insert_related link insert related)
    unfolding insert_related
    insert_related-Keeps insert [] = λ s h. h
    insert_related-Keeps true (rel ∷ related) =
        >>=-Keeps Related _ _ (annotate-Keeps Related _ _ λ s h. h)
          λ a. insert_related-Keeps true related
    insert_related-Keeps false (rel ∷ related) =
        >>=-Keeps Related _ _ (λ s h. h) λ a. insert_related-Keeps false related

    link_related-Keeps : (o : ℕ) (related : List ℕ) → Keeps Related (link_related link o related)
    unfolding link_related
    link_related-Keeps o [] = λ s h. h
    link_related-Keeps o (rel ∷ related) =
        >>=-Keeps Related _ _ (λ s. annotate-Keeps Related _ _ (λ s h. h) s)
          λ a. link_related-Keeps o related

    delete_links-Keeps : (o : ℕ) → Keeps Related (delete_links link o "" [])
    unfolding delete_links
    delete_links-Keeps o s = annotate-Keeps Related _ _ (λ s h. h) s

  -- The entries of a user that SetUsers leaves to it, before the transaction.
  abbrev pub entries_left : ℕ → Graph M L F → Option (List ℕ) → List ℕ
  entries_left o g none = []
  entries_left o g (some xs) = remove_first (has_key_of link o g) xs

  appended :
      (o : ℕ) (g : Graph M L F) (r : Option (List ℕ))
      → append_rel (o ∷ []) (remove_rel link (has_key_of link o g) r)
        ≡ some (entries_left o g r ++ o ∷ [])
  appended o g none = refl
  appended o g (some xs) = refl

  -- What the two loops over relations do to the relations.
  abbrev Relations : Type 0
  Relations = (ℕ → L) × (ℕ → Option (List ℕ)) × (ℕ → Option (List ℕ))

  abbrev clear_step : ℕ → List ℕ → Relations → Relations
  clear_step o related (ls, mine, theirs) = (
    ls,
    assign o (cleared link (mine o)) mine,
    modify_each
        (remove_rel link (λ ri. link.same_key (link.local_key (ls o)) (link.local_key (ls ri))))
        related theirs,
  )

  abbrev append_step : ℕ → List ℕ → Relations → Relations
  append_step o related (ls, mine, theirs) = (
    ls,
    assign o (append_rel related (mine o)) mine,
    modify_each (append_rel (o ∷ [])) related theirs,
  )

  clear_links_lem :
      (o : ℕ) (related : List ℕ) (g : Graph M L F)
      → relations (clear_links link o related g).1 ≡ clear_step o related (relations g)
  clear_links_lem o related g i = clear_step_of (remove_from_each_lem o related g i)
    where
      clear_step_of : Graph M L F → Relations
      clear_step_of g' =
          (g'.locals, assign o (cleared link (g'.local_rel o)) g'.local_rel, g'.foreign_rel)

  append_related_lem :
      (o : ℕ) (related : List ℕ) (g : Graph M L F)
      → relations (append_related link o related g).1 ≡ append_step o related (relations g)
  unfolding append_related
  append_related_lem o related g = ap relations (
      append_to_each_lem o related
        (record g { local_rel = assign o (append_rel related (g.local_rel o)) g.local_rel }))

  append_rel-cleared :
      (related : List ℕ) (r : Option (List ℕ)) → append_rel related (cleared link r) ≡ some related
  append_rel-cleared related none = refl
  append_rel-cleared related (some xs) = refl

  -- The entries of a relation, and none where it is nil.
  abbrev pub entries_of : Option (List ℕ) → List ℕ
  entries_of none = []
  entries_of (some xs) = xs

  -- `left` is what is left of `xs` without its first element that passes the test, in some order,
  -- or all of `xs` where none does.
  abbrev pub IsLeft : (ℕ → Bool) → (xs left : List ℕ) → Type 0
  IsLeft p xs left =
      (All (λ y. p y ≡ false) xs × (left ≡ xs))
      ⊎ ((pre : List ℕ) × (x : ℕ) × (post : List ℕ) × IsSplit p xs pre x post
          × Perm left (pre ++ post))

  entries_left-IsLeft :
      (o : ℕ) (g : Graph M L F) (r : Option (List ℕ))
      → IsLeft (has_key_of link o g) (entries_of r) (entries_left o g r)
  entries_left-IsLeft o g none = inl (tt, refl)
  entries_left-IsLeft o g (some xs) = remove_first-Perm (has_key_of link o g) xs

  -- The row at a pointer has the key of the row at `o`.
  abbrev pub shares_key : ℕ → Graph M L F → ℕ → Bool
  shares_key o g p = link.same_key (link.local_key (g.locals o)) (link.local_key (g.locals p))

  -- The relations of the transaction and of each user, after and before.
  abbrev pub Replaced : ℕ → List ℕ → Graph M L F → Graph M L F → Type 0
  Replaced o related g g' =
      (g'.local_rel o ≡ some related)
      × ((f : ℕ)
          → ((has f related ≡ true)
              × ((left : List ℕ) × IsLeft (shares_key o g) (entries_of (g.foreign_rel f)) left
                  × (g'.foreign_rel f ≡ some (left ++ o ∷ []))))
            ⊎ ((has f related ≡ false) × (g'.foreign_rel f ≡ g.foreign_rel f)))

  Replaced-both :
      (o : ℕ) (related : List ℕ) (g g' : Graph M L F)
      → IsDistinct related
      → relations g' ≡ append_step o related (clear_step o related (relations g))
      → Replaced o related g g'
  Replaced-both o related g g' d e =
      let self : (o == o) ≡ true = ground arith in
      let appends =
        λ (f : ℕ). ap (λ t. t.2 f) e ∙ modify_each_lem (append_rel (o ∷ [])) related _ f d in
      let removes = λ (f : ℕ).
        modify_each_lem (remove_rel link (has_key_of link o g)) related g.foreign_rel f d in
      (
        ap (λ t. t.1 o) e ∙ rw self (append_rel-cleared related (g.local_rel o)),
        λ f. elim (Bool-cases (has f related)) [
          | inl given ↦ inl (
            given,
            (
              entries_left o g (g.foreign_rel f),
              entries_left-IsLeft o g (g.foreign_rel f),
              appends f ∙ rw (removes f, given) (appended o g (g.foreign_rel f)),
            ),
          )
          | inr kept ↦ inr (kept, appends f ∙ rw (removes f, kept) refl)
        ],
      )

  -- When no user is given twice and SetUsers returns no error, the users of the transaction are the
  -- given ones, in their order; each of them has, after what it had less the first entry with the
  -- key of the transaction, in some order, the transaction; and all other users are left as they
  -- were, also those that the transaction had before.
  pub set_related_lem :
      (insert : Bool) (o : ℕ) (related : List ℕ) (g g' : Graph M L F)
      → IsDistinct related
      → set_related link insert o related g ≡ (ok tt, g')
      → Replaced o related g g'
  unfolding set_related add_related
  set_related_lem insert o related g g' distinct e =
      let (a₁, g₁, deleted, e₁) = >>=-eq-ok _ _ g e in
      let (a₂, g₂, emptied, e₂) = >>=-eq-ok _ _ g₁ e₁ in
      let (a₃, g₃, inserted, e₃) = >>=-eq-ok _ _ g₂ e₂ in
      let (a₄, g₄, linked, e₄) = >>=-eq-ok _ _ g₃ e₃ in
      let frame₁ : relations g₁ ≡ relations g =
        subst (λ r. relations r.1 ≡ relations g) deleted
          (delete_links-Keeps (relations g) o g refl) in
      let frame₃ : relations g₃ ≡ relations g₂ =
        subst (λ r. relations r.1 ≡ relations g₂) inserted
          (insert_related-Keeps (relations g₂) insert related g₂ refl) in
      let frame₄ : relations g₄ ≡ relations g₃ =
        subst (λ r. relations r.1 ≡ relations g₃) linked
          (link_related-Keeps (relations g₃) o related g₃ refl) in
      let made₂ : relations g₂ ≡ clear_step o related (relations g₁) =
        subst (λ r. relations r.1 ≡ clear_step o related (relations g₁)) emptied
          (clear_links_lem o related g₁) in
      let made' : relations g' ≡ append_step o related (relations g₄) =
        subst (λ r. relations r.1 ≡ append_step o related (relations g₄)) e₄
          (append_related_lem o related g₄) in
      Replaced-both o related g g' distinct (
        made'
        ∙ ap (append_step o related) (frame₄ ∙ frame₃ ∙ made₂ ∙ ap (clear_step o related) frame₁))
