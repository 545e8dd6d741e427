-- ===== src/Pg/Links/Loading/Attached.antt =====
-- Whom an eager load gives the rows to.
use mathlib.Core.List.{append-nil, append_assoc}
use ethereum_fetcher.Prelude.{
  ℕ, ◌≡◌, refl, sym, ap, subst, ◌∙◌, ◌↔◌, inl, inr, Bool, true, false, false≢true, Option, none,
  some, List, [], ◌∷◌, ◌++◌, map, filter, All, ◌==◌, ==_iff, Bool-cases, if◌then◌else◌,
}
use ethereum_fetcher.Pg.Links.Graph.{Graph, Link}
use ethereum_fetcher.Pg.Links.Related.Each.{has}
use ethereum_fetcher.Pg.Links.Loading.{first_with, attach, attach_each}

abbrev is_at : Option ℕ → ℕ → Bool
is_at none l = false
is_at (some o) l = o == l

module _ {M L F K : Type 0} (link : Link M L F K) where
  -- The test on keys is equality.
  abbrev pub IsLawful : Type 0
  IsLawful = (j k : K) → (link.same_key j k ≡ true) ↔ (j ≡ k)

  -- No two rows of the slice have the same key.
  abbrev pub IsKeyed : List ℕ → (ℕ → L) → Type 0
  IsKeyed [] ls = Unit {0}
  IsKeyed (o ∷ os) ls =
      All (λ l. link.same_key (link.local_key (ls o)) (link.local_key (ls l)) ≡ false) os
      × IsKeyed os ls

  other_key :
      (o l : ℕ) (os : List ℕ) (ls : ℕ → L)
      → All (λ l. link.same_key (link.local_key (ls o)) (link.local_key (ls l)) ≡ false) os
      → has l os ≡ true
      → link.same_key (link.local_key (ls o)) (link.local_key (ls l)) ≡ false
  other_key o l [] ls h m = cc
  other_key o l (x ∷ os) ls (here, h) m = elim (Bool-cases (x == l)) [
    | inl same ↦
        subst (λ y. link.same_key (link.local_key (ls o)) (link.local_key (ls y)) ≡ false)
          ((==_iff x l).0 same) here
    | inr other ↦ other_key o l os ls h (rw other at m)
  ]

  first_with-key :
      IsLawful
      → (col : K) (os : List ℕ) (g : Graph M L F) (l : ℕ)
      → is_at (first_with link col os g) l ≡ true
      → link.same_key (link.local_key (g.locals l)) col ≡ true
  unfolding first_with
  first_with-key lawful col [] g l h = cc
  first_with-key lawful col (o ∷ os) g l h =
      elim (Bool-cases (link.same_key (link.local_key (g.locals o)) col)) [
        | inl hit ↦
            let at_o : (o == l) ≡ true = rw hit at h in
            subst (λ y. link.same_key (link.local_key (g.locals y)) col ≡ true)
              ((==_iff o l).0 at_o) hit
        | inr miss ↦ first_with-key lawful col os g l (rw miss at h)
      ]

  -- In a slice of rows with different keys, a key leads to the one row that has it.
  first_with-IsKeyed :
      IsLawful
      → (col : K) (os : List ℕ) (g : Graph M L F) (l : ℕ) → IsKeyed os g.locals
      → has l os ≡ true
      → is_at (first_with link col os g) l ≡ link.same_key (link.local_key (g.locals l)) col
  unfolding first_with
  first_with-IsKeyed lawful col [] g l keyed m = cc
  first_with-IsKeyed lawful col (o ∷ os) g l (others, keyed) m = elim (Bool-cases (o == l)) [
    | inl same ↦
        let key_l : link.same_key (link.local_key (g.locals o)) col
            ≡ link.same_key (link.local_key (g.locals l)) col =
          ap (λ y. link.same_key (link.local_key (g.locals y)) col) ((==_iff o l).0 same) in
        elim (Bool-cases (link.same_key (link.local_key (g.locals o)) col)) [
          | inl hit ↦ rw hit (same ∙ sym hit ∙ key_l)
          | inr miss ↦ elim (Bool-cases (is_at (first_with link col os g) l)) [
            | inl found ↦
                absurd (false≢true (sym key_l ∙ miss) (first_with-key lawful col os g l found))
            | inr none_left ↦ rw miss (none_left ∙ sym miss ∙ key_l)
          ]
        ]
    | inr other ↦ elim (Bool-cases (link.same_key (link.local_key (g.locals o)) col)) [
      | inl hit ↦ elim (Bool-cases (link.same_key (link.local_key (g.locals l)) col)) [
        | inl hit_l ↦ absurd (
            false≢true (other_key o l os g.locals others (rw other at m))
              ((lawful _ _).1 ((lawful _ _).0 hit ∙ sym ((lawful _ _).0 hit_l))))
        | inr miss_l ↦ rw hit (other ∙ sym miss_l)
      ]
      | inr miss ↦ rw miss (first_with-IsKeyed lawful col os g l keyed (rw other at m))
    ]
  ]

  -- the foreign rows with the key of a local row, in the order in which they were read
  abbrev pub of_key : K → List (ℕ × K) → List ℕ
  of_key k rows = map (λ r. r.0) (filter (λ r. link.same_key k r.1) rows)

  attach-local_rel :
      (o : Option ℕ) (foreign : ℕ) (g : Graph M L F) (l : ℕ) (xs : List ℕ)
      → g.local_rel l ≡ some xs
      → (attach link o foreign g).local_rel l
        ≡ (if is_at o l then some (xs ++ foreign ∷ []) else some xs)
  attach-local_rel none foreign g l xs e = e
  attach-local_rel (some o) foreign g l xs e = elim (Bool-cases (o == l)) [
    | inl same ↦
        let e_o : g.local_rel o ≡ some xs = ap g.local_rel ((==_iff o l).0 same) ∙ e in
        rw (same, e_o) refl
    | inr other ↦ rw other e
  ]

  attach-locals :
      (o : Option ℕ) (foreign : ℕ) (g : Graph M L F) → (attach link o foreign g).locals ≡ g.locals
  attach-locals none foreign g = refl
  attach-locals (some o) foreign g = refl

  pub attach_each_lem :
      IsLawful
      → (os : List ℕ) (rows : List (ℕ × K)) (g : Graph M L F) (ls : ℕ → L) (l : ℕ) (xs : List ℕ)
      → g.locals ≡ ls
      → IsKeyed os ls
      → has l os ≡ true
      → g.local_rel l ≡ some xs
      → (attach_each link os rows g).local_rel l ≡ some (xs ++ of_key (link.local_key (ls l)) rows)
  unfolding attach_each
  attach_each_lem lawful os [] g ls l xs same keyed m e = rw (append-nil xs) e
  attach_each_lem lawful os ((foreign, col) ∷ rows) g ls l xs same keyed m e =
      let o = first_with link col os g in
      let leads : is_at o l ≡ link.same_key (link.local_key (ls l)) col =
        subst (λ t. is_at o l ≡ link.same_key (link.local_key (t l)) col) same
          (first_with-IsKeyed lawful col os g l (subst (IsKeyed os) (sym same) keyed) m) in
      let after = attach_each_lem lawful os rows (attach link o foreign g) ls l in
      let locals : (attach link o foreign g).locals ≡ ls = attach-locals o foreign g ∙ same in
      elim (Bool-cases (link.same_key (link.local_key (ls l)) col)) [
        | inl hit ↦
            let given : (attach link o foreign g).local_rel l ≡ some (xs ++ foreign ∷ []) =
              rw (leads, hit) at (attach-local_rel o foreign g l xs e) in
            rw (hit, sym (append_assoc xs (foreign ∷ []) (of_key (link.local_key (ls l)) rows)))
              (after (xs ++ foreign ∷ []) locals keyed m given)
        | inr miss ↦
            let kept : (attach link o foreign g).local_rel l ≡ some xs =
              rw (leads, miss) at (attach-local_rel o foreign g l xs e) in
            rw miss (after xs locals keyed m kept)
      ]
