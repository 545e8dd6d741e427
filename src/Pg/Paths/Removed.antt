-- ===== src/Pg/Paths/Removed.antt =====
-- What is removed of the current directory.
use mathlib.Core.List.{append_assoc}
use ethereum_fetcher.Prelude.{
  ℕ, zero, suc, ◌+◌, ◌-◌, ◌≤◌, ◌<◌, ◌≡◌, sym, ap, subst, ◌∙◌, inl, inr, String, pos, true, false,
  some, List, [], ◌∷◌, ◌++◌, length, length-append, take, drop, get_elem?, get_elem?-take,
  get_elem?-drop, get_elem?-some, get_elem?-append_left, drop-append, take-append, length-drop,
  false≢true, All, contains, arith, eq_iff, ltb, Bool-cases,
}
use ethereum_fetcher.Pg.Overlap.{find_longest_overlap}
use ethereum_fetcher.Pg.Overlap.Longest.{Agree, find_longest_overlap-longest}
use ethereum_fetcher.Pg.Paths.{split_path, join_path, join, build, remove_overlap}

-- No component of the one path is one of the other.
abbrev pub AreApart : List String → List String → Type 0
AreApart rel xs = All (λ x. contains x rel ≡ false) xs

contains-get_elem? :
    (i : ℕ) (xs : List String) (x : String) → get_elem? xs i ≡ some x → contains x xs ≡ true
contains-get_elem? i [] x e = cc
contains-get_elem? zero (y ∷ xs) x e = ground (arith, eq_iff y x)
contains-get_elem? (suc i) (y ∷ xs) x e = ground (arith, contains-get_elem? i xs x)

get_elem?-AreApart :
    (rel xs : List String) (i : ℕ) (x : String)
    → AreApart rel xs
    → get_elem? xs i ≡ some x
    → contains x rel ≡ false
get_elem?-AreApart rel [] i x h e = cc
get_elem?-AreApart rel (y ∷ xs) zero x (here, h) e = subst (λ z. contains z rel ≡ false) (cc) here
get_elem?-AreApart rel (y ∷ xs) (suc i) x (here, h) e = get_elem?-AreApart rel xs i x h e

-- each component of a common run is one of both paths
Agree-contains :
    (cur rel : List String) (i j k m : ℕ) (x : String)
    → Agree cur rel i j k
    → m < k
    → get_elem? cur (i + m) ≡ some x
    → contains x rel ≡ true
Agree-contains cur rel i j k m x (same, h, h') less e = contains-get_elem? (j + m) rel x (
    sym (get_elem?-drop j m rel)
    ∙ sym (get_elem?-take k m (drop j rel) less)
    ∙ ap (λ zs. get_elem? zs m) (sym same)
    ∙ get_elem?-take k m (drop i cur) less
    ∙ get_elem?-drop i m cur
    ∙ e)

module _ (base run rest pre post rel : List String) (is_rel : rel ≡ pre ++ run ++ post)
    (some_run : 0 < length run) (base_apart : AreApart rel base)
    (rest_apart : AreApart rel rest) where
  abbrev cur : List String
  cur = base ++ run ++ rest

  length-cur : length cur ≡ length base + length run + length rest
  length-cur = omega (arith, length-append (base ++ run) rest, length-append base run)

  get_elem?-base : (i : ℕ) → i < length base → get_elem? cur i ≡ get_elem? base i
  get_elem?-base i h =
      rw (append_assoc base run rest) (get_elem?-append_left base (run ++ rest) i h)

  get_elem?-rest : (n : ℕ) → get_elem? cur (length base + length run + n) ≡ get_elem? rest n
  get_elem?-rest n =
      let both : length (base ++ run) ≡ length base + length run = length-append base run in
      sym (get_elem?-drop (length base + length run) n cur)
      ∙ ap (λ zs. get_elem? zs n) (rw both at (drop-append (base ++ run) rest))

  run_agrees : Agree cur rel (length base) (length pre) (length run)
  run_agrees =
      let there : drop (length base) cur ≡ run ++ rest =
        rw (append_assoc base run rest) (drop-append base (run ++ rest)) in
      let here : drop (length pre) rel ≡ run ++ post =
        rw (is_rel, append_assoc pre run post) (drop-append pre (run ++ post)) in
      rw (there, here)
        (
          take-append run rest ∙ sym (take-append run post),
          omega (arith, length-append run rest),
          omega (arith, length-append run post),
        )

  not_before : (i j k : ℕ) → Agree cur rel i j k → 0 < k → i < length base → ⊥
  not_before i j k agree some_k h =
      let (x, at_i) = get_elem?-some i base h in
      let here : get_elem? cur (i + 0) ≡ some x =
        let none_added : i + 0 ≡ i = omega arith in rw none_added (get_elem?-base i h ∙ at_i) in
      false≢true (get_elem?-AreApart rel base i x base_apart at_i)
        (Agree-contains cur rel i j k 0 x agree some_k here)

  not_after : (i j m n : ℕ) → Agree cur rel i j (suc m) → i + m ≡ length base + length run + n → ⊥
  not_after i j m n agree e =
      let (same, h, h') = agree in
      let whole : i + length (drop i cur) ≡ length cur = length-drop i cur (omega arith) in
      let (x, at_n) = get_elem?-some n rest (omega (arith, length-cur)) in
      false≢true (get_elem?-AreApart rel rest n x rest_apart at_n) (
        Agree-contains cur rel i j (suc m) m x agree (omega arith) (rw e (get_elem?-rest n ∙ at_n)))

  -- A common run that is as long as this one is where this one is.
  same_run :
      (i j k : ℕ)
      → Agree cur rel i j k
      → 0 < k
      → length run ≤ k
      → (i ≡ length base) × (k ≡ length run)
  same_run i j zero agree some_k h = absurd (omega arith)
  same_run i j (suc m) agree some_k h = elim (Bool-cases (ltb i (length base))) [
    | inl before ↦ absurd (not_before i j (suc m) agree some_k (ground arith))
    | inr from ↦ elim (Bool-cases (ltb (i + m) (length base + length run))) [
      | inl inside ↦ (ground arith, ground arith)
      | inr after ↦
          absurd (not_after i j m (i + m - (length base + length run)) agree (ground arith))
    ]
  ]

  found_run : find_longest_overlap cur rel ≡ (pos (length base), pos (length base + length run))
  found_run = elim (find_longest_overlap-longest cur rel) [
    | inl (missed, bound) ↦ absurd (
        let none_longer : length run ≤ 0 =
          bound (length base) (length pre) (length run) run_agrees in
        omega arith)
    | inr (i, j, k, some_k, found, agree, bound) ↦
        let longer : length run ≤ k = bound (length base) (length pre) (length run) run_agrees in
        let (at_base, as_long) = same_run i j k agree some_k longer in
        found ∙ λ t. (pos (at_base t), pos (at_base t + as_long t))
  ]

-- When the current directory's components are some that the path of the migrations has none of,
-- then a run of that path, and then again some that it has none of, that run is left out, and the
-- path of the migrations comes after the rest.
pub remove_overlap_lem :
    (cur_dir rel_dir : String) (base run rest pre post : List String)
    → split_path cur_dir ≡ base ++ run ++ rest
    → split_path rel_dir ≡ pre ++ run ++ post
    → 0 < length run
    → AreApart (split_path rel_dir) base
    → AreApart (split_path rel_dir) rest
    → remove_overlap cur_dir rel_dir ≡ join_path (base ++ rest ++ rel_dir ∷ [])
unfolding remove_overlap
remove_overlap_lem cur_dir rel_dir base run rest pre post e e' h hb hr =
    let both : length (base ++ run) ≡ length base + length run = length-append base run in
    let at : find_longest_overlap (split_path cur_dir) (split_path rel_dir)
        ≡ (pos (length base), pos (length base + length run)) =
      rw e (found_run base run rest pre post (split_path rel_dir) e' h hb hr) in
    let front : take (length base) (split_path cur_dir) ≡ base =
      rw (e, append_assoc base run rest) (take-append base (run ++ rest)) in
    let back : drop (length base + length run) (split_path cur_dir) ≡ rest =
      rw (e, sym both) (drop-append (base ++ run) rest) in
    ap (λ p. build p (split_path cur_dir) cur_dir rel_dir) at ∙ λ t.
    join_path (front t ++ back t ++ rel_dir ∷ [])

-- When the current directory shares no component with the path of the migrations, that path is
-- joined to it.
pub remove_overlap-AreApart :
    (cur_dir rel_dir : String)
    → AreApart (split_path rel_dir) (split_path cur_dir)
    → remove_overlap cur_dir rel_dir ≡ join (cur_dir ∷ rel_dir ∷ [])
unfolding remove_overlap
remove_overlap-AreApart cur_dir rel_dir apart =
    let parts = split_path cur_dir in
    elim (find_longest_overlap-longest parts (split_path rel_dir)) [
      | inl (missed, bound) ↦ ap (λ p. build p parts cur_dir rel_dir) missed
      | inr (i, j, k, some_k, found, agree, bound) ↦
          let (same, h, h') = agree in
          let whole : i + length (drop i parts) ≡ length parts =
            length-drop i parts (omega arith) in
          let (x, at_i) = get_elem?-some i parts (omega arith) in
          let none_added : i + 0 ≡ i = omega arith in
          absurd (
            false≢true (get_elem?-AreApart (split_path rel_dir) parts i x apart at_i) (
              Agree-contains parts (split_path rel_dir) i j k 0 x agree some_k
                (rw none_added at_i)))
    ]
