-- ===== src/Pg/Rows/Caches/Codes.antt =====
-- Names that can be written one after the other and read again.
use Prim.Native.Char.{Char}
use Prim.Native.String.{String as Text}
use text.Mathlib.Text.{starts_with}
use text.Mathlib.TextEquality.{eq_iff, starts_with_iff}
use text.Mathlib.TextLemmas.{
  append_assoc, append_cancel_left, nil-append, cons-append, head-eq_of_cons-eq, tail-eq_of_cons-eq,
  cons≢nil, prefix-append,
}
use ethereum_fetcher.Prelude.{
  String, ◌≡◌, ◌≢◌, refl, sym, ap, ◌∙◌, ◌⊎◌, inl, inr, Bool, true, false, not, ◌&&◌, ◌||◌, List, [],
  ◌∷◌, ◌++◌, contains, All, arith, str_eq,
}
use ethereum_fetcher.Result.{◌+++◌}
use ethereum_fetcher.Pg.Rows.Caches.{concat_texts}

abbrev all : (String → Bool) → List String → Bool
all p [] = true
all p (s ∷ ss) = p s && all p ss

all-contains :
    (p : String → Bool) (s : String) (ss : List String)
    → all p ss ≡ true
    → contains s ss ≡ true
    → p s ≡ true
all-contains p s (t ∷ ss) h c = ground (arith, eq_iff t s, all-contains p s ss)
all-contains p s [] h c = cc

-- No name is empty, and none is the beginning of another.
abbrev pub is_code : List String → Bool
is_code names =
    all (λ a. not (str_eq a "") && all (λ b. not (starts_with b a) || str_eq a b) names) names

char_path : {c d : Char} {s t : String} → c ≡ d → s ≡ t → Text.◌∷◌ c s ≡ Text.◌∷◌ d t
char_path p q i = Text.◌∷◌ (p i) (q i)

-- Of two beginnings of a text, one is the beginning of the other.
comparable :
    (a b s t : String)
    → a +++ s ≡ b +++ t
    → ((u : String) × (b ≡ a +++ u)) ⊎ ((u : String) × (a ≡ b +++ u))
comparable Text.[] b s t e = inl (b, sym (nil-append b))
comparable (Text.◌∷◌ c a) Text.[] s t e = inr (Text.◌∷◌ c a, sym (nil-append (Text.◌∷◌ c a)))
comparable (Text.◌∷◌ c a) (Text.◌∷◌ d b) s t e =
    let e' = sym (cons-append c a s) ∙ e ∙ cons-append d b t in
    let same = head-eq_of_cons-eq e' in
    elim (comparable a b s t (tail-eq_of_cons-eq e')) [
      | inl (u, h) ↦ inl (u, char_path (sym same) h ∙ sym (cons-append c a u))
      | inr (u, h) ↦ inr (u, char_path same h ∙ sym (cons-append d b u))
    ]

starts_with-append : (a u : String) → starts_with (a +++ u) a ≡ true
starts_with-append a u = (starts_with_iff (a +++ u) a).1 (prefix-append a u)

module _ (names : List String) (code : is_code names ≡ true) where
  eq_of_prefix :
      (a b u : String) → contains a names ≡ true → contains b names ≡ true → b ≡ a +++ u → a ≡ b
  eq_of_prefix a b u ha hb e =
      let at_a = all-contains _ a names code ha in
      let at_b =
        all-contains (λ b. not (starts_with b a) || str_eq a b) b names (ground arith) hb in
      let begins : starts_with b a ≡ true = rw e (starts_with-append a u) in
      (eq_iff a b).0 (ground arith)

  -- The first name of a text is determined.
  head_of_concat :
      (a b s t : String)
      → contains a names ≡ true
      → contains b names ≡ true
      → a +++ s ≡ b +++ t
      → (a ≡ b) × (s ≡ t)
  head_of_concat a b s t ha hb e =
      let same : a ≡ b = elim (comparable a b s t e) [
        | inl (u, h) ↦ eq_of_prefix a b u ha hb h
        | inr (u, h) ↦ sym (eq_of_prefix b a u hb ha h)
      ] in
      (same, append_cancel_left a s t (e ∙ rw same refl))

  not_blank : (a : String) → contains a names ≡ true → str_eq a "" ≡ false
  not_blank a ha = let at_a = all-contains _ a names code ha in ground arith

  append-ne-empty : (a s : String) → contains a names ≡ true → a +++ s ≢ ""
  append-ne-empty Text.[] s ha e = cc (not_blank "" ha)
  append-ne-empty (Text.◌∷◌ c a) s ha e = cons≢nil (sym (cons-append c a s) ∙ e)

  pub concat_texts-injective :
      (xs ys : List String)
      → All (λ x. contains x names ≡ true) xs
      → All (λ x. contains x names ≡ true) ys
      → concat_texts xs ≡ concat_texts ys
      → xs ≡ ys
  concat_texts-injective [] [] hx hy e = refl
  concat_texts-injective [] (y ∷ ys) hx (h, hy) e =
      absurd (append-ne-empty y (concat_texts ys) h (sym e))
  concat_texts-injective (x ∷ xs) [] (h, hx) hy e = absurd (append-ne-empty x (concat_texts xs) h e)
  concat_texts-injective (x ∷ xs) (y ∷ ys) (h, hx) (k, hy) e =
      let (same, rest) = head_of_concat x y (concat_texts xs) (concat_texts ys) h k e in
      let tails = concat_texts-injective xs ys hx hy rest in cc

pub concat_texts-append :
    (xs ys : List String) → concat_texts (xs ++ ys) ≡ concat_texts xs +++ concat_texts ys
concat_texts-append [] ys = sym (nil-append (concat_texts ys))
concat_texts-append (x ∷ xs) ys =
    ap (λ s. x +++ s) (concat_texts-append xs ys)
    ∙ sym (append_assoc x (concat_texts xs) (concat_texts ys))
