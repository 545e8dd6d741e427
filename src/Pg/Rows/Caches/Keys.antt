-- ===== src/Pg/Rows/Caches/Keys.antt =====
-- What the keys of the caches of Insert and Update tell apart.
use text.Mathlib.TextEquality.{eq_iff}
use ethereum_fetcher.Prelude.{
  ℕ, suc, String, ◌≡◌, refl, sym, ap, ◌∙◌, Bool, true, false, not, List, [], ◌∷◌, ◌++◌, length,
  contains, All, All-map, All-append, arith, str_eq, ◌==◌, if◌then◌else◌,
}
use ethereum_fetcher.Result.{◌+++◌}
use ethereum_fetcher.Pg.Rows.Boiler.{
  ColumnKind, no_columns, infer, whitelist, greylist, blacklist, Columns,
}
use ethereum_fetcher.Pg.Rows.Caches.{kind_text, concat_texts, make_cache_key}
use ethereum_fetcher.Pg.Rows.Caches.Codes.{is_code, concat_texts-injective, concat_texts-append}

-- the part of a key after the columns, as names
abbrev dotted : List String → List String
dotted [] = []
dotted (n ∷ ns) = "." ∷ n ∷ ns

abbrev tokens : Columns → List String → List String
tokens cols nz = kind_text cols.kind ∷ cols.cols ++ dotted nz

concat_texts-dotted :
    (nz : List String)
    → concat_texts (dotted nz) ≡ (if length nz == 0 then "" else ".") +++ concat_texts nz
concat_texts-dotted [] = refl
concat_texts-dotted (n ∷ ns) = rw (nonzero (length ns)) refl
  where
    nonzero : (k : ℕ) → (suc k == 0) ≡ false
    nonzero k = ground arith

make_cache_key_lem :
    (cols : Columns) (nz : List String) → make_cache_key cols nz ≡ concat_texts (tokens cols nz)
unfolding make_cache_key
make_cache_key_lem cols nz =
    ap (λ s. kind_text cols.kind +++ s)
      (ap (λ s. concat_texts cols.cols +++ s) (sym (concat_texts-dotted nz))
        ∙ sym (concat_texts-append cols.cols (dotted nz)))

abbrev not_dot : String → Bool
not_dot s = not (str_eq "." s)

-- What stands before the first dot and after it is determined.
split_dotted :
    (xs ys ns ms : List String)
    → All (λ x. not_dot x ≡ true) xs
    → All (λ x. not_dot x ≡ true) ys
    → xs ++ dotted ns ≡ ys ++ dotted ms
    → (xs ≡ ys) × (ns ≡ ms)
split_dotted [] [] [] [] hx hy e = (refl, refl)
split_dotted [] [] [] (m ∷ ms) hx hy e = cc
split_dotted [] [] (n ∷ ns) [] hx hy e = cc
split_dotted [] [] (n ∷ ns) (m ∷ ms) hx hy e = (refl, cc)
split_dotted [] (y ∷ ys) [] ms hx hy e = cc
split_dotted [] (y ∷ ys) (n ∷ ns) ms hx (h, hy) e =
    let dot : "." ≡ y = cc in absurd (ground (arith, eq_iff "." y))
split_dotted (x ∷ xs) [] ns [] hx hy e = cc
split_dotted (x ∷ xs) [] ns (m ∷ ms) (h, hx) hy e =
    let dot : "." ≡ x = cc in absurd (ground (arith, eq_iff "." x))
split_dotted (x ∷ xs) (y ∷ ys) ns ms (h, hx) (k, hy) e =
    let same : x ≡ y = cc in let (p, q) = split_dotted xs ys ns ms hx hy (cc) in (cc, q)

-- The names that a key is made of: the kinds, the dot, and the columns of the table.
abbrev pub alphabet : List String → List String
alphabet columns = "0" ∷ "1" ∷ "2" ∷ "3" ∷ "4" ∷ "." ∷ columns

kind_text-injective : (k l : ColumnKind) → kind_text k ≡ kind_text l → k ≡ l
kind_text-injective k l e = sym (back k) ∙ ap kind_of e ∙ back l
  where
    kind_of : String → ColumnKind
    kind_of s =
        if str_eq s "0"
        then no_columns
        else if str_eq s "1"
        then infer
        else if str_eq s "2"
        then whitelist
        else if str_eq s "3"
        then greylist
        else blacklist

    back : (k : ColumnKind) → kind_of (kind_text k) ≡ k
    back no_columns = refl
    back infer = refl
    back whitelist = refl
    back greylist = refl
    back blacklist = refl

kind_text-alphabet :
    (columns : List String) (k : ColumnKind) → contains (kind_text k) (alphabet columns) ≡ true
kind_text-alphabet columns no_columns = refl
kind_text-alphabet columns infer = refl
kind_text-alphabet columns whitelist = refl
kind_text-alphabet columns greylist = refl
kind_text-alphabet columns blacklist = refl

-- The names are columns of the table, and none is a dot.
abbrev pub AreColumns : List String → List String → Type 0
AreColumns columns names = All (λ x. (contains x columns ≡ true) × (not_dot x ≡ true)) names

module _ (columns : List String) where
  AreColumns-alphabet :
      (names : List String)
      → AreColumns columns names
      → All (λ x. contains x (alphabet columns) ≡ true) names
  AreColumns-alphabet names =
      All-map (λ x. (contains x columns ≡ true) × (not_dot x ≡ true))
        (λ x. contains x (alphabet columns) ≡ true) (λ x h. ground arith) names

  AreColumns-not_dot :
      (names : List String) → AreColumns columns names → All (λ x. not_dot x ≡ true) names
  AreColumns-not_dot names = All-map _ _ (λ x h. h.1) names

  dotted-alphabet :
      (names : List String)
      → AreColumns columns names
      → All (λ x. contains x (alphabet columns) ≡ true) (dotted names)
  dotted-alphabet [] h = tt
  dotted-alphabet (n ∷ ns) h = (refl, AreColumns-alphabet (n ∷ ns) h)

  -- When no name among the kinds, the dot and the columns of a table is the beginning of another,
  -- two requests with columns of that table that have the same cache key have the same kind, the
  -- same columns in the same order, and the same defaults.
  pub make_cache_key-injective :
      is_code (alphabet columns) ≡ true
      → (cols cols' : Columns) (nz nz' : List String) → AreColumns columns cols.cols
      → AreColumns columns cols'.cols
      → AreColumns columns nz
      → AreColumns columns nz'
      → make_cache_key cols nz ≡ make_cache_key cols' nz'
      → (cols ≡ cols') × (nz ≡ nz')
  make_cache_key-injective code cols cols' nz nz' hc hc' hn hn' e =
      let spelled =
        concat_texts-injective (alphabet columns) code (tokens cols nz) (tokens cols' nz')
          (
            kind_text-alphabet columns cols.kind,
            All-append _ cols.cols (dotted nz) (AreColumns-alphabet cols.cols hc)
                (dotted-alphabet nz hn),
          )
          (
            kind_text-alphabet columns cols'.kind,
            All-append _ cols'.cols (dotted nz') (AreColumns-alphabet cols'.cols hc')
                (dotted-alphabet nz' hn'),
          )
          (sym (make_cache_key_lem cols nz) ∙ e ∙ make_cache_key_lem cols' nz') in
      let kinds = kind_text-injective cols.kind cols'.kind (cc) in
      let (names, defaults) =
        split_dotted cols.cols cols'.cols nz nz' (AreColumns-not_dot cols.cols hc)
          (AreColumns-not_dot cols'.cols hc') (cc) in
      ((λ i. record { kind = kinds i; cols = names i }), defaults)
