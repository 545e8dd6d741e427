-- ===== src/Pg/Rows/Caches/Planned.antt =====
-- What Upsert makes for a request.
use ethereum_fetcher.Prelude.{
  ℕ, [], String, ◌≡◌, refl, sym, ap, ◌∙◌, Bool, true, false, List, length, ◌==◌, if◌then◌else◌,
}
use ethereum_fetcher.Result.{Result, ok, err, panic, Error, and_then, ◌+++◌}
use ethereum_fetcher.Pg.Upsert.{UpsertOptions, build_upsert_query_postgres}
use ethereum_fetcher.Pg.Rows.Boiler.{Columns, Library, Table}
use ethereum_fetcher.Pg.Rows.Caches.{InsertCache, conflict_of, plan_upsert}

and_then-eq-ok :
    {A B : Type 0} (r : Result A) (f : A → Result B) {b : B}
    → and_then r f ≡ ok b
    → (a : A) × (r ≡ ok a) × (f a ≡ ok b)
unfolding and_then
and_then-eq-ok (ok a) f h = (a, refl, h)
and_then-eq-ok (err e) f h = cc
and_then-eq-ok panic f h = cc

-- a test that fails where it holds
else_ok :
    {A : Type 0} (b : Bool) (failure : Error) (r : Result A) {a : A}
    → (if b then err failure else r) ≡ ok a
    → r ≡ ok a
else_ok true failure r e = cc
else_ok false failure r e = e

no_failure :
    {A : Type 0} (b : Bool) (failure : Error) (r : Result A) {a : A}
    → (if b then err failure else r) ≡ ok a
    → b ≡ false
no_failure true failure r e = cc
no_failure false failure r e = refl

then_nothing :
    (b : Bool) (r : Result (List ℕ)) {back : List ℕ}
    → (if b then ok [] else r) ≡ ok back
    → b ≡ true
    → back ≡ []
then_nothing true r e h = cc
then_nothing false r e h = cc

ok-injective : {A : Type 0} {a b : A} → ok a ≡ ok b → a ≡ b
ok-injective e = cc

module _ {O : Type 0} (lib : Library O) (table : Table) (columns : List String)
    (update_columns insert_columns : Columns) (opts : UpsertOptions) where
  -- the columns that are inserted
  abbrev pub inserted : List String → List String
  inserted nz =
      (lib.insert_column_set insert_columns table.all_columns table.with_default
        table.without_default nz).0

  abbrev text_on : (conflict ret update insert : List String) → String
  text_on conflict ret update insert =
      build_upsert_query_postgres lib.ident_quote (λ n. lib.placeholders n 1 1)
        ("\"" +++ table.plural +++ "\"") true ret update conflict insert opts

  abbrev pub text_of : (ret update insert : List String) → String
  text_of = text_on columns

  -- conflict columns that are given are taken
  conflict_of_given :
      (update : List String)
      → (length columns == 0) ≡ false
      → conflict_of lib table true columns update ≡ ok columns
  unfolding conflict_of
  conflict_of_given update some_column = rw (some_column, conflict_of) refl

  -- A plan of an update on a conflict inserts and updates what the library gives, and reads the
  -- values of the inserted columns. It reads nothing back where no column is
  -- returned, and some column is updated.
  pub plan_upsert-eq-ok :
      (nz : List String) (cache : InsertCache)
      → (length columns == 0) ≡ false
      → plan_upsert lib table true columns update_columns insert_columns opts nz ≡ ok cache
      → (ret : List String) × (update : List String) × (cache.query
          ≡ text_of ret update (inserted nz))
        × (lib.bind_mapping (inserted nz) ≡ ok cache.value_mapping)
        × ((length ret == 0) ≡ true → cache.ret_mapping ≡ [])
        × ((length update == 0) ≡ false)
  unfolding plan_upsert conflict_of build_upsert_query_postgres
  plan_upsert-eq-ok nz cache some_column e =
      let update = lib.update_column_set update_columns table.all_columns table.primary_key in
      let ret = lib.set_complement table.all_columns (lib.set_intersect (inserted nz) update) in
      let (conflict, same, planned) = and_then-eq-ok _ _ (else_ok _ _ _ e) in
      let (values, mapped, planned') = and_then-eq-ok _ _ planned in
      let (back, returned, planned'') = and_then-eq-ok _ _ planned' in
      let made : InsertCache = record {
        query = text_on conflict ret update (inserted nz);
        value_mapping = values;
        ret_mapping = back;
      } in
      let is_it = ok-injective {a = made} planned'' in
      let given = ok-injective (sym same ∙ conflict_of_given update some_column) in
      (
        ret,
        update,
        sym (ap (λ c. c.query) is_it) ∙ ap (λ cs. text_on cs ret update (inserted nz)) given,
        mapped ∙ ap (λ c. ok c.value_mapping) is_it,
        λ nothing. sym (ap (λ c. c.ret_mapping) is_it) ∙ then_nothing _ _ returned nothing,
        no_failure _ _ _ e,
      )
