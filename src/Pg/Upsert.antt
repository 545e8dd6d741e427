-- ===== src/Pg/Upsert.antt =====
-- internal/store/pg/models/psql_upsert.go: the text of the statement that an upsert runs.
pub mod Columns
mod Tests
use ethereum_fetcher.Prelude.{
  ℕ, zero, suc, String, Bool, true, false, not, ◌||◌, List, [], ◌∷◌, map, length, join_texts,
  str_eq, ◌==◌, if◌then◌else◌,
}
use ethereum_fetcher.Result.{◌+++◌}

-- `UpsertOptions`, after the options have been applied
pub record UpsertOptions : Type 0 where
  pub conflict_target : String
  pub update_set : String

-- The functions of strmangle, at the dialect: quoting a name, and a number of placeholders from $1.
module _ (ident_quote : String → String) (placeholders : ℕ → String) where
  -- `quoted = EXCLUDED.quoted`
  pub assignment : String → String
  assignment v = ident_quote v +++ " = EXCLUDED." +++ ident_quote v

  -- the loop over `update`, from the index `i` on
  pub update_list : ℕ → List String → String
  unfolding assignment
  update_list i [] = ""
  update_list i (v ∷ vs) =
      let rest = update_list (suc i) vs in
      if str_eq v "" then rest else (if i == 0 then "" else ",") +++ assignment v +++ rest

  pub columns_of : List String → String
  columns_of [] = "DEFAULT VALUES"
  columns_of (c ∷ cs) =
      "("
      +++ join_texts ", " (map ident_quote (c ∷ cs))
      +++ ") VALUES ("
      +++ placeholders (length (c ∷ cs))
      +++ ")"

  pub target_of : UpsertOptions → List String → String
  target_of opts conflict =
      if not (str_eq opts.conflict_target "")
      then opts.conflict_target
      else elim conflict [ [] ↦ "" | cs ↦ "(" +++ join_texts ", " (map ident_quote cs) +++ ")" ]

  pub action_of : UpsertOptions → Bool → List String → String
  unfolding update_list
  action_of opts update_on_conflict update =
      if not update_on_conflict || length update == 0
      then "DO NOTHING"
      else "DO UPDATE SET "
        +++ (if not (str_eq opts.update_set "") then opts.update_set else update_list 0 update)

  pub returning : List String → String
  returning [] = ""
  returning (r ∷ ret) = " RETURNING " +++ join_texts ", " (map ident_quote (r ∷ ret))

  unfoldable pub build_upsert_query_postgres :
      String → Bool → (ret update conflict whitelist : List String) → UpsertOptions → String
  unfolding columns_of target_of action_of returning
  build_upsert_query_postgres table_name update_on_conflict ret update conflict whitelist opts =
      "INSERT INTO "
      +++ table_name
      +++ " "
      +++ columns_of whitelist
      +++ " ON CONFLICT "
      +++ target_of opts conflict
      +++ " "
      +++ action_of opts update_on_conflict update
      +++ returning ret
