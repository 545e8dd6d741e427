-- ===== src/Pg/Rows/Caches.antt =====
-- The caches of statements, and the keys under which they are stored: boil_types.go, and the blocks
-- `if !cached` of Insert, Update and Upsert.
pub mod Codes
pub mod Keys
pub mod Planned
use ethereum_fetcher.Prelude.{
  ℕ, suc, ◌+◌, String, Bool, true, false, not, ◌&&◌, ◌||◌, Option, none, some, List, [], ◌∷◌, ◌++◌,
  length, lookup, insert, join_texts, ◌==◌, if◌then◌else◌,
}
use ethereum_fetcher.Result.{Result, ok, err, panic, Error, text, and_then, ◌+++◌}
use ethereum_fetcher.Exec.{Exec}
use ethereum_fetcher.Pg.Upsert.{UpsertOptions, build_upsert_query_postgres}
use ethereum_fetcher.Pg.Rows.Boiler.{
  ColumnKind, no_columns, infer, whitelist, greylist, blacklist, Columns, Library, Table,
}

pub record InsertCache : Type 0 where
  pub query : String
  pub value_mapping : List ℕ
  pub ret_mapping : List ℕ

pub record UpdateCache : Type 0 where
  pub query : String
  pub value_mapping : List ℕ

-- `strconv.Itoa(cols.Kind)`
abbrev pub kind_text : ColumnKind → String
kind_text no_columns = "0"
kind_text infer = "1"
kind_text whitelist = "2"
kind_text greylist = "3"
kind_text blacklist = "4"

-- what the loops over names write to the buffer
abbrev pub concat_texts : List String → String
concat_texts [] = ""
concat_texts (s ∷ ss) = s +++ concat_texts ss

unfoldable pub make_cache_key : Columns → List String → String
make_cache_key cols nz_defaults =
    kind_text cols.kind
    +++ concat_texts cols.cols
    +++ (if length nz_defaults == 0 then "" else ".")
    +++ concat_texts nz_defaults

unfoldable pub make_upsert_key :
    Bool → List String → (update_columns insert_columns : Columns) → List String → String
make_upsert_key update_on_conflict conflict_columns update_columns insert_columns nz_defaults =
    (if update_on_conflict then "t" else "f")
    +++ "."
    +++ concat_texts conflict_columns
    +++ "."
    +++ kind_text update_columns.kind
    +++ concat_texts update_columns.cols
    +++ "."
    +++ kind_text insert_columns.kind
    +++ concat_texts insert_columns.cols
    +++ "."
    +++ concat_texts nz_defaults

-- What the cache has, or else what is made for it.
unfoldable pub cached_or {ℓ} : {C : Type ℓ} → Option C → Result C → Result C
cached_or (some cache) made = ok cache
cached_or none made = made

-- the write to the cache `if !cached`
unfoldable pub remember {ℓ} :
    {C : Type ℓ} → Option C → String → C → List (String × C) → List (String × C)
remember (some old) key cache caches = caches
remember none key cache caches = insert key cache caches

abbrev quoted_list : List String → String
quoted_list names = "\"" +++ join_texts "\",\"" names +++ "\""

module _ {O : Type 0} (lib : Library O) (table : Table) where
  -- the text of the statement that Insert runs
  pub insert_query : (wl return_columns : List String) (returns : ℕ) → String
  insert_query wl return_columns returns =
      "INSERT INTO \""
      +++ table.plural
      +++ "\" "
      +++ (if length wl == 0
          then "DEFAULT VALUES"
          else "(" +++ quoted_list wl +++ ") VALUES (" +++ lib.placeholders (length wl) 1 1 +++ ")")
      +++ (if returns == 0 then "" else " RETURNING " +++ quoted_list return_columns)

  unfoldable pub plan_insert : Columns → List String → Result InsertCache
  unfolding insert_query
  plan_insert columns nz_defaults =
      let (wl, return_columns) =
        lib.insert_column_set columns table.all_columns table.with_default table.without_default
          nz_defaults in
      and_then (lib.bind_mapping wl) λ value_mapping.
        and_then (lib.bind_mapping return_columns) λ ret_mapping. ok (record {
          query = insert_query wl return_columns (length ret_mapping);
          value_mapping = value_mapping;
          ret_mapping = ret_mapping;
        })

  pub is_whitelist : Columns → Bool
  is_whitelist columns = elim columns.kind [ whitelist ↦ true | _ ↦ false ]

  unfoldable pub plan_update : Columns → Result UpdateCache
  unfolding is_whitelist
  plan_update columns =
      let set = lib.update_column_set columns table.all_columns table.primary_key in
      let wl = if is_whitelist columns then set else lib.set_complement set ("created_at" ∷ []) in
      if length wl == 0
      then err
          (text ("models: unable to update " +++ table.plural +++ ", could not build whitelist"))
      else (and_then (lib.bind_mapping (wl ++ table.primary_key)) λ value_mapping. ok (record {
        query =
            "UPDATE \""
            +++ table.plural
            +++ "\" SET "
            +++ lib.set_param_names 1 wl
            +++ " WHERE "
            +++ lib.where_clause (length wl + 1) table.primary_key;
        value_mapping = value_mapping;
      }))

  -- `conflict`, after the default
  pub conflict_of : Bool → (conflict update : List String) → Result (List String)
  conflict_of update_on_conflict conflict update =
      if length conflict == 0 && (update_on_conflict && not (length update == 0))
      then (if length table.primary_key == 0
          then err (
              text (
                "models: unable to upsert " +++ table.plural
                +++ ", could not build conflict column list"))
          else ok table.primary_key)
      else ok conflict

  unfoldable pub plan_upsert :
      Bool
      → List String
      → (update_columns insert_columns : Columns) → UpsertOptions
      → List String
      → Result InsertCache
  unfolding conflict_of build_upsert_query_postgres
  plan_upsert update_on_conflict conflict_columns update_columns insert_columns opts nz_defaults =
      let insert =
        (lib.insert_column_set insert_columns table.all_columns table.with_default
          table.without_default nz_defaults).0 in
      let update = lib.update_column_set update_columns table.all_columns table.primary_key in
      let ret = lib.set_complement table.all_columns (lib.set_intersect insert update) in
      if update_on_conflict && length update == 0
      then err (
          text (
            "models: unable to upsert " +++ table.plural
            +++ ", could not build update column list"))
      else (and_then (conflict_of update_on_conflict conflict_columns update) λ conflict.
          and_then (lib.bind_mapping insert) λ value_mapping.
            and_then (if length ret == 0 then ok [] else lib.bind_mapping ret) λ ret_mapping.
              ok (record {
                query =
                    build_upsert_query_postgres lib.ident_quote (λ n. lib.placeholders n 1 1)
                      ("\"" +++ table.plural +++ "\"") update_on_conflict ret update conflict insert
                      opts;
                value_mapping = value_mapping;
                ret_mapping = ret_mapping;
              }))
