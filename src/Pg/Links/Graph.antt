-- ===== src/Pg/Links/Graph.antt =====
-- Rows behind pointers: what two pointers share is seen through both.
use ethereum_fetcher.Prelude.{ℕ, String, Bool, Option, none, some, List, ◌++◌, ◌==◌, if◌then◌else◌}
use ethereum_fetcher.Result.{Result}
use ethereum_fetcher.Exec.{Exec}
use ethereum_fetcher.Pg.Database.{Value}
use ethereum_fetcher.Pg.Rows.Boiler.{Mod}

-- A pointer is a number. `M` is the database and the caches behind it. `local_rel` is `o.R.Users`
-- of the transactions, or `o.R.TXHashTransactions` of the users, and `none` where `o.R` is nil;
-- `foreign_rel` is the other one. No two slices of relations share an array.
pub record Graph (M L F : Type 0) : Type 0 where
  pub models : M
  pub locals : ℕ → L
  pub foreigns : ℕ → F
  pub local_rel : ℕ → Option (List ℕ)
  pub foreign_rel : ℕ → Option (List ℕ)
  -- the next pointer that `new` gives
  pub next_foreign : ℕ

-- What an eager load reads: the rows with what `Scan` and then `Err` give, and `Close` and `Err`.
pub record Results (F K : Type 0) : Type 0 where
  pub entries : List (Result (F × K) × Result (Unit {0}))
  pub close : Result (Unit {0})
  pub final : Result (Unit {0})

-- The names, the keys (`K` is the type of the column that joins) and the calls of a relation.
pub record Link (M L F K : Type 0) : Type 0 where
  -- the type of the rows, as `%T` prints it
  pub local_type : String
  pub local_column : String
  pub foreign_column : String
  pub foreign_plural : String
  pub local_key : L → K
  pub same_key : K → K → Bool
  pub key_value : K → Value
  pub foreign_value : F → Value
  -- `rel.Insert(ctx, exec, boil.Infer())`, and the hooks of a foreign row after a select
  pub insert_foreign : Exec (M × F) (Unit {0})
  pub has_select_hooks : Bool
  pub run_select_hooks : Exec (M × F) (Unit {0})
  -- `exec.ExecContext` and `strmangle.Placeholders`
  pub exec_context : String → List Value → Exec M (Unit {0})
  pub placeholders : (count start group : ℕ) → String
  -- the query of an eager load: its columns, its join, and its rows
  pub load_columns : String
  pub load_join : String
  pub query_context : List Mod → Exec M (Results F K)
  -- the order in which `range` meets the keys of a map
  pub map_order : List K → List K

-- `f` with `a` at one pointer
abbrev pub assign {ℓ} : {A : Type ℓ} → ℕ → A → (ℕ → A) → ℕ → A
assign p a f q = if p == q then a else f q

module _ {M L F A : Type 0} where
  abbrev pub on_models : Exec M A → Exec (Graph M L F) A
  on_models m g = let (r, s) = m g.models in (r, record g { models = s })

  -- a method of a foreign row
  abbrev pub on_foreign : ℕ → Exec (M × F) A → Exec (Graph M L F) A
  on_foreign p m g =
      let (r, (s, o)) = m (g.models, g.foreigns p) in
      (r, record g { models = s; foreigns = assign p o g.foreigns })

-- `x.R = &R{{y}}` or `x.R.Ys = append(x.R.Ys, y)`
abbrev pub append_rel : List ℕ → Option (List ℕ) → Option (List ℕ)
append_rel ys none = some ys
append_rel ys (some xs) = some (xs ++ ys)
