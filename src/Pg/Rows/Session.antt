-- ===== src/Pg/Rows/Session.antt =====
-- The state that the generated code works on, and its steps on the parts of it.
use ethereum_fetcher.Prelude.{String, List, [], ◌∷◌}
use ethereum_fetcher.Result.{Result, ok, err, panic}
use ethereum_fetcher.Exec.{Exec, pure, ◌>>=◌}
use ethereum_fetcher.Pg.Rows.Caches.{InsertCache, UpdateCache}

-- The database and the three caches of a table, which are global variables.
pub record Models (D : Type 0) : Type 0 where
  pub db : D
  pub insert_cache : List (String × InsertCache)
  pub update_cache : List (String × UpdateCache)
  pub upsert_cache : List (String × InsertCache)

abbrev pub lift : {S A : Type 0} → Result A → Exec S A
lift r s = (r, s)

module _ {D A : Type 0} where
  abbrev pub on_db : Exec D A → Exec (Models D) A
  on_db m s = let (r, d) = m s.db in (r, record s { db = d })

module _ {M O A : Type 0} where
  -- a call that leaves the row alone
  abbrev pub on_models : Exec M A → Exec (M × O) A
  on_models m (s, o) = let (r, s') = m s in (r, (s', o))

module _ {D O A : Type 0} where
  -- a call that works on the database and on the row
  abbrev pub on_row : Exec (D × O) A → Exec (Models D × O) A
  on_row m (s, o) = let (r, (d, o')) = m (s.db, o) in (r, (record s { db = d }, o'))

abbrev pub reply : {O : Type 0} → Result (Unit {0}) → O → Result O
reply (ok x) o = ok o
reply (err e) o = err e
reply panic o = panic

module _ {M O : Type 0} where
  -- a method of a row, on a row that is at hand
  unfoldable pub with_row : Exec (M × O) (Unit {0}) → O → Exec M O
  with_row m o s = let (r, (s', o')) = m (s, o) in (reply r o', s')

  -- a loop that calls a method on each row
  unfoldable pub each_row : (O → Exec M O) → List O → Exec M (List O)
  each_row f [] = pure []
  each_row f (o ∷ os) = do o' ← f o; os' ← each_row f os; pure (o' ∷ os')
