-- ===== src/Pg/Relations.antt =====
-- internal/store/pg/models/transactions.go: `AddUsers`, which links a transaction to users.
use ethereum_fetcher.Prelude.{String, Bool, Option, none, some, List, [], ◌∷◌, ◌++◌, if◌then◌else◌}
use ethereum_fetcher.Result.{wrapped}
use ethereum_fetcher.Exec.{Exec, pure, annotate, ◌>>◌}
use ethereum_fetcher.Models.{User, Transaction}
use ethereum_fetcher.Pg.Database.{Database, Executor, text_value, int_value}

abbrev pub join_statement : String
join_statement = "insert into \"user_transactions\" (\"tx_hash\", \"user_id\") values ($1, $2)"

-- `o.R.Users` after the call
pub append_related : Option (List User) → List User → Option (List User)
append_related none related = some related
append_related (some users) related = some (users ++ related)

module _ {D : Type 0} (db : Database D) (exec : Executor) where
  -- the first loop, `if insert { rel.Insert(...) }`
  unfoldable pub insert_related : Bool → List User → Exec D (Unit {0})
  insert_related insert [] = pure tt
  insert_related insert (rel ∷ related) = do
    (if insert
        then annotate (wrapped "failed to insert into foreign table") (db.insert_user exec rel)
        else pure tt)
    insert_related insert related

  -- the second loop
  unfoldable pub link_related : Transaction → List User → Exec D (Unit {0})
  link_related o [] = pure tt
  link_related o (rel ∷ related) = do
    annotate (wrapped "failed to insert into join table")
        (db.exec exec join_statement (text_value o.tx_hash ∷ int_value rel.id ∷ []))
    link_related o related

  unfoldable pub add_users : Bool → Transaction → List User → Exec D Transaction
  unfolding insert_related link_related append_related
  add_users insert o related = do
    insert_related insert related
    link_related o related
    pure (record o { r = append_related o.r related })
