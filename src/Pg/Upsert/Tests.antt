-- ===== src/Pg/Upsert/Tests.antt =====
-- Statements of upserts.
use ethereum_fetcher.Prelude.{ℕ, String, ◌≡◌, refl, true, [], ◌∷◌}
use ethereum_fetcher.Result.{◌+++◌}
use ethereum_fetcher.Pg.Upsert.{update_list, build_upsert_query_postgres}

abbrev quoted : String → String
quoted s = "\"" +++ s +++ "\""

abbrev dollars : ℕ → String
dollars n = "$1,$2"

statement :
    build_upsert_query_postgres quoted dollars "users" true []
      ("name" ∷ [])
      ("id" ∷ [])
      ("id" ∷ "name" ∷ [])
      (record { conflict_target = ""; update_set = "" })
    ≡ "INSERT INTO users (\"id\", \"name\") VALUES ($1,$2) ON CONFLICT (\"id\") DO UPDATE SET \"name\" = EXCLUDED.\"name\""
unfolding build_upsert_query_postgres
statement = refl

-- A first column without a name leaves a comma at the front.
stray_comma : update_list quoted dollars 0 ("" ∷ "a" ∷ []) ≡ ",\"a\" = EXCLUDED.\"a\""
unfolding update_list
stray_comma = refl
