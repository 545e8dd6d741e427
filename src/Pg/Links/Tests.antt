-- ===== src/Pg/Links/Tests.antt =====
-- Two transactions and three users, behind a driver that logs its statements, newest first.
use ethereum_fetcher.Prelude.{
  ℕ, String, ℤ, pos, ◌≡◌, refl, Bool, true, false, none, some, List, [], ◌∷◌, ◌==◌, str_eq,
  if◌then◌else◌,
}
use ethereum_fetcher.Result.{ok, err, text}
use ethereum_fetcher.Exec.{annotate, ◌>>=◌}
use ethereum_fetcher.Pg.Database.{text_value, int_value}
use ethereum_fetcher.Pg.Links.Graph.{Graph, Link}
use ethereum_fetcher.Pg.Links.Related.{set_related}
use ethereum_fetcher.Pg.Links.Related.Replaced.{Replaced, set_related_lem}
use ethereum_fetcher.Pg.Links.Loading.Given.{Reflected, eager_load}

abbrev is_two : ℕ → Bool
is_two x = x == 2

abbrev some_rows : List ℕ
some_rows = 1 ∷ 2 ∷ 3 ∷ 4 ∷ []

abbrev Log : Type 0
Log = List String

abbrev logging : Link Log String ℤ String
logging = record {
  local_type = "models.Transaction";
  local_column = "tx_hash";
  foreign_column = "user_id";
  foreign_plural = "users";
  local_key = λ o. o;
  same_key = str_eq;
  key_value = text_value;
  foreign_value = int_value;
  insert_foreign = λ (d, rel). (ok tt, ("insert" ∷ d, rel));
  has_select_hooks = false;
  run_select_hooks = λ s. (ok tt, s);
  exec_context = λ statement values d. (ok tt, statement ∷ d);
  placeholders = λ count start group. "$2";
  load_columns = "*";
  load_join = "\"user_transactions\" as \"a\"";
  query_context = λ mods d. (
    ok (record {
      entries =
          (ok (pos 7, "0xb"), ok tt) ∷ (ok (pos 8, "0xa"), ok tt) ∷ (ok (pos 9, "0xb"), ok tt) ∷ [];
      close = ok tt;
      final = ok tt;
    }),
    d,
  );
  map_order = λ keys. keys;
}

-- The users 1 and 2 have the transaction 0, and the user 2 has it as the last of three.
abbrev before : Graph Log String ℤ
before = record {
  models = [];
  locals = λ p. if p == 0 then "0xa" else if p == 1 then "0xb" else "0xc";
  foreigns = λ p. pos p;
  local_rel = λ p. if p == 0 then some (1 ∷ 2 ∷ []) else none;
  foreign_rel =
      λ p. if p == 1 then some (0 ∷ []) else if p == 2 then some (1 ∷ 2 ∷ 0 ∷ []) else none;
  next_foreign = 5;
}

set_related_lem_example :
    Replaced logging 0 (2 ∷ 3 ∷ []) before (set_related logging true 0 (2 ∷ 3 ∷ []) before).1
unfolding set_related ◌>>=◌ annotate
set_related_lem_example =
    set_related_lem logging true 0 (2 ∷ 3 ∷ []) before
      (set_related logging true 0 (2 ∷ 3 ∷ []) before).1 ((refl, (refl, tt))) refl

-- the transactions 0 and 1, in a struct that embeds a slice of them
abbrev embedding : Reflected
embedding = record {
  as_row = none;
  as_slice = none;
  embedded_row = none;
  embedded_slice = some (0 ∷ 1 ∷ []);
  type_name = "*server.page";
}

-- a value that is no row
no_row :
    eager_load logging true embedding none before
    ≡ (err (text "failed to set *models.Transaction from embedded struct *server.page"), before)
unfolding eager_load
no_row = refl
