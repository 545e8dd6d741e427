-- ===== src/Pg/Rows/Where.antt =====
-- The helpers that SQLBoiler generates for conditions on a column, in transactions.go and users.go of
-- internal/store/pg/models. A helper is its methods, for the field that it holds.
use ethereum_fetcher.Prelude.{String, ℤ, true, false, Option, List, [], ◌∷◌, map}
use ethereum_fetcher.Result.{◌+++◌}
use ethereum_fetcher.Pg.Database.{Value, text_value, int_value, optional_value}
use ethereum_fetcher.Pg.Rows.Boiler.{
  Mod, is_where, where_in, where_not_in, compare_where, null_where, eq, neq, lt, lte, gt, gte,
}

-- `EQ` to `GTE`
pub record Ordered (A : Type 0) : Type 0 where
  pub equal : A → Mod
  pub not_equal : A → Mod
  pub less : A → Mod
  pub less_equal : A → Mod
  pub greater : A → Mod
  pub greater_equal : A → Mod

-- `LIKE`, `NLIKE`, `ILIKE` and `NILIKE`
pub record Matched (A : Type 0) : Type 0 where
  pub like : A → Mod
  pub not_like : A → Mod
  pub like_any_case : A → Mod
  pub not_like_any_case : A → Mod

-- `IN` and `NIN`
pub record Listed (A : Type 0) : Type 0 where
  pub one_of : List A → Mod
  pub none_of : List A → Mod

module _ {A : Type 0} (value : A → Value) (field : String) where
  pub ordered : Ordered A
  ordered = record {
    equal = λ x. compare_where field eq (value x);
    not_equal = λ x. compare_where field neq (value x);
    less = λ x. compare_where field lt (value x);
    less_equal = λ x. compare_where field lte (value x);
    greater = λ x. compare_where field gt (value x);
    greater_equal = λ x. compare_where field gte (value x);
  }

  pub matched : Matched A
  matched = record {
    like = λ x. is_where (field +++ " LIKE ?") (value x ∷ []);
    not_like = λ x. is_where (field +++ " NOT LIKE ?") (value x ∷ []);
    like_any_case = λ x. is_where (field +++ " ILIKE ?") (value x ∷ []);
    not_like_any_case = λ x. is_where (field +++ " NOT ILIKE ?") (value x ∷ []);
  }

  pub listed : Listed A
  listed = record {
    one_of = λ slice. where_in (field +++ " IN ?") (map value slice);
    none_of = λ slice. where_not_in (field +++ " NOT IN ?") (map value slice);
  }

-- `whereHelperstring`
pub record WhereHelperString : Type 0 where
  pub order : Ordered String
  pub match : Matched String
  pub members : Listed String

unfoldable pub where_helper_string : String → WhereHelperString
unfolding ordered matched listed
where_helper_string field = record {
  order = ordered text_value field;
  match = matched text_value field;
  members = listed text_value field;
}

-- `whereHelperint` and `whereHelperint64`
pub record WhereHelperInt : Type 0 where
  pub order : Ordered ℤ
  pub members : Listed ℤ

unfoldable pub where_helper_int : String → WhereHelperInt
unfolding ordered listed
where_helper_int field = record {
  order = ordered int_value field;
  members = listed int_value field;
}

unfoldable pub where_helper_int64 : String → WhereHelperInt
unfolding ordered listed
where_helper_int64 field = record {
  order = ordered int_value field;
  members = listed int_value field;
}

-- `whereHelpertypes_Decimal`, with a decimal as the integer that it stands for
unfoldable pub where_helper_decimal : String → Ordered ℤ
unfolding ordered
where_helper_decimal field = ordered int_value field

-- `whereHelpernull_String`. An equation with null is not one of qmhelper's operators.
pub record WhereHelperNullString : Type 0 where
  pub order : Ordered (Option String)
  pub match : Matched (Option String)
  pub members : Listed String
  pub is_null : Mod
  pub is_not_null : Mod

unfoldable pub where_helper_null_string : String → WhereHelperNullString
unfolding ordered matched listed
where_helper_null_string field = record {
  order = record (ordered optional_value field) {
    equal = λ x. null_where field false (optional_value x);
    not_equal = λ x. null_where field true (optional_value x);
  };
  match = matched optional_value field;
  members = listed text_value field;
  is_null = Mod.is_null field;
  is_not_null = Mod.is_not_null field;
}

-- `TransactionWhere`
pub record TransactionWhere : Type 0 where
  pub tx_hash : WhereHelperString
  pub tx_status : WhereHelperInt
  pub block_hash : WhereHelperString
  pub block_number : Ordered ℤ
  pub from_address : WhereHelperString
  pub to_address : WhereHelperNullString
  pub contract_address : WhereHelperNullString
  pub logs_count : WhereHelperInt
  pub input : WhereHelperString
  pub value : WhereHelperString

unfoldable pub transaction_where : TransactionWhere
unfolding where_helper_string where_helper_int where_helper_int64 where_helper_decimal
    where_helper_null_string
transaction_where = record {
  tx_hash = where_helper_string "\"transactions\".\"tx_hash\"";
  tx_status = where_helper_int "\"transactions\".\"tx_status\"";
  block_hash = where_helper_string "\"transactions\".\"block_hash\"";
  block_number = where_helper_decimal "\"transactions\".\"block_number\"";
  from_address = where_helper_string "\"transactions\".\"from_address\"";
  to_address = where_helper_null_string "\"transactions\".\"to_address\"";
  contract_address = where_helper_null_string "\"transactions\".\"contract_address\"";
  logs_count = where_helper_int64 "\"transactions\".\"logs_count\"";
  input = where_helper_string "\"transactions\".\"input\"";
  value = where_helper_string "\"transactions\".\"value\"";
}

-- `UserWhere`
pub record UserWhere : Type 0 where
  pub id : WhereHelperInt
  pub username : WhereHelperString
  pub password : WhereHelperString

unfoldable pub user_where : UserWhere
unfolding where_helper_string where_helper_int
user_where = record {
  id = where_helper_int "\"users\".\"id\"";
  username = where_helper_string "\"users\".\"username\"";
  password = where_helper_string "\"users\".\"password\"";
}
