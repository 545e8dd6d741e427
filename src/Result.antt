-- ===== src/Result.antt =====
-- Go's `error` values and what a call gives back: a value, an error, or a panic.
use Prim.Native.String
use ethereum_fetcher.Prelude.{String, Option, none, some, Bool, true, false}

-- `text` is what `errors.New` and `fmt.Errorf` with `%v` make; `wrapped` is `errors.Wrap`, which
-- keeps its cause for `errors.Is` and `errors.As`.
pub data Error : Type 0 where
  no_rows : Error
  canceled : Error
  pg_error : (code message : String) → Error
  text : String → Error
  wrapped : String → Error → Error

infixr 65 ◌+++◌
abbrev pub ◌+++◌ : String → String → String
s +++ t = String.◌++◌ s t

-- `err.Error()`
unfoldable pub message : Error → String
message no_rows = "sql: no rows in result set"
message canceled = "context canceled"
message (pg_error code m) = m
message (text s) = s
message (wrapped s e) = s +++ ": " +++ message e

-- `errors.Is(err, sql.ErrNoRows)`
unfoldable pub is_no_rows : Error → Bool
is_no_rows no_rows = true
is_no_rows canceled = false
is_no_rows (pg_error code m) = false
is_no_rows (text s) = false
is_no_rows (wrapped s e) = is_no_rows e

-- `errors.As(err, &pgErr)`, with the code that is read from it
unfoldable pub pg_code : Error → Option String
pg_code no_rows = none
pg_code canceled = none
pg_code (pg_error code m) = some code
pg_code (text s) = none
pg_code (wrapped s e) = pg_code e

-- `fmt.Errorf("<before> '%s': %v", hash, err)`
unfoldable pub errorf_hash : String → String → Error → Error
errorf_hash before hash e = text (before +++ " '" +++ hash +++ "': " +++ message e)

pub data Result {ℓ} (A : Type ℓ) : Type ℓ where
  ok : A → Result A
  err : Error → Result A
  panic : Result A

-- `if err != nil { return err }` between two steps that change nothing
unfoldable pub and_then {ℓ} : {A B : Type ℓ} → Result A → (A → Result B) → Result B
and_then (ok a) f = f a
and_then (err e) f = err e
and_then panic f = panic
