-- ===== src/Providers.antt =====
-- The interfaces between the parts: internal/store/api.go, internal/network/api.go, and the
-- contexts that a request hands down.
use ethereum_fetcher.Prelude.{String, ℕ, ℤ, pos, Option, List}
use ethereum_fetcher.Result.{Error}
use ethereum_fetcher.Exec.{Exec}
use ethereum_fetcher.Models.{Transaction, User}

-- `NonAuthenticatedUser`
abbrev pub non_authenticated_user : ℤ
non_authenticated_user = pos 0

pub record StorageProvider (S : Type 0) : Type 0 where
  pub get_user : String → String → Exec S User
  pub get_transactions_by_hashes : List String → ℤ → Exec S (List Transaction)
  pub get_all_transactions : Exec S (List Transaction)
  pub get_my_transactions : ℤ → Exec S (List Transaction)
  pub insert_transactions : List Transaction → ℤ → Exec S (Unit {0})
  pub insert_transactions_user : List Transaction → ℤ → Exec S (Unit {0})

-- A context by what it came from: the application's, a request's, or a merge of two.
pub data Context : Type 0 where
  app_context : Context
  request_context : ℕ → Context
  merged : Context → Context → Context

-- `TxResult`; the zero value, which a receive from a closed channel gives, has neither part.
pub record TxResult : Type 0 where
  pub tx : Option Transaction
  pub failure : Option Error

-- What the `select` on a result channel and a context ends with.
pub data Selected : Type 0 where
  result : TxResult → Selected
  done : Error → Selected

-- `EthereumProvider` as the service uses it: `schedule_task` hands out a channel, and `await` is
-- the service's `select` on it, in which the node decides what arrives.
pub record EthereumProvider (N C : Type 0) : Type 0 where
  pub schedule_task : Context → String → Exec N C
  pub await : Context → C → N → Selected × N
