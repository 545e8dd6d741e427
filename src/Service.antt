-- ===== src/Service.antt =====
-- internal/app/service.go: the application's service over a store and a node.
pub mod Keyed
mod Run
mod Rounds
pub mod Order
pub mod Storage
pub mod Marked
pub mod Stored
pub mod Returned
pub mod Panics
pub mod Scheduling
pub mod Again
pub mod Tests
use ethereum_fetcher.Prelude.{
  String, ℤ, none, some, List, [], ◌∷◌, lookup, insert, has_key, if◌then◌else◌,
}
use ethereum_fetcher.Result.{ok, Error, errorf_hash}
use ethereum_fetcher.Exec.{Exec, pure, raise, crash, annotate, ◌>>=◌, ◌>>◌}
use ethereum_fetcher.Models.{Transaction, User}
use ethereum_fetcher.Providers.{
  StorageProvider, EthereumProvider, Context, merged, TxResult, Selected, result, done,
}

-- The state behind the two providers.
pub record World (S N : Type 0) : Type 0 where
  pub store : S
  pub node : N

pub record Service (S N C : Type 0) : Type 0 where
  pub ctx : Context
  pub st : StorageProvider S
  pub net : EthereumProvider N C

abbrev pub TxMap : Type 0
TxMap = List (String × Transaction)

module _ {S N : Type 0} where
  abbrev pub on_store : {A : Type 0} → Exec S A → Exec (World S N) A
  on_store m w = let (r, s) = m w.store in (r, record w { store = s })

  abbrev pub on_node : {A : Type 0} → Exec N A → Exec (World S N) A
  on_node m w = let (r, n) = m w.node in (r, record w { node = n })

-- `MergeContexts`, as the origin of the context that it makes
unfoldable pub merge_contexts : Context → Context → Context
merge_contexts app_ctx request_ctx = merged app_ctx request_ctx

-- The errors of `GetTransactionsByHashes`.
abbrev pub storing_failed : String → Error → Error
storing_failed = errorf_hash "error storing info for hash"

abbrev pub scheduling_failed : String → Error → Error
scheduling_failed = errorf_hash "error scheduling task for hash"

abbrev pub fetching_failed : String → Error → Error
fetching_failed = errorf_hash "error fetching task for hash"

module _ {S N C : Type 0} (ap : Service S N C) where
  pub get_user : String → String → Exec (World S N) User
  get_user username password = do user ← on_store (ap.st.get_user username password); pure user

  pub get_all_transactions : Exec (World S N) (List Transaction)
  get_all_transactions = do tx_list ← on_store ap.st.get_all_transactions; pure tx_list

  unfoldable pub get_my_transactions : ℤ → Exec (World S N) (List Transaction)
  get_my_transactions user_id = do
    tx_list ← on_store (ap.st.get_my_transactions user_id)
    pure tx_list

  -- the loop over the stored transactions
  pub register_stored : ℤ → List Transaction → TxMap → Exec (World S N) TxMap
  register_stored user_id [] available = pure available
  register_stored user_id (tx ∷ rest) available = do
    annotate (storing_failed tx.tx_hash)
        (on_store (ap.st.insert_transactions_user (tx ∷ []) user_id))
    register_stored user_id rest (insert tx.tx_hash tx available)

  -- the loop that schedules a task for each hash that is not stored
  pub schedule_missing : Context → TxMap → List String → Exec (World S N) (List C)
  schedule_missing mux available [] = pure []
  schedule_missing mux available (hash ∷ rest) =
      if has_key hash available then schedule_missing mux available rest else (do
        chan ← annotate (scheduling_failed hash) (on_node (ap.net.schedule_task mux hash))
        more ← schedule_missing mux available rest
        pure (chan ∷ more))

  -- one round of the loop over the result channels. A result with no transaction, such as the
  -- zero value of a closed channel, is dereferenced all the same.
  pub process_result : ℤ → TxMap → TxResult → Exec (World S N) TxMap
  process_result user_id available res = elim res.tx [
    | none ↦ crash
    | some tx ↦ elim res.failure [
      | some e ↦ raise (fetching_failed tx.tx_hash e)
      | none ↦ do
        annotate (storing_failed tx.tx_hash)
            (on_store (ap.st.insert_transactions (tx ∷ []) user_id))
        pure (insert tx.tx_hash tx available)
    ]
  ]

  pub process_selected : ℤ → TxMap → Selected → Exec (World S N) TxMap
  unfolding process_result
  process_selected user_id available (result res) = process_result user_id available res
  process_selected user_id available (done e) = raise e

  pub await_one : Context → C → Exec (World S N) Selected
  await_one mux chan w =
      let (sel, n) = ap.net.await mux chan w.node in (ok sel, record w { node = n })

  pub process_results : Context → ℤ → List C → TxMap → Exec (World S N) TxMap
  unfolding process_selected await_one
  process_results mux user_id [] available = pure available
  process_results mux user_id (chan ∷ rest) available = do
    selected ← await_one mux chan
    available' ← process_selected user_id available selected
    process_results mux user_id rest available'

-- the result list, in the order of the request
pub rebuild : TxMap → List String → List Transaction
rebuild available [] = []
rebuild available (hash ∷ rest) = elim (lookup hash available) [
  | some tx ↦ tx ∷ rebuild available rest
  | none ↦ rebuild available rest
]

module _ {S N C : Type 0} (ap : Service S N C) where
  -- What is appended to `txList` after the first loop is never read, and left out.
  unfoldable pub get_transactions_by_hashes :
      Context → List String → ℤ → Exec (World S N) (List Transaction)
  unfolding register_stored schedule_missing process_results rebuild merge_contexts
  get_transactions_by_hashes request_ctx tx_hashes user_id = do
    tx_list ← on_store (ap.st.get_transactions_by_hashes tx_hashes user_id)
    stored ← register_stored ap user_id tx_list []
    let mux_ctx = merge_contexts ap.ctx request_ctx
    chans ← schedule_missing ap mux_ctx stored tx_hashes
    available ← process_results ap mux_ctx user_id chans stored
    pure (rebuild available tx_hashes)
