-- ===== src/Network/Fetch.antt =====
-- internal/network/node.go: what `GetTransactionByHash` makes of the two answers of the client.
pub mod Arrivals
pub mod Waiting
mod Tests
use Prim.Native.Nat.{Ordering}
use Prim.Native.String.{compare}
use ethereum_fetcher.Prelude.{
  ℕ, suc, ◌-◌, ◌^◌, String, ℤ, pos, negsuc, ◌⊎◌, inl, inr, Bool, true, false, Option, none, some,
  List, [], ◌∷◌, ◌++◌, map, join_texts, ltb, if◌then◌else◌,
}
use ethereum_fetcher.Result.{Result, ok, err, panic, Error, text, message, ◌+++◌}
use ethereum_fetcher.Models.{Transaction}

-- What is read of go-ethereum's values, each in the text that its library gives.
pub record Address : Type 0 where
  pub hex : String
  pub is_zero : Bool

pub record EthTransaction : Type 0 where
  pub hash_hex : String
  pub to : Option Address
  pub data_hex : String
  pub value : String

pub record Receipt : Type 0 where
  pub status : ℕ
  pub block_hash_hex : String
  -- a pointer
  pub block_number : Option ℤ
  pub contract_address : Address
  pub logs : ℕ

-- an answer of the client
abbrev pub Answer : Type 0 → Type 0
Answer A = Error ⊎ A

-- Go's conversion of a `uint64` to `int`
pub to_int : ℕ → ℤ
to_int n = if ltb n (2 ^ 63) then pos n else negsuc (2 ^ 64 - suc n)

-- The context of a task when both fetchers are done. Where it is done, either fetcher may have found
-- it so when it came to send an error: its `select` then may leave the error unsent.
pub data Ending : Type 0 where
  running : Ending
  canceled expired : (unsent_details unsent_receipt : Bool) → Ending

abbrev pub unsent_details : Ending → Bool
unsent_details running = false
unsent_details (canceled d r) = d
unsent_details (expired d r) = d

abbrev pub unsent_receipt : Ending → Bool
unsent_receipt running = false
unsent_receipt (canceled d r) = r
unsent_receipt (expired d r) = r

-- `errors.Is(task.Ctx.Err(), context.Canceled)`
abbrev pub is_canceled : Ending → Bool
is_canceled running = false
is_canceled (canceled d r) = true
is_canceled (expired d r) = false

-- the error that a fetcher sends, if any; `unsent` is the choice of its `select`
pub sent_error : {A : Type 0} → (unsent : Bool) → String → Answer A → List Error
sent_error true what (inl e) = []
sent_error false what (inl e) =
    text ("failed to fetch transaction " +++ what +++ ": " +++ message e) ∷ []
sent_error unsent what (inr a) = []

-- the errors in the order in which they arrive
pub arrivals : Bool → List Error → List Error → List Error
arrivals true details receipt = details ++ receipt
arrivals false details receipt = receipt ++ details

-- `slices.SortFunc` by `strings.Compare` of the messages
pub place : Ordering → Error → Error → List Error → List Error → List Error
place Ordering.gt e f fs placed = f ∷ placed
place Ordering.lt e f fs placed = e ∷ f ∷ fs
place Ordering.eq e f fs placed = e ∷ f ∷ fs

pub insert_error : Error → List Error → List Error
unfolding place
insert_error e [] = e ∷ []
insert_error e (f ∷ fs) = place (compare (message e) (message f)) e f fs (insert_error e fs)

pub sort_errors : List Error → List Error
unfolding insert_error
sort_errors [] = []
sort_errors (e ∷ es) = insert_error e (sort_errors es)

-- `errors.Join(errList...)`
pub join : List Error → Error
join es = text (join_texts "\n" (map message es))

pub nonzero_hex : Address → Option String
nonzero_hex a = if a.is_zero then none else some a.hex

-- `getTransactionSender`, over go-ethereum's `types.Sender`
abbrev pub get_transaction_sender :
    (EthTransaction → Result Address) → EthTransaction → Result String
get_transaction_sender recover tx = elim (recover tx) [
  | ok from ↦ ok from.hex
  | err e ↦ err e
  | panic ↦ panic
]

-- `sender` is `getTransactionSender`.
module _ (sender : EthTransaction → Result String) where
  build_with : EthTransaction → Receipt → ℤ → Result String → Result Transaction
  unfolding to_int nonzero_hex
  build_with eth_tx receipt block_number (ok from) = ok (record {
    tx_hash = eth_tx.hash_hex;
    tx_status = to_int receipt.status;
    block_hash = receipt.block_hash_hex;
    block_number = block_number;
    from_address = from;
    to_address = elim eth_tx.to [ none ↦ none | some a ↦ nonzero_hex a ];
    contract_address = nonzero_hex receipt.contract_address;
    logs_count = pos receipt.logs;
    input = "0x" +++ eth_tx.data_hex;
    value = eth_tx.value;
    r = none;
  })
  build_with eth_tx receipt block_number (err e) =
      err (text ("error fetching ethereum tx data: " +++ message e))
  build_with eth_tx receipt block_number panic = panic

  -- `SetBigMantScale` dereferences the block number, before the sender is recovered.
  pub build_from : EthTransaction → Receipt → Result Transaction
  unfolding build_with
  build_from eth_tx receipt = elim receipt.block_number [
    | none ↦ panic
    | some block_number ↦ build_with eth_tx receipt block_number (sender eth_tx)
  ]

  -- after the context is looked at; while it runs, both answers are there without an error, and a nil
  -- one would be dereferenced
  pub finish : List Error → Answer EthTransaction → Answer Receipt → Result Transaction
  unfolding build_from sort_errors join
  finish (e ∷ es) details receipt = err (join (sort_errors (e ∷ es)))
  finish [] (inr eth_tx) (inr receipt) = build_from eth_tx receipt
  finish [] (inl e) receipt = panic
  finish [] (inr eth_tx) (inl e) = panic

  -- `details_first` is which of two errors arrives first.
  pub get_transaction_by_hash :
      Ending → (details_first : Bool) → Answer EthTransaction → Answer Receipt → Result Transaction
  unfolding finish arrivals sent_error
  get_transaction_by_hash ending details_first details receipt =
      if is_canceled ending
      then err (text "fetching ethereum tx data got interrupted by context cancellation")
      else finish
          (arrivals details_first (sent_error (unsent_details ending) "details" details)
            (sent_error (unsent_receipt ending) "receipt" receipt))
          details receipt
