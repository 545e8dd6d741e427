-- ===== src/Network/Fetch/Tests.antt =====
-- The fetch on failing clients.
use ethereum_fetcher.Prelude.{
  ℕ, ◌==◌, String, ◌≡◌, ◌≢◌, refl, inl, inr, ◌↔◌, true, false, none, some, arith,
}
use ethereum_fetcher.Result.{Result, err, panic, text, message}
use ethereum_fetcher.Network.Fetch.{
  Address, Receipt, running, canceled, expired, EthTransaction, get_transaction_by_hash,
}
use ethereum_fetcher.Network.Fetch.Arrivals.{
  get_transaction_by_hash-arrivals, get_transaction_by_hash-panic, IsUnnumbered,
}
use ethereum_fetcher.Network.Fetch.Waiting.{
  IsFirst, fetch_transaction, fetch_transaction-IsFirst, fetch_transaction-none,
}

abbrev no_sender : EthTransaction → Result String
no_sender t = err (text "invalid signature")

-- The receipt's error arrives first, and stands second in the message.
sorted_messages :
    get_transaction_by_hash no_sender running false (inl (text "timeout")) (inl (text "not found"))
    ≡ err (
        text
          "failed to fetch transaction details: timeout\nfailed to fetch transaction receipt: not found")
unfolding get_transaction_by_hash message
sorted_messages = refl

get_transaction_by_hash-arrivals_example :
    get_transaction_by_hash no_sender running true (inl (text "timeout")) (inl (text "not found"))
    ≡ get_transaction_by_hash no_sender running false
        (inl (text "timeout"))
        (inl (text "not found"))
get_transaction_by_hash-arrivals_example =
    get_transaction_by_hash-arrivals no_sender running (inl (text "timeout"))
      (inl (text "not found"))

no_sender-calm : (t : EthTransaction) → no_sender t ≢ panic
no_sender-calm t p = cc

abbrev details : EthTransaction
details = record { hash_hex = "0xa"; to = none; data_hex = ""; value = "0" }

abbrev nowhere : Address
nowhere = record { hex = "0x0"; is_zero = true }

abbrev unnumbered : Receipt
unnumbered = record {
  status = 1;
  block_hash_hex = "0xb";
  block_number = none;
  contract_address = nowhere;
  logs = 0;
}

get_transaction_by_hash-panic_example :
    (get_transaction_by_hash no_sender running true (inr details) (inr unnumbered) ≡ panic)
    ↔ IsUnnumbered no_sender (inr details) (inr unnumbered)
get_transaction_by_hash-panic_example =
    get_transaction_by_hash-panic no_sender no_sender-calm true (inr details) (inr unnumbered)

-- An error that is left unsent by a context past its deadline leaves a nil answer to dereference.
expired_panics :
    get_transaction_by_hash no_sender
      (expired true false)
      true
      (inl (text "timeout"))
      (inr unnumbered)
    ≡ panic
unfolding get_transaction_by_hash
expired_panics = refl

-- The limiter lets the details through at the third attempt, and the receipt at the first.
fetch_transaction-IsFirst_example :
    (n n' : ℕ) × IsFirst (λ i. i == 2) n
    × IsFirst (λ i. true) n'
    × (fetch_transaction no_sender running true
          (λ i. i == 2)
          (λ i. true)
          (λ i. inl (text "timeout"))
          (λ i. inl (text "not found"))
          3
        ≡ some (
            get_transaction_by_hash no_sender running true
              (inl (text "timeout"))
              (inl (text "not found"))))
fetch_transaction-IsFirst_example =
    fetch_transaction-IsFirst no_sender running true (λ i. i == 2) (λ i. true)
      (λ i. inl (text "timeout")) (λ i. inl (text "not found")) 2 0 3 refl refl (omega arith)
      (omega arith)

fetch_transaction-none_example :
    fetch_transaction no_sender
      (canceled false false)
      true
      (λ i. false)
      (λ i. true)
      (λ i. inl (text "timeout"))
      (λ i. inl (text "not found"))
      9
    ≡ none
fetch_transaction-none_example =
    fetch_transaction-none no_sender (canceled false false) true (λ i. false) (λ i. true)
      (λ i. inl (text "timeout")) (λ i. inl (text "not found")) 9 λ i. refl
