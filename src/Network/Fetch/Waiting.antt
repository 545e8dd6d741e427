-- ===== src/Network/Fetch/Waiting.antt =====
-- internal/network/node.go: the loops of the two fetchers around the rate limiter. The attempts of
-- a fetcher are numbered; what `Allow` says and what the client answers may differ at each.
use ethereum_fetcher.Prelude.{
  ℕ, ◌<◌, ◌≡◌, refl, ◌∙◌, String, Bool, true, false, Option, none, some, arith, if◌then◌else◌,
}
use ethereum_fetcher.Result.{Result}
use ethereum_fetcher.Exec.Retry.{retry, EndsAt, retry-EndsAt, retry-none}
use ethereum_fetcher.Models.{Transaction}
use ethereum_fetcher.Network.Fetch.{
  Answer, EthTransaction, Receipt, Ending, get_transaction_by_hash,
}

-- one round: the client is asked if the limiter allows it, and otherwise the fetcher sleeps
abbrev pub round : {A : Type 0} → (ℕ → Bool) → (ℕ → Answer A) → ℕ → Option (Answer A)
round allow client i = if allow i then some (client i) else none

pub fetch_transaction_receipt :
    (ℕ → Bool) → (ℕ → Answer Receipt) → (fuel : ℕ) → Option (Answer Receipt)
unfolding retry
fetch_transaction_receipt allow client fuel = retry (round allow client) fuel 0

pub fetch_transaction_details :
    (ℕ → Bool) → (ℕ → Answer EthTransaction) → (fuel : ℕ) → Option (Answer EthTransaction)
unfolding retry
fetch_transaction_details allow client fuel = retry (round allow client) fuel 0

-- `wg.Wait()`: both fetchers have to end
abbrev pub both : {A B C : Type 0} → (A → B → C) → Option A → Option B → Option C
both f (some a) (some b) = some (f a b)
both f (some a) none = none
both f none b = none

-- The attempt `n` is the first that is allowed.
abbrev pub IsFirst : (ℕ → Bool) → ℕ → Type 0
IsFirst allow n = (allow n ≡ true) × ((m : ℕ) → m < n → allow m ≡ false)

round-IsFirst :
    {A : Type 0} (allow : ℕ → Bool) (client : ℕ → Answer A) (n : ℕ) (a : Answer A)
    → EndsAt (round allow client) 0 n a
    → IsFirst allow n × (a ≡ client n)
round-IsFirst allow client n a (ends, before) =
    ((allowed.0, λ m h. refused m (before m (omega arith) h)), allowed.1)
  where
    ask : (b : Bool) → (if b then some (client n) else none) ≡ some a → (b ≡ true) × (a ≡ client n)
    ask true e = (refl, cc)
    ask false e = cc

    allowed : (allow n ≡ true) × (a ≡ client n)
    allowed = ask (allow n) ends

    refuse : (m : ℕ) (b : Bool) → (if b then some (client m) else none) ≡ none → b ≡ false
    refuse m true e = cc
    refuse m false e = refl

    refused : (m : ℕ) → round allow client m ≡ none → allow m ≡ false
    refused m e = refuse m (allow m) e

-- A fetcher that the limiter allows at its attempt `k` ends with the answer to the first call that
-- is allowed.
fetch-IsFirst :
    {A : Type 0} (allow : ℕ → Bool) (client : ℕ → Answer A) (k fuel : ℕ)
    → allow k ≡ true
    → k < fuel
    → (n : ℕ) × IsFirst allow n × (retry (round allow client) fuel 0 ≡ some (client n))
fetch-IsFirst {A} allow client k fuel h enough =
    let (n, a, below, ends, found) =
      retry-EndsAt (round allow client) fuel 0 k (client k) (omega arith) (omega arith) ends_k in
    let (first, answer) = round-IsFirst allow client n a ends in
    (n, first, found ∙ λ i. some (answer i))
  where
    ends_k : round allow client k ≡ some (client k)
    ends_k = rw h refl

module _ (sender : EthTransaction → Result String) where
  -- `GetTransactionByHash` with its two fetchers
  pub fetch_transaction :
      (ending : Ending) (details_first : Bool)
      → (allow_details allow_receipt : ℕ → Bool) → (ℕ → Answer EthTransaction)
      → (ℕ → Answer Receipt)
      → (fuel : ℕ) → Option (Result Transaction)
  unfolding fetch_transaction_details fetch_transaction_receipt
  fetch_transaction ending details_first allow_details allow_receipt details receipt fuel =
      both (get_transaction_by_hash sender ending details_first)
        (fetch_transaction_details allow_details details fuel)
        (fetch_transaction_receipt allow_receipt receipt fuel)

  -- When the limiter allows each fetcher at some attempt, GetTransactionByHash ends, with the
  -- answers to the first call of each fetcher that is allowed.
  pub fetch_transaction-IsFirst :
      (ending : Ending) (details_first : Bool) (allow_details allow_receipt : ℕ → Bool)
      (details : ℕ → Answer EthTransaction) (receipt : ℕ → Answer Receipt) (k k' fuel : ℕ)
      → allow_details k ≡ true
      → allow_receipt k' ≡ true
      → k < fuel
      → k' < fuel
      → (n n' : ℕ) × IsFirst allow_details n
        × IsFirst allow_receipt n'
        × (fetch_transaction ending details_first allow_details allow_receipt details receipt fuel
            ≡ some (get_transaction_by_hash sender ending details_first (details n) (receipt n')))
  unfolding fetch_transaction fetch_transaction_details fetch_transaction_receipt
  fetch_transaction-IsFirst ending details_first ad ar details receipt k k' fuel h h' e e' =
      let (n, first, answered) = fetch-IsFirst ad details k fuel h e in
      let (n', first', answered') = fetch-IsFirst ar receipt k' fuel h' e' in
      (
        n,
        n',
        first,
        first',
        λ i. both (get_transaction_by_hash sender ending details_first) (answered i) (answered' i),
      )

  both-none :
      {A B C : Type 0} (f : A → B → C) (a : Option A) (b : Option B) → a ≡ none → both f a b ≡ none
  both-none f none b e = refl
  both-none f (some a) b e = cc

  -- While the limiter allows the fetcher of the details nothing, GetTransactionByHash has not ended
  -- after any number of attempts, also when the task's context is cancelled.
  pub fetch_transaction-none :
      (ending : Ending) (details_first : Bool) (allow_details allow_receipt : ℕ → Bool)
      (details : ℕ → Answer EthTransaction) (receipt : ℕ → Answer Receipt) (fuel : ℕ)
      → ((i : ℕ) → allow_details i ≡ false)
      → fetch_transaction ending details_first allow_details allow_receipt details receipt fuel
        ≡ none
  unfolding fetch_transaction fetch_transaction_details
  fetch_transaction-none ending details_first ad ar details receipt fuel never =
      both-none _ _ _ (retry-none (round ad details) (λ i. rw (never i) refl) fuel 0)
