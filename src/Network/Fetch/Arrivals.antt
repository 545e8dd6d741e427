-- ===== src/Network/Fetch/Arrivals.antt =====
-- The order in which the two fetchers fail, and what becomes of nil answers.
use Prim.Native.Nat.{Ordering}
use Prim.Native.String.{compare}
use text.Mathlib.TextEquality.{path_by_compare}
use ethereum_fetcher.Prelude.{
  String, ◌≡◌, ◌≢◌, refl, ap, inl, inr, Bool, true, false, Option, none, some, ℤ, ◌↔◌, [], ◌∷◌, map,
  opposite, join_texts, compare_swap,
}
use ethereum_fetcher.Result.{Result, ok, err, panic, Error, message}
use ethereum_fetcher.Network.Fetch.{
  EthTransaction, Receipt, Answer, Ending, running, canceled, expired, sent_error, arrivals, place,
  insert_error, sort_errors, join, build_with, build_from, finish, get_transaction_by_hash,
}

-- Two errors are sorted to the same messages whichever stands first.
sort_pair :
    (e f : Error) (o : Ordering)
    → compare (message e) (message f) ≡ o
    → map message (sort_errors (e ∷ f ∷ [])) ≡ map message (sort_errors (f ∷ e ∷ []))
unfolding sort_errors insert_error place
sort_pair e f o c = rw (compare_swap (message e) (message f)) (by o c)
  where
    by :
        (o : Ordering)
        → compare (message e) (message f) ≡ o
        → map message (place (compare (message e) (message f)) e f [] (e ∷ []))
          ≡ map message (place (opposite (compare (message e) (message f))) f e [] (f ∷ []))
    by Ordering.lt c = rw c refl
    by Ordering.gt c = rw c refl
    by Ordering.eq c = rw c (rw (path_by_compare (message e) (message f) c) refl)

module _ (sender : EthTransaction → Result String) where
  finish-arrivals :
      (ud ur : Bool) (details : Answer EthTransaction) (receipt : Answer Receipt)
      → finish sender
          (arrivals true (sent_error ud "details" details) (sent_error ur "receipt" receipt))
          details
          receipt
        ≡ finish sender
            (arrivals false (sent_error ud "details" details) (sent_error ur "receipt" receipt))
            details
            receipt
  unfolding finish arrivals sent_error join
  finish-arrivals ud ur (inr t) (inr rc) = refl
  finish-arrivals ud true (inr t) (inl e) = refl
  finish-arrivals ud false (inr t) (inl e) = refl
  finish-arrivals true ur (inl e) (inr rc) = refl
  finish-arrivals false ur (inl e) (inr rc) = refl
  finish-arrivals true true (inl e) (inl f) = refl
  finish-arrivals true false (inl e) (inl f) = refl
  finish-arrivals false true (inl e) (inl f) = refl
  finish-arrivals false false (inl e) (inl f) =
      ap (λ ms. err (Error.text (join_texts "\n" ms))) (sort_pair _ _ _ refl)

  -- Which of the two fetchers fails first makes no difference: the outcome and the message of the
  -- error are the same.
  pub get_transaction_by_hash-arrivals :
      (ending : Ending) (details : Answer EthTransaction) (receipt : Answer Receipt)
      → get_transaction_by_hash sender ending true details receipt
        ≡ get_transaction_by_hash sender ending false details receipt
  unfolding get_transaction_by_hash
  get_transaction_by_hash-arrivals running details receipt =
      finish-arrivals false false details receipt
  get_transaction_by_hash-arrivals (canceled d r) details receipt = refl
  get_transaction_by_hash-arrivals (expired d r) details receipt =
      finish-arrivals d r details receipt

  -- Both answers came, and the receipt has no block number.
  abbrev pub IsUnnumbered : Answer EthTransaction → Answer Receipt → Type 0
  IsUnnumbered (inr t) (inr rc) = rc.block_number ≡ none
  IsUnnumbered _ _ = ⊥

  build_with-calm :
      (t : EthTransaction) (rc : Receipt) (n : ℤ) (from : Result String)
      → from ≢ panic
      → build_with sender t rc n from ≢ panic
  unfolding build_with
  build_with-calm t rc n (ok from) calm = λ p. cc
  build_with-calm t rc n (err e) calm = λ p. cc
  build_with-calm t rc n panic calm = absurd (calm refl)

  build_from-cases :
      (t : EthTransaction) (rc : Receipt)
      → sender t ≢ panic
      → (build_from sender t rc ≡ panic) ↔ (rc.block_number ≡ none)
  unfolding build_from
  build_from-cases t rc calm = by_number rc.block_number refl
    where
      by_number :
          (o : Option ℤ)
          → rc.block_number ≡ o
          → (build_from sender t rc ≡ panic) ↔ (rc.block_number ≡ none)
      by_number none e = (λ p. e, λ q. rw (e, build_from) refl)
      by_number (some n) e = (
        λ p. absurd (build_with-calm t rc n (sender t) calm (rw (e, build_from) at p)),
        λ q. absurd (cc),
      )

  -- While the context of the task runs, and when recovering a sender never panics, a fetch panics
  -- exactly when both answers came and the receipt has no block number: an answer that is missing
  -- is never dereferenced.
  pub get_transaction_by_hash-panic :
      ((t : EthTransaction) → sender t ≢ panic)
      → (details_first : Bool) (details : Answer EthTransaction) (receipt : Answer Receipt)
      → (get_transaction_by_hash sender running details_first details receipt ≡ panic)
        ↔ IsUnnumbered details receipt
  unfolding get_transaction_by_hash finish arrivals sent_error
  get_transaction_by_hash-panic calm true (inr t) (inr rc) = build_from-cases t rc (calm t)
  get_transaction_by_hash-panic calm false (inr t) (inr rc) = build_from-cases t rc (calm t)
  get_transaction_by_hash-panic calm true (inr t) (inl e) = (λ p. cc, absurd)
  get_transaction_by_hash-panic calm false (inr t) (inl e) = (λ p. cc, absurd)
  get_transaction_by_hash-panic calm true (inl e) (inr rc) = (λ p. cc, absurd)
  get_transaction_by_hash-panic calm false (inl e) (inr rc) = (λ p. cc, absurd)
  get_transaction_by_hash-panic calm true (inl e) (inl f) = (λ p. cc, absurd)
  get_transaction_by_hash-panic calm false (inl e) (inl f) = (λ p. cc, absurd)
