-- ===== src/Service/Tests.antt =====
-- A store and a node in memory, and the service's theorems on them.
use mathlib.Core.List.{Sublistᴰ}
use ethereum_fetcher.Prelude.{
  ℕ, suc, String, pos, ◌≡◌, ◌≢◌, refl, sym, Bool, true, none, some, List, [], ◌∷◌, ◌++◌, filter,
  All, All-map, contains, eq_refl, arith, Bool-cases, inl, inr,
}
use ethereum_fetcher.Result.{ok, panic}
use ethereum_fetcher.Exec.{annotate, ◌>>=◌}
use ethereum_fetcher.Exec.Rules.{ok-injective}
use ethereum_fetcher.Models.{Transaction}
use ethereum_fetcher.Providers.{
  StorageProvider, EthereumProvider, app_context, request_context, result,
}
use ethereum_fetcher.Service.{World, Service, schedule_missing, get_transactions_by_hashes}
use ethereum_fetcher.Service.Keyed.{hashes_of}
use ethereum_fetcher.Service.Order.{
  get_transactions_by_hashes-sublist, Answers, get_transactions_by_hashes_complete,
}
use ethereum_fetcher.Service.Panics.{
  AreCalm, get_transactions_by_hashes-calm, closed_channel_panics,
}
use ethereum_fetcher.Service.Scheduling.{schedule_each, schedule_missing-eq-schedule_each}

abbrev pub tx_of : String → Transaction
tx_of h = record {
  tx_hash = h;
  tx_status = pos 1;
  block_hash = "0xb";
  block_number = pos 7;
  from_address = "0xf";
  to_address = none;
  contract_address = none;
  logs_count = pos 0;
  input = "0x";
  value = "0";
  r = none;
}

abbrev pub Rows : Type 0
Rows = List Transaction

abbrev in_memory : StorageProvider Rows
in_memory = record {
  get_user = λ name word s. (ok (record { id = pos 1; username = name; password = word }), s);
  get_transactions_by_hashes = λ hs u s. (ok (filter (λ t. contains t.tx_hash hs) s), s);
  get_all_transactions = λ s. (ok s, s);
  get_my_transactions = λ u s. (ok s, s);
  insert_transactions = λ txs u s. (ok tt, txs ++ s);
  insert_transactions_user = λ txs u s. (ok tt, s);
}

-- Each channel is named by its hash, and carries the transaction of that hash.
abbrev pub answering : EthereumProvider ℕ String
answering = record {
  schedule_task = λ ctx h n. (ok h, suc n);
  await = λ ctx c n. (result (record { tx = some (tx_of c); failure = none }), n);
}

abbrev pub service : Service Rows ℕ String
service = record { ctx = app_context; st = in_memory; net = answering }

abbrev pub world : World Rows ℕ
world = record { store = tx_of "b" ∷ []; node = 0 }

abbrev pub after : World Rows ℕ
after = record { store = tx_of "a" ∷ tx_of "b" ∷ []; node = 1 }

abbrev pub hashes : List String
hashes = "a" ∷ "b" ∷ []

abbrev pub answer : List Transaction
answer = tx_of "a" ∷ tx_of "b" ∷ []

pub a_run :
    get_transactions_by_hashes service (request_context 1) hashes (pos 5) world ≡ (ok answer, after)
unfolding get_transactions_by_hashes annotate ◌>>=◌
a_run = refl

get_transactions_by_hashes-sublist_example : Sublistᴰ (hashes_of answer) hashes
get_transactions_by_hashes-sublist_example =
    get_transactions_by_hashes-sublist service (request_context 1) hashes (pos 5) world a_run

pub answers : Answers answering (λ c. c)
answers = record {
  scheduled = λ ctx h n n' c e. sym (ok-injective e);
  answered = λ ctx c n n' tx e. cc;
}

get_transactions_by_hashes_complete_example : hashes_of answer ≡ hashes
get_transactions_by_hashes_complete_example =
    get_transactions_by_hashes_complete service (λ c. c) answers (request_context 1) hashes (pos 5)
      world a_run

-- A row of the hash is in the store.
abbrev pub HasRow : Rows → String → Type 0
HasRow s h = contains h (hashes_of s) ≡ true

pub HasRow-append : (h : String) (txs s : Rows) → HasRow s h → HasRow (txs ++ s) h
HasRow-append h [] s e = e
HasRow-append h (t ∷ txs) s e = ground (arith, HasRow-append h txs s)

pub rows_listed : (p : Transaction → Bool) (s : Rows) → All (λ t. HasRow s t.tx_hash) (filter p s)
rows_listed p [] = tt
rows_listed p (t ∷ s) =
    let rest =
      All-map (λ r. HasRow s r.tx_hash) (λ r. HasRow (t ∷ s) r.tx_hash) (λ r e. ground arith)
        (filter p s) (rows_listed p s) in
    elim (Bool-cases (p t)) [
      | inl kept ↦ rw (kept, All) (rw (eq_refl t.tx_hash), rest)
      | inr gone ↦ rw (gone, All) rest
    ]

calm : AreCalm in_memory answering
calm = record {
  query = λ hs u s p. cc;
  insert_rows = λ txs u s p. cc;
  insert_user = λ txs u s p. cc;
  schedule = λ ctx h n p. cc;
  full = λ ctx c n r e p. cc;
}

get_transactions_by_hashes-calm_example :
    (get_transactions_by_hashes service (request_context 1) hashes (pos 5) world).0 ≢ panic
get_transactions_by_hashes-calm_example =
    get_transactions_by_hashes-calm service calm (request_context 1) hashes (pos 5) world

-- A node whose channels are closed with nothing sent.
abbrev closing : EthereumProvider ℕ String
closing = record {
  schedule_task = λ ctx h n. (ok h, suc n);
  await = λ ctx c n. (result (record { tx = none; failure = none }), n);
}

abbrev shutting : Service Rows ℕ String
shutting = record { ctx = app_context; st = in_memory; net = closing }

closed_channel_panics_example :
    (get_transactions_by_hashes shutting (request_context 1) ("a" ∷ []) (pos 5) world).0 ≡ panic
closed_channel_panics_example =
    closed_channel_panics shutting (request_context 1) "a" (pos 5) world (tx_of "b" ∷ []) 1 "a" none
      refl refl refl

schedule_missing-eq-schedule_each_example :
    schedule_missing service app_context (("b", tx_of "b") ∷ []) hashes
    ≡ schedule_each service app_context ("a" ∷ [])
schedule_missing-eq-schedule_each_example =
    schedule_missing-eq-schedule_each service app_context (("b", tx_of "b") ∷ []) hashes
