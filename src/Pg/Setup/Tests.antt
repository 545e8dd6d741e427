-- ===== src/Pg/Setup/Tests.antt =====
-- A database that answers at the third attempt, and a timer that fires after the fifth.
use ethereum_fetcher.Prelude.{ℕ, pos, ◌≡◌, refl, inl, inr, true, none, some, ltb, if◌then◌else◌}
use ethereum_fetcher.Result.{text}
use ethereum_fetcher.Pg.Setup.{timer, again, started, Environment, new_store}

abbrev slow : Environment ℕ
slow = record {
  connect = λ i. if ltb i 2 then inl (text "refused") else inr 7;
  wakeup = λ i. if ltb i 4 then again else timer;
  with_instance = none;
  getwd = inr "/srv/fetcher";
  new_with_database_instance = λ url. none;
  up = some (text "no change");
  is_no_change = λ e. true;
}

connected : new_store slow 3 ≡ some (started (record { tx_count = pos 0; db = 7 }))
unfolding new_store
connected = refl
