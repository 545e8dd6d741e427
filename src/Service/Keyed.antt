-- ===== src/Service/Keyed.antt =====
-- The keys of the service's map.
use ethereum_fetcher.Prelude.{
  String, ℤ, ◌≡◌, refl, inl, inr, some, List, [], ◌∷◌, map, filter, All, lookup, insert, has_key,
  arith, eq_iff, Option-cases,
}
use ethereum_fetcher.Result.{ok}
use ethereum_fetcher.Exec.{◌>>=◌}
use ethereum_fetcher.Exec.Rules.{>>=-eq-ok, ok-injective}
use ethereum_fetcher.Models.{Transaction}
use ethereum_fetcher.Providers.{Context, TxResult, Selected, result, done}
use ethereum_fetcher.Service.{
  World, Service, TxMap, register_stored, process_result, process_selected, process_results,
  rebuild,
}

-- Each entry of the map is filed under its own hash.
abbrev pub IsKeyed : TxMap → Type 0
IsKeyed = All (λ p. p.1.tx_hash ≡ p.0)

pub lookup-IsKeyed :
    (h : String) (m : TxMap) (tx : Transaction) → IsKeyed m → lookup h m ≡ some tx → tx.tx_hash ≡ h
lookup-IsKeyed h [] tx k e = cc
lookup-IsKeyed h ((j, t) ∷ m) tx (here, k) e = ground (arith, eq_iff j h, lookup-IsKeyed h m tx k)

abbrev pub hashes_of : List Transaction → List String
hashes_of txs = map (λ t. t.tx_hash) txs

pub map-rebuild :
    (m : TxMap) (hs : List String)
    → IsKeyed m
    → hashes_of (rebuild m hs) ≡ filter (λ h. has_key h m) hs
unfolding rebuild
map-rebuild m [] k = refl
map-rebuild m (h ∷ hs) k = elim (Option-cases (lookup h m)) [
  | inl gone ↦ rw (gone, map, has_key) (map-rebuild m hs k)
  | inr (tx, found) ↦
      rw (found, map, has_key) (cc (lookup-IsKeyed h m tx k found, map-rebuild m hs k))
]

module _ {S N C : Type 0} (ap : Service S N C) where
  pub register_stored-IsKeyed :
      (u : ℤ) (txs : List Transaction) (m : TxMap) (w : World S N) {m' : TxMap} {w' : World S N}
      → IsKeyed m
      → register_stored ap u txs m w ≡ (ok m', w')
      → IsKeyed m'
  unfolding register_stored
  register_stored-IsKeyed u [] m w k e = rw (← ok-injective e) k
  register_stored-IsKeyed u (tx ∷ txs) m w k e =
      let (a, v, first, rest) = >>=-eq-ok _ _ w e in
      register_stored-IsKeyed u txs (insert tx.tx_hash tx m) v (refl, k) rest

  process_result-IsKeyed :
      (u : ℤ) (m : TxMap) (r : TxResult) (w : World S N) {m' : TxMap} {w' : World S N}
      → IsKeyed m
      → process_result ap u m r w ≡ (ok m', w')
      → IsKeyed m'
  unfolding process_result ◌>>=◌
  process_result-IsKeyed u m r w k e = ground arith

  process_selected-IsKeyed :
      (u : ℤ) (m : TxMap) (sel : Selected) (w : World S N) {m' : TxMap} {w' : World S N}
      → IsKeyed m
      → process_selected ap u m sel w ≡ (ok m', w')
      → IsKeyed m'
  unfolding process_selected
  process_selected-IsKeyed u m (result r) w k e = process_result-IsKeyed u m r w k e
  process_selected-IsKeyed u m (done x) w k e = cc

  pub process_results-IsKeyed :
      (ctx : Context) (u : ℤ) (cs : List C) (m : TxMap) (w : World S N) {m' : TxMap}
      {w' : World S N}
      → IsKeyed m
      → process_results ap ctx u cs m w ≡ (ok m', w')
      → IsKeyed m'
  unfolding process_results
  process_results-IsKeyed ctx u [] m w k e = rw (← ok-injective e) k
  process_results-IsKeyed ctx u (c ∷ cs) m w k e =
      let (sel, v, awaited, e₁) = >>=-eq-ok _ _ w e in
      let (m₁, v₁, taken, e₂) = >>=-eq-ok _ _ v e₁ in
      process_results-IsKeyed ctx u cs m₁ v₁ (process_selected-IsKeyed u m sel v k taken) e₂
