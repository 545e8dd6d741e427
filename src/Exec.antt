-- ===== src/Exec.antt =====
-- Calls that change state and may fail. What was written before a failure stays written.
pub mod Rules
pub mod Retry
use ethereum_fetcher.Result.{Result, ok, err, panic, Error}

abbrev pub Exec {ℓ} : Type ℓ → Type ℓ → Type ℓ
Exec S A = S → Result A × S

abbrev pub reword {ℓ} : {A : Type ℓ} → (Error → Error) → Result A → Result A
reword f (ok a) = ok a
reword f (err e) = err (f e)
reword f panic = panic

module _ {ℓ} {S A : Type ℓ} where
  abbrev pub pure : A → Exec S A
  pure a s = (ok a, s)

  abbrev pub raise : Error → Exec S A
  raise e s = (err e, s)

  abbrev pub crash : Exec S A
  crash s = (panic, s)

  -- `if err != nil { return ..., f(err) }` after a call
  unfoldable pub annotate : (Error → Error) → Exec S A → Exec S A
  annotate f m s = let (r, s') = m s in (reword f r, s')

module _ {ℓ} {S A B : Type ℓ} where
  abbrev pub proceed : (A → Exec S B) → Result A → Exec S B
  proceed f (ok a) s = f a s
  proceed f (err e) s = (err e, s)
  proceed f panic s = (panic, s)

  infixl 5 ◌>>=◌ ◌>>◌
  unfoldable pub ◌>>=◌ : Exec S A → (A → Exec S B) → Exec S B
  ◌>>=◌ m f s = let (r, s') = m s in proceed f r s'

  abbrev pub ◌>>◌ : Exec S A → Exec S B → Exec S B
  m >> n = m >>= λ _. n
