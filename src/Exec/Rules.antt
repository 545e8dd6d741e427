-- ===== src/Exec/Rules.antt =====
-- Rules for blocks of calls: how a block returns, what it keeps, and that it does not panic.
use mathlib.Core.Path.{subst₂}
use ethereum_fetcher.Prelude.{◌≡◌, ◌∙◌, refl, ◌≢◌}
use ethereum_fetcher.Result.{Result, ok, err, panic, Error}
use ethereum_fetcher.Exec.{Exec, reword, annotate, proceed, pure, raise, ◌>>=◌}

module _ {ℓ} {A : Type ℓ} where
  reword-eq-ok : (f : Error → Error) (r : Result A) {a : A} → reword f r ≡ ok a → r ≡ ok a
  reword-eq-ok f (ok a) h = h
  reword-eq-ok f (err e) h = cc
  reword-eq-ok f panic h = cc

  reword-calm : (f : Error → Error) (r : Result A) → r ≢ panic → reword f r ≢ panic
  reword-calm f (ok a) h = λ p. cc
  reword-calm f (err e) h = λ p. cc
  reword-calm f panic h = λ p. h refl

module _ {ℓ} {S A B : Type ℓ} where
  proceed-eq-ok :
      (f : A → Exec S B) (r : Result A) (s : S) {b : B} {t : S}
      → proceed f r s ≡ (ok b, t)
      → (a : A) × (r ≡ ok a) × (f a s ≡ (ok b, t))
  proceed-eq-ok f (ok a) s h = (a, refl, h)
  proceed-eq-ok f (err e) s h = cc
  proceed-eq-ok f panic s h = cc

  -- A block that returns has a first step that returns, and the rest goes on from there.
  pub >>=-eq-ok :
      (m : Exec S A) (f : A → Exec S B) (s : S) {b : B} {t : S}
      → (m >>= f) s ≡ (ok b, t)
      → (a : A) × (u : S) × (m s ≡ (ok a, u)) × (f a u ≡ (ok b, t))
  unfolding ◌>>=◌
  >>=-eq-ok m f s h =
      let (a, e, h') = proceed-eq-ok f (m s).0 (m s).1 h in (a, (m s).1, (λ i. (e i, (m s).1)), h')

  pub >>=-ok :
      (m : Exec S A) (f : A → Exec S B) (s : S) {a : A} {t : S}
      → m s ≡ (ok a, t)
      → (m >>= f) s ≡ f a t
  unfolding ◌>>=◌
  >>=-ok m f s e i = proceed f (e i).0 (e i).1

  pub >>=-result :
      (m : Exec S A) (f : A → Exec S B) (s : S) {a : A} {t : S} {r : Result B}
      → m s ≡ (ok a, t)
      → (f a t).0 ≡ r
      → ((m >>= f) s).0 ≡ r
  unfolding ◌>>=◌
  >>=-result m f s e h = (λ i. (proceed f (e i).0 (e i).1).0) ∙ h

  pub >>=-panic :
      (m : Exec S A) (f : A → Exec S B) (s : S) → (m s).0 ≡ panic → ((m >>= f) s).0 ≡ panic
  unfolding ◌>>=◌
  >>=-panic m f s e i = (proceed f (e i) (m s).1).0

module _ {ℓ} {S A : Type ℓ} where
  pub annotate-eq-ok :
      (f : Error → Error) (m : Exec S A) (s : S) {a : A} {t : S}
      → annotate f m s ≡ (ok a, t)
      → m s ≡ (ok a, t)
  unfolding annotate
  annotate-eq-ok f m s h i = (reword-eq-ok f (m s).0 (λ j. (h j).0) i, (h i).1)

pub ok-injective {ℓ} :
    {S A : Type ℓ} {a b : A} {s t : S} → ◌≡◌ {A = Result A × S} (ok a, s) (ok b, t) → a ≡ b
ok-injective e = cc

pub ok-subst {ℓ} :
    {S A : Type ℓ} (Q : A → S → Type ℓ) {a b : A} {s t : S}
    → ◌≡◌ {A = Result A × S} (ok a, s) (ok b, t)
    → Q a s
    → Q b t
ok-subst Q e = subst₂ Q (ok-injective e) (λ i. (e i).1)

-- `m` keeps `P` whether it returns, fails or panics.
abbrev pub Keeps {ℓ} : {S A : Type ℓ} → (S → Type ℓ) → Exec S A → Type ℓ
Keeps {S} P m = (s : S) → P s → P (m s).1

module _ {ℓ} {S A B : Type ℓ} (P : S → Type ℓ) where
  proceed-after :
      (f : A → Exec S B) (r : Result A) (s : S)
      → ((a : A) → r ≡ ok a → P (f a s).1)
      → P s
      → P (proceed f r s).1
  proceed-after f (ok a) s next here = next a refl
  proceed-after f (err e) s next here = here
  proceed-after f panic s next here = here

  -- To hold after a block: hold where its first step ends, and after the rest if that step returns.
  pub >>=-after :
      (m : Exec S A) (f : A → Exec S B) (s : S)
      → ((a : A) → (m s).0 ≡ ok a → P (f a (m s).1).1)
      → P (m s).1
      → P ((m >>= f) s).1
  unfolding ◌>>=◌
  >>=-after m f s = proceed-after f (m s).0 (m s).1

  proceed-keeps :
      (f : A → Exec S B)
      → ((a : A) → Keeps P (f a))
      → (r : Result A) (s : S) → P s
      → P (proceed f r s).1
  proceed-keeps f kf (ok a) s h = kf a s h
  proceed-keeps f kf (err e) s h = h
  proceed-keeps f kf panic s h = h

  pub >>=-Keeps :
      (m : Exec S A) (f : A → Exec S B) → Keeps P m → ((a : A) → Keeps P (f a)) → Keeps P (m >>= f)
  unfolding ◌>>=◌
  >>=-Keeps m f km kf s h = proceed-keeps f kf (m s).0 (m s).1 (km s h)

module _ {ℓ} {S A B : Type ℓ} (Q : Result A → S → Type ℓ) (R : Result B → S → Type ℓ) where
  proceed-post :
      (f : A → Exec S B) (r : Result A) (s : S)
      → Q r s
      → ((a : A) (t : S) → Q (ok a) t → R (f a t).0 (f a t).1)
      → ((e : Error) (t : S) → Q (err e) t → R (err e) t)
      → ((t : S) → Q panic t → R panic t)
      → R (proceed f r s).0 (proceed f r s).1
  proceed-post f (ok a) s q next failed crashed = next a s q
  proceed-post f (err e) s q next failed crashed = failed e s q
  proceed-post f panic s q next failed crashed = crashed s q

  -- A postcondition of a block, from one of its first step.
  pub >>=-post :
      (m : Exec S A) (f : A → Exec S B) (s : S)
      → Q (m s).0 (m s).1
      → ((a : A) (t : S) → Q (ok a) t → R (f a t).0 (f a t).1)
      → ((e : Error) (t : S) → Q (err e) t → R (err e) t)
      → ((t : S) → Q panic t → R panic t)
      → R ((m >>= f) s).0 ((m >>= f) s).1
  unfolding ◌>>=◌
  >>=-post m f s = proceed-post f (m s).0 (m s).1

-- `m` returns or fails, and never panics.
abbrev pub IsCalm {ℓ} : {S A : Type ℓ} → Exec S A → Type ℓ
IsCalm {S} m = (s : S) → (m s).0 ≢ panic

module _ {ℓ} {S A B : Type ℓ} where
  proceed-calm :
      (f : A → Exec S B)
      → ((a : A) → IsCalm (f a))
      → (r : Result A) → r ≢ panic
      → (s : S) → (proceed f r s).0 ≢ panic
  proceed-calm f cf (ok a) h s = cf a s
  proceed-calm f cf (err e) h s = λ p. cc
  proceed-calm f cf panic h s = λ p. h refl

  pub >>=-IsCalm :
      (m : Exec S A) (f : A → Exec S B) → IsCalm m → ((a : A) → IsCalm (f a)) → IsCalm (m >>= f)
  unfolding ◌>>=◌
  >>=-IsCalm m f cm cf s = proceed-calm f cf (m s).0 (cm s) (m s).1

module _ {ℓ} {S A : Type ℓ} where
  pub annotate-IsCalm : (f : Error → Error) (m : Exec S A) → IsCalm m → IsCalm (annotate f m)
  unfolding annotate
  annotate-IsCalm f m cm s = reword-calm f (m s).0 (cm s)

  pub pure-IsCalm : (a : A) → IsCalm (pure {S = S} a)
  pure-IsCalm a s = λ p. cc

  pub raise-IsCalm : (e : Error) → IsCalm (raise {S = S} {A = A} e)
  raise-IsCalm e s = λ p. cc

  pub annotate-Keeps :
      (P : S → Type ℓ) (f : Error → Error) (m : Exec S A) → Keeps P m → Keeps P (annotate f m)
  unfolding annotate
  annotate-Keeps P f m km s h = km s h
