-- ===== src/Prelude/Dict.antt =====
-- Go's map with string keys, as an association list with the newest entry first. The program only
-- writes and looks up, so the order of entries and overwritten ones cannot be told.
use Prim.Native.String.{String}
use mathlib.Core.Path.{◌≡◌}
use mathlib.Core.Bool.{Bool, true, false, ◌||◌}
use mathlib.Core.Option.{Option, none, some}
use mathlib.Core.List.{List, [], ◌∷◌}
use native.Mathlib.Omega.{arith}
use text.Mathlib.Text.{◌==◌}
use text.Mathlib.TextEquality.{eq_iff}
use text.Mathlib.TextPositions.{eq_refl}
use ethereum_fetcher.Prelude.Lists.{All, All-map, filter}
use ethereum_fetcher.Prelude.Tests.{if◌then◌else◌}

module _ {ℓ} {V : Type ℓ} where
  -- `m[k]`, with `none` for a key that is not found
  abbrev pub lookup : String → List (String × V) → Option V
  lookup k [] = none
  lookup k ((j, v) ∷ m) = if j == k then some v else lookup k m

  -- `m[k] = v`
  abbrev pub insert : String → V → List (String × V) → List (String × V)
  insert k v m = (k, v) ∷ m

module _ {ℓ} {V : Type ℓ} where
  abbrev pub has_key : String → List (String × V) → Bool
  has_key k m = elim (lookup k m) [ none ↦ false | some _ ↦ true ]

abbrev pub contains : String → List String → Bool
contains k [] = false
contains k (j ∷ js) = j == k || contains k js

pub contains-filter :
    (p : String → Bool) (h : String) (hs : List String)
    → contains h hs ≡ true
    → p h ≡ true
    → contains h (filter p hs) ≡ true
contains-filter p h [] c e = c
contains-filter p h (j ∷ js) c e = ground (arith, eq_iff j h, contains-filter p h js)

pub contains_self : (hs : List String) → All (λ h. contains h hs ≡ true) hs
contains_self [] = tt
contains_self (h ∷ hs) = (
  rw (eq_refl h),
  All-map (λ j. contains j hs ≡ true) (λ j. contains j (h ∷ hs) ≡ true) (λ j e. ground arith) hs
      (contains_self hs),
)
