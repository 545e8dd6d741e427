-- ===== src/Pg/Links/Loading/Given.antt =====
-- The head of LoadUsers and LoadTXHashTransactions, which takes the rows out of an `interface{}`.
use ethereum_fetcher.Prelude.{ℕ, String, Bool, true, false, Option, none, some, List}
use ethereum_fetcher.Result.{Result, ok, err, text, ◌+++◌}
use ethereum_fetcher.Exec.{Exec, proceed}
use ethereum_fetcher.Pg.Rows.Boiler.{Mod}
use ethereum_fetcher.Pg.Links.Graph.{Graph, Link}
use ethereum_fetcher.Pg.Links.Loading.{Target, single, slice, load_related}

-- What reflection tells of an `interface{}`: the results of the type assertions to a row and to a
-- slice of rows, what `queries.SetFromEmbeddedStruct` sets a row and a slice to where it returns
-- true, and `%T`. No pointer to a row is nil.
pub record Reflected : Type 0 where
  pub as_row : Option ℕ
  pub as_slice : Option (List ℕ)
  pub embedded_row : Option ℕ
  pub embedded_slice : Option (List ℕ)
  pub type_name : String

-- `errors.New(fmt.Sprintf("failed to set %T from embedded struct %T", ...))`
abbrev not_embedded : (wanted : String) → Reflected → Result Target
not_embedded wanted maybe =
    err (text ("failed to set " +++ wanted +++ " from embedded struct " +++ maybe.type_name))

or_embedded :
    {A : Type 0} → (A → Target) → (asserted embedded : Option A) → Result Target → Result Target
or_embedded target (some a) embedded failure = ok (target a)
or_embedded target none (some a) failure = ok (target a)
or_embedded target none none failure = failure

unfoldable pub target_of : (row_type : String) (singular : Bool) → Reflected → Result Target
unfolding or_embedded
target_of row_type true maybe =
    or_embedded single maybe.as_row maybe.embedded_row (not_embedded ("*" +++ row_type) maybe)
target_of row_type false maybe =
    or_embedded slice maybe.as_slice maybe.embedded_slice (not_embedded ("[]*" +++ row_type) maybe)

module _ {M L F K : Type 0} (link : Link M L F K) where
  unfoldable pub eager_load :
      (singular : Bool) → Reflected → Option (List Mod → List Mod) → Exec (Graph M L F) (Unit {0})
  unfolding target_of
  eager_load singular maybe mods =
      proceed (λ target. load_related link target mods) (target_of link.local_type singular maybe)
