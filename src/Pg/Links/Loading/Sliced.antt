-- ===== src/Pg/Links/Loading/Sliced.antt =====
-- An eager load of what an `interface{}` holds.
use ethereum_fetcher.Prelude.{ℕ, ◌≡◌, ◌⊎◌, none, some, List}
use ethereum_fetcher.Pg.Links.Graph.{Graph}
use ethereum_fetcher.Pg.Links.Loading.Given.{Reflected}

-- The value is a slice of rows, or it is none and embeds one.
abbrev pub Holds : Reflected → List ℕ → Type 0
Holds maybe os =
    (maybe.as_slice ≡ some os) ⊎ ((maybe.as_slice ≡ none) × (maybe.embedded_slice ≡ some os))
