-- ===== src/Pg/Paths/Tests.antt =====
-- Where the migrations are looked for.
use ethereum_fetcher.Prelude.{String, ◌≡◌, refl, [], ◌∷◌, arith}
use ethereum_fetcher.Pg.Overlap.{find_longest_overlap}
use ethereum_fetcher.Pg.Paths.{split_path, join_path, remove_overlap}
use ethereum_fetcher.Pg.Paths.Removed.{remove_overlap_lem}

abbrev migrations : String
migrations = "internal/store/pg/migrations"

from_root : remove_overlap "/srv/fetcher" migrations ≡ "/srv/fetcher/internal/store/pg/migrations"
unfolding remove_overlap find_longest_overlap
from_root = refl

from_inside :
    remove_overlap "/srv/fetcher/internal/store" migrations
    ≡ "/srv/fetcher/internal/store/pg/migrations"
unfolding remove_overlap find_longest_overlap
from_inside = refl

-- A component of that name above the checkout is lost.
from_store :
    remove_overlap "/srv/store/fetcher" migrations ≡ "/srv/fetcher/internal/store/pg/migrations"
unfolding remove_overlap find_longest_overlap
from_store = refl

remove_overlap_lem_example :
    remove_overlap "/srv/store/fetcher" migrations
    ≡ join_path ("" ∷ "srv" ∷ "fetcher" ∷ migrations ∷ [])
unfolding split_path
remove_overlap_lem_example =
    remove_overlap_lem "/srv/store/fetcher" migrations ("" ∷ "srv" ∷ []) ("store" ∷ [])
      ("fetcher" ∷ []) ("internal" ∷ []) ("pg" ∷ "migrations" ∷ []) refl refl (omega arith)
      (refl, (refl, tt)) (refl, tt)
