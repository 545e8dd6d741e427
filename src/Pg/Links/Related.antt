-- ===== src/Pg/Links/Related.antt =====
-- AddUsers, SetUsers, RemoveUsers and removeUsersFromTXHashTransactionsSlice, and those of users.
pub mod Each
pub mod Replaced
use ethereum_fetcher.Prelude.{
  ℕ, String, Bool, Option, none, some, List, [], ◌∷◌, length, ◌==◌, if◌then◌else◌,
}
use ethereum_fetcher.Result.{ok, wrapped, ◌+++◌}
use ethereum_fetcher.Exec.{Exec, pure, annotate, ◌>>=◌, ◌>>◌}
use ethereum_fetcher.Pg.Database.{Value}
use ethereum_fetcher.Pg.Links.Graph.{Graph, Link, assign, append_rel, on_models, on_foreign}
use ethereum_fetcher.Pg.Links.Slices.{remove_first}

module _ {M L F K : Type 0} (link : Link M L F K) where
  -- `if insert { rel.Insert(...) }` for each
  pub insert_related : Bool → List ℕ → Exec (Graph M L F) (Unit {0})
  insert_related insert [] = pure tt
  insert_related insert (rel ∷ related) = do
    (if insert
        then annotate (wrapped "failed to insert into foreign table")
            (on_foreign rel link.insert_foreign)
        else pure tt)
    insert_related insert related

  pub join_statement : String
  join_statement =
      "insert into \"user_transactions\" (\"" +++ link.local_column +++ "\", \""
      +++ link.foreign_column +++ "\") values ($1, $2)"

  abbrev pub own_value : ℕ → Graph M L F → Value
  own_value o g = link.key_value (link.local_key (g.locals o))

  pub link_related : ℕ → List ℕ → Exec (Graph M L F) (Unit {0})
  unfolding join_statement
  link_related o [] = pure tt
  link_related o (rel ∷ related) = do
    λ g.
        annotate (wrapped "failed to insert into join table")
          (on_models (
            link.exec_context join_statement
              (own_value o g ∷ link.foreign_value (g.foreigns rel) ∷ [])))
          g
    link_related o related

  -- the last loop of AddUsers
  pub append_to_each : ℕ → List ℕ → Graph M L F → Graph M L F
  append_to_each o [] g = g
  append_to_each o (rel ∷ related) g = append_to_each o related (record g {
    foreign_rel = assign rel (append_rel (o ∷ []) (g.foreign_rel rel)) g.foreign_rel;
  })

  pub append_related : ℕ → List ℕ → Exec (Graph M L F) (Unit {0})
  unfolding append_to_each
  append_related o related g = (
    ok tt,
    append_to_each o related
        (record g { local_rel = assign o (append_rel related (g.local_rel o)) g.local_rel }),
  )

  pub add_related : Bool → ℕ → List ℕ → Exec (Graph M L F) (Unit {0})
  unfolding insert_related link_related append_related
  add_related insert o related = do
    insert_related insert related
    link_related o related
    append_related o related

  -- `o.TXHash != ri.TXHash` is the test that the loop goes on by
  abbrev pub has_key_of : ℕ → Graph M L F → ℕ → Bool
  has_key_of o g ri = link.same_key (link.local_key (g.locals o)) (link.local_key (g.locals ri))

  abbrev pub remove_rel : (ℕ → Bool) → Option (List ℕ) → Option (List ℕ)
  remove_rel p none = none
  remove_rel p (some xs) = some (remove_first p xs)

  -- `removeUsersFromTXHashTransactionsSlice`
  pub remove_from_each : ℕ → List ℕ → Graph M L F → Graph M L F
  remove_from_each o [] g = g
  remove_from_each o (rel ∷ related) g = remove_from_each o related (record g {
    foreign_rel = assign rel (remove_rel (has_key_of o g) (g.foreign_rel rel)) g.foreign_rel;
  })

  pub delete_links : ℕ → String → List Value → Exec (Graph M L F) (Unit {0})
  delete_links o condition values g =
      annotate (wrapped "failed to remove relationships before set")
        (on_models (
          link.exec_context
            ("delete from \"user_transactions\" where \"" +++ link.local_column +++ "\" = $1"
              +++ condition)
            (own_value o g ∷ values)))
        g

  abbrev pub cleared : Option (List ℕ) → Option (List ℕ)
  cleared none = none
  cleared (some xs) = some []

  abbrev pub clear_links : ℕ → List ℕ → Exec (Graph M L F) (Unit {0})
  clear_links o related g =
      let g' = remove_from_each o related g in
      (ok tt, record g' { local_rel = assign o (cleared (g'.local_rel o)) g'.local_rel })

  -- `SetUsers`
  unfoldable pub set_related : Bool → ℕ → List ℕ → Exec (Graph M L F) (Unit {0})
  unfolding delete_links remove_from_each add_related
  set_related insert o related = do
    delete_links o "" []
    clear_links o related
    add_related insert o related

  -- the loop over `related` at the end of RemoveUsers
  pub remove_each : List ℕ → List ℕ → List ℕ
  remove_each [] xs = xs
  remove_each (rel ∷ related) xs = remove_each related (remove_first (λ ri. rel == ri) xs)

  abbrev values_of : List ℕ → Graph M L F → List Value
  values_of [] g = []
  values_of (rel ∷ related) g = link.foreign_value (g.foreigns rel) ∷ values_of related g

  abbrev drop_links : ℕ → List ℕ → Exec (Graph M L F) (Unit {0})
  drop_links o related g =
      let g' = remove_from_each o related g in
      (
        ok tt,
        elim (g'.local_rel o) [
          | none ↦ g'
          | some xs ↦ record g' {
            local_rel = assign o (some (remove_each related xs)) g'.local_rel;
          }
        ],
      )

  -- `RemoveUsers`
  pub remove_related : ℕ → List ℕ → Exec (Graph M L F) (Unit {0})
  unfolding delete_links remove_from_each remove_each
  remove_related o [] = pure tt
  remove_related o (rel ∷ related) = do
    λ g.
        delete_links o
          (" and \""
            +++ link.foreign_column
            +++ "\" in ("
            +++ link.placeholders (length (rel ∷ related)) 2 1
            +++ ")")
          (values_of (rel ∷ related) g) g
    drop_links o (rel ∷ related)
