-- ===== src/Pg/Links/Loading.antt =====
-- LoadUsers and LoadTXHashTransactions, which read the relations of several rows at once, from where
-- they have found which rows they are given, a `Target`.
pub mod Given
pub mod Attached
pub mod Loaded
pub mod Sliced
use ethereum_fetcher.Prelude.{
  ℕ, suc, String, Bool, true, false, Option, none, some, List, [], ◌∷◌, ◌++◌, map, length, ◌==◌,
  if◌then◌else◌,
}
use ethereum_fetcher.Result.{Result, ok, wrapped, ◌+++◌}
use ethereum_fetcher.Exec.{Exec, pure, annotate, ◌>>=◌, ◌>>◌}
use ethereum_fetcher.Pg.Rows.Boiler.{Mod, select, from, inner_join, where_in}
use ethereum_fetcher.Pg.Rows.Session.{lift}
use ethereum_fetcher.Pg.Links.Graph.{
  Graph, Results, Link, assign, append_rel, on_models, on_foreign,
}
use ethereum_fetcher.Pg.Links.Related.{append_to_each}

-- `singular`, or a slice
pub data Target : Type 0 where
  single : ℕ → Target
  slice : List ℕ → Target

abbrev pub locals_of : Target → List ℕ
locals_of (single o) = o ∷ []
locals_of (slice os) = os

-- `if obj.R == nil { obj.R = &R{} }`
abbrev pub or_empty : Option (List ℕ) → Option (List ℕ)
or_empty none = some []
or_empty (some xs) = some xs

module _ {M L F K : Type 0} (link : Link M L F K) where
  pub ensure_each : List ℕ → Graph M L F → Graph M L F
  ensure_each [] g = g
  ensure_each (o ∷ os) g =
      ensure_each os (record g { local_rel = assign o (or_empty (g.local_rel o)) g.local_rel })

  -- the keys of `args`
  abbrev pub is_arg : K → List K → Bool
  is_arg k [] = false
  is_arg k (j ∷ js) = if link.same_key j k then true else is_arg k js

  abbrev pub args_of : List ℕ → Graph M L F → List K
  args_of [] g = []
  args_of (o ∷ os) g =
      let k = link.local_key (g.locals o) in
      let ks = args_of os g in if is_arg k ks then ks else k ∷ ks

  abbrev load_query : List K → List Mod
  load_query args =
      select link.load_columns
      ∷ from ("\"" +++ link.foreign_plural +++ "\"")
      ∷ inner_join link.load_join
      ∷ where_in ("\"a\".\"" +++ link.local_column +++ "\" in ?")
          (map link.key_value (link.map_order args))
      ∷ []

  -- `if mods != nil { mods.Apply(query) }`
  abbrev applied : Option (List Mod → List Mod) → List Mod → List Mod
  applied none query = query
  applied (some apply) query = apply query

  -- `one := new(...)`, with what `Scan` fills in
  abbrev allocate : F → Exec (Graph M L F) ℕ
  allocate one g = (
    ok g.next_foreign,
    record g {
      foreigns = assign g.next_foreign one g.foreigns;
      foreign_rel = assign g.next_foreign none g.foreign_rel;
      next_foreign = suc g.next_foreign;
    },
  )

  -- the loop on `results.Next()`
  pub read_entries : List (Result (F × K) × Result (Unit {0})) → Exec (Graph M L F) (List (ℕ × K))
  read_entries [] = pure []
  read_entries ((scan, problem) ∷ entries) = do
    (one, local_join_col) ←
        annotate (wrapped ("failed to scan eager loaded results for " +++ link.foreign_plural))
          (lift scan)
    annotate (wrapped ("failed to plebian-bind eager loaded slice " +++ link.foreign_plural))
        (lift problem)
    foreign ← allocate one
    rows ← read_entries entries
    pure ((foreign, local_join_col) ∷ rows)

  pub hooks_on_each : List (ℕ × K) → Exec (Graph M L F) (Unit {0})
  hooks_on_each [] = pure tt
  hooks_on_each ((foreign, local_join_col) ∷ rows) = do
    on_foreign foreign link.run_select_hooks
    hooks_on_each rows

  -- from the query to the hooks
  pub fetch_related : Option (List Mod → List Mod) → List K → Exec (Graph M L F) (List (ℕ × K))
  unfolding read_entries hooks_on_each
  fetch_related mods args = do
    results ←
        annotate (wrapped ("failed to eager load " +++ link.foreign_plural))
          (on_models (link.query_context (applied mods (load_query args))))
    rows ← read_entries results.entries
    annotate (wrapped ("failed to close results in eager load on " +++ link.foreign_plural))
        (lift results.close)
    annotate
        (wrapped (
          "error occurred during iteration of eager loaded relations for " +++ link.foreign_plural))
        (lift results.final)
    (if link.has_select_hooks then hooks_on_each rows else pure tt)
    pure rows

  -- the first row of the slice with the key
  pub first_with : K → List ℕ → Graph M L F → Option ℕ
  first_with col [] g = none
  first_with col (o ∷ os) g =
      if link.same_key (link.local_key (g.locals o)) col then some o else first_with col os g

  abbrev pub attach : Option ℕ → ℕ → Graph M L F → Graph M L F
  attach none foreign g = g
  attach (some o) foreign g = record g {
    local_rel = assign o (append_rel (foreign ∷ []) (g.local_rel o)) g.local_rel;
    foreign_rel = assign foreign (append_rel (o ∷ []) (g.foreign_rel foreign)) g.foreign_rel;
  }

  -- the nested loops at the end
  pub attach_each : List ℕ → List (ℕ × K) → Graph M L F → Graph M L F
  unfolding first_with
  attach_each os [] g = g
  attach_each os ((foreign, local_join_col) ∷ rows) g =
      attach_each os rows (attach (first_with local_join_col os g) foreign g)

  pub attach_all : Target → List (ℕ × K) → Graph M L F → Graph M L F
  unfolding attach_each
  attach_all (single o) rows g =
      let related = map (λ r. r.0) rows in
      append_to_each link o related (record g { local_rel = assign o (some related) g.local_rel })
  attach_all (slice os) rows g = attach_each os rows g

  unfoldable pub load_related :
      Target → Option (List Mod → List Mod) → Exec (Graph M L F) (Unit {0})
  unfolding ensure_each fetch_related attach_all
  load_related target mods g =
      let g' = ensure_each (locals_of target) g in
      let args = args_of (locals_of target) g' in
      if length args == 0
      then (ok tt, g')
      else (do rows ← fetch_related mods args; λ g''. (ok tt, attach_all target rows g'')) g'
