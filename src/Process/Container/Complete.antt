-- ===== src/Process/Container/Complete.antt =====
-- What the container can build.
use ethereum_fetcher.Prelude.{
  ℕ, suc, ◌≡◌, refl, sym, ap, subst, ◌∙◌, Bool, true, false, ◌&&◌, ◌||◌, not, List, [], ◌∷◌, ltb,
  ◌==◌, if◌then◌else◌,
}
use ethereum_fetcher.Result.{ok}
use ethereum_fetcher.Exec.{Exec}
use ethereum_fetcher.Exec.Rules.{>>=-ok}
use ethereum_fetcher.Process.Container.{
  Kind, Constructor, among, gives, needs, setup_container, new_viper, new_router,
  new_context_with_cancel, new_store, new_eth_node, new_app_service, new_endpoint, new_web_server,
  viper, router, context, cancel_func, storage_provider, ethereum_provider, service_provider,
  end_point_provider, web_server,
}

abbrev any : {A : Type 0} → (A → Bool) → List A → Bool
any p [] = false
any p (x ∷ xs) = p x || any p xs

-- A constructor among `cs` gives the type.
abbrev pub given : Kind → List Constructor → Bool
given k cs = any (λ c. among k (gives c)) cs

-- Something that `c` gives is given by a constructor among `cs`.
abbrev pub clashes : Constructor → List Constructor → Bool
clashes c cs = any (λ k. given k cs) (gives c)

abbrev pub asks_of : Constructor → Constructor → Bool
asks_of c b = any (λ k. among k (gives b)) (needs c)

-- Constructors ask only for what constructors of a lower rank give.
abbrev pub climbs : (Constructor → ℕ) → List Constructor → List Constructor → Bool
climbs rank all [] = true
climbs rank all (c ∷ cs) =
    not (any (λ b. asks_of c b && not (ltb (rank b) (rank c))) all) && climbs rank all cs

-- Constructors that ask for one another in no circle.
pub record IsAcyclic (cs : List Constructor) : Type 0 where
  pub rank : Constructor → ℕ
  pub climbing : climbs rank cs cs ≡ true

-- What dig documents of `Provide`: a constructor that gives no type twice and closes no circle is
-- taken, and then what has been provided is that constructor and what was before.
pub record Provides {C : Type 0} (provide : Constructor → Exec C (Unit {0}))
    (provided : C → List Constructor) : Type 0 where
  pub taken :
      (c : Constructor) (s : C)
      → clashes c (provided s) ≡ false
      → IsAcyclic (c ∷ provided s)
      → (s' : C) × (provide c s ≡ (ok tt, s')) × (provided s' ≡ c ∷ provided s)

abbrev number_of : Constructor → ℕ
number_of new_viper = 0
number_of new_router = 1
number_of new_context_with_cancel = 2
number_of new_store = 3
number_of new_eth_node = 4
number_of new_app_service = 5
number_of new_endpoint = 6
number_of new_web_server = 7

abbrev pub is_provided : Constructor → List Constructor → Bool
is_provided c cs = any (λ b. number_of b == number_of c) cs

-- What can be built with the constructors `cs`: a type that one of them gives, when all that it asks
-- for can be built.
mutual
  pub data Buildable (cs : List Constructor) : Kind → Type 0 where
    built :
        (c : Constructor) (k : Kind)
        → is_provided c cs ≡ true
        → among k (gives c) ≡ true
        → AllBuildable cs (needs c)
        → Buildable cs k

  pub data AllBuildable (cs : List Constructor) : List Kind → Type 0 where
    nothing : AllBuildable cs []
    also :
        (k : Kind) (ks : List Kind) → Buildable cs k → AllBuildable cs ks → AllBuildable cs (k ∷ ks)

-- How many constructors give the type.
abbrev pub givers : Kind → List Constructor → ℕ
givers k [] = 0
givers k (c ∷ cs) = if among k (gives c) then suc (givers k cs) else givers k cs

-- all constructors, the last one first
abbrev pub all : List Constructor
all =
    new_web_server ∷ new_endpoint ∷ new_app_service ∷ new_eth_node ∷ new_store
    ∷ new_context_with_cancel ∷ new_router ∷ new_viper ∷ []

a_viper : Buildable all viper
a_viper = built new_viper viper refl refl nothing

a_context : Buildable all context
a_context = built new_context_with_cancel context refl refl nothing

-- what asks for a context and a configuration first
with_both : (ks : List Kind) → AllBuildable all ks → AllBuildable all (context ∷ viper ∷ ks)
with_both ks rest = also context (viper ∷ ks) a_context (also viper ks a_viper rest)

a_service : Buildable all service_provider
a_service = built new_app_service service_provider refl refl (
    with_both _ (
      also storage_provider _ (built new_store storage_provider refl refl (with_both _ nothing)) (
        also ethereum_provider _
          (built new_eth_node ethereum_provider refl refl (with_both _ nothing)) nothing)))

an_end_point : Buildable all end_point_provider
an_end_point =
    built new_endpoint end_point_provider refl refl
      (with_both _ (also service_provider _ a_service nothing))

all_built : (k : Kind) → Buildable all k × (givers k all ≡ 1)
all_built viper = (a_viper, refl)
all_built router = (built new_router router refl refl nothing, refl)
all_built context = (a_context, refl)
all_built cancel_func = (built new_context_with_cancel cancel_func refl refl nothing, refl)
all_built storage_provider =
    (built new_store storage_provider refl refl (with_both _ nothing), refl)
all_built ethereum_provider =
    (built new_eth_node ethereum_provider refl refl (with_both _ nothing), refl)
all_built service_provider = (a_service, refl)
all_built end_point_provider = (an_end_point, refl)
all_built web_server = (
  built new_web_server web_server refl refl (
      also context _ a_context (
        also router _ (built new_router router refl refl nothing)
          (also end_point_provider _ an_end_point nothing))),
  refl,
)

-- the order in which the constructors are provided
acyclic : (cs : List Constructor) → climbs number_of cs cs ≡ true → IsAcyclic cs
acyclic cs climbing = record { rank = number_of; climbing = climbing }

module _ {C : Type 0} (provide : Constructor → Exec C (Unit {0})) (provided : C → List Constructor)
    (provides : Provides provide provided) where
  -- one call, from a list that is known
  next :
      (c : Constructor) (cs : List Constructor) (s : C)
      → provided s ≡ cs
      → clashes c cs ≡ false
      → climbs number_of (c ∷ cs) (c ∷ cs) ≡ true
      → (s' : C) × (provide c s ≡ (ok tt, s')) × (provided s' ≡ c ∷ cs)
  next c cs s e new climbing =
      let (s', ran, now) =
        provides.taken c s (subst (λ l. clashes c l ≡ false) (sym e) new)
          (subst (λ l. IsAcyclic (c ∷ l)) (sym e) (acyclic (c ∷ cs) climbing)) in
      (s', ran, now ∙ ap (λ l. c ∷ l) e)

  -- When dig takes what it documents that it takes, SetupContainer returns no error on an empty
  -- container, and afterwards each type of the program can be built and is given by one constructor
  -- only.
  pub setup_container-Buildable :
      (s : C)
      → provided s ≡ []
      → (s' : C) × (setup_container provide s ≡ (ok tt, s'))
        × ((k : Kind) → Buildable (provided s') k × (givers k (provided s') ≡ 1))
  unfolding setup_container
  setup_container-Buildable s e =
      let (s₁, p₁, e₁) = next new_viper _ s e refl refl in
      let (s₂, p₂, e₂) = next new_router _ s₁ e₁ refl refl in
      let (s₃, p₃, e₃) = next new_context_with_cancel _ s₂ e₂ refl refl in
      let (s₄, p₄, e₄) = next new_store _ s₃ e₃ refl refl in
      let (s₅, p₅, e₅) = next new_eth_node _ s₄ e₄ refl refl in
      let (s₆, p₆, e₆) = next new_app_service _ s₅ e₅ refl refl in
      let (s₇, p₇, e₇) = next new_endpoint _ s₆ e₆ refl refl in
      let (s₈, p₈, e₈) = next new_web_server _ s₇ e₇ refl refl in
      (
        s₈,
        >>=-ok _ _ s p₁
            ∙ >>=-ok _ _ s₁ p₂
            ∙ >>=-ok _ _ s₂ p₃
            ∙ >>=-ok _ _ s₃ p₄
            ∙ >>=-ok _ _ s₄ p₅
            ∙ >>=-ok _ _ s₅ p₆
            ∙ >>=-ok _ _ s₆ p₇
            ∙ p₈,
        rw e₈ all_built,
      )
