-- ===== src/Process/Container.antt =====
-- internal/di/setup.go: which constructor gives what, and what it asks for.
pub mod Complete
use ethereum_fetcher.Prelude.{ℕ, Bool, true, false, ◌&&◌, ◌||◌, not, List, [], ◌∷◌, ◌==◌}
use ethereum_fetcher.Exec.{Exec, ◌>>=◌, ◌>>◌}

-- The types that the container knows.
pub data Kind : Type 0 where
  viper router context cancel_func storage_provider ethereum_provider service_provider
        end_point_provider web_server :
      Kind

abbrev pub kind_number : Kind → ℕ
kind_number viper = 0
kind_number router = 1
kind_number context = 2
kind_number cancel_func = 3
kind_number storage_provider = 4
kind_number ethereum_provider = 5
kind_number service_provider = 6
kind_number end_point_provider = 7
kind_number web_server = 8

abbrev pub same : Kind → Kind → Bool
same a b = kind_number a == kind_number b

abbrev pub among : Kind → List Kind → Bool
among a [] = false
among a (b ∷ bs) = same b a || among a bs

-- The constructors of setup.go.
pub data Constructor : Type 0 where
  new_viper new_router new_context_with_cancel new_store new_eth_node new_app_service new_endpoint
        new_web_server :
      Constructor

-- The results of a constructor, an error apart, and its parameters.
abbrev pub gives : Constructor → List Kind
gives new_viper = viper ∷ []
gives new_router = router ∷ []
gives new_context_with_cancel = context ∷ cancel_func ∷ []
gives new_store = storage_provider ∷ []
gives new_eth_node = ethereum_provider ∷ []
gives new_app_service = service_provider ∷ []
gives new_endpoint = end_point_provider ∷ []
gives new_web_server = web_server ∷ []

abbrev pub needs : Constructor → List Kind
needs new_viper = []
needs new_router = []
needs new_context_with_cancel = []
needs new_store = context ∷ viper ∷ []
needs new_eth_node = context ∷ viper ∷ []
needs new_app_service = context ∷ viper ∷ storage_provider ∷ ethereum_provider ∷ []
needs new_endpoint = context ∷ viper ∷ service_provider ∷ []
needs new_web_server = context ∷ router ∷ end_point_provider ∷ []

-- `SetupContainer`, with `container.Provide` of dig; an error ends it
unfoldable pub setup_container :
    {C : Type 0} → (Constructor → Exec C (Unit {0})) → Exec C (Unit {0})
setup_container provide = do
  provide new_viper
  provide new_router
  provide new_context_with_cancel
  provide new_store
  provide new_eth_node
  provide new_app_service
  provide new_endpoint
  provide new_web_server
