-- ===== src/Proxy/Clients/Tests.antt =====
-- A request that was resolved before a reload and one after it.
use easy_docker_proxy.Base.{
  ℕ, ◌≡◌, refl, sym, ◌∙◌, [], ◌∷◌, In, head, tail, codes, if◌then◌else◌, ◌==◌,
}
use easy_docker_proxy.Config.{Config, RegistryConfig}
use easy_docker_proxy.Config.Validate.Tests.{config, registry}
use easy_docker_proxy.Proxy.Clients.{
  Clients, get_client, swap_clients, new_clients, started, got, swapped,
}
use easy_docker_proxy.Proxy.Clients.Own.{get_client-Own}

abbrev hub : RegistryConfig
hub = registry (codes "hub") (codes "https://registry-1.docker.io") []

abbrev mirror : RegistryConfig
mirror = registry (codes "hub") (codes "https://mirror") []

-- The second configuration and all later ones have the mirror.
abbrev configs : ℕ → Config
configs g = config [] ((if g == 1 then hub else mirror) ∷ [])

same_entry : (x r s : RegistryConfig) → In r (x ∷ []) → In s (x ∷ []) → r ≡ s
same_entry x r s (head e) (head f) = e ∙ sym f
same_entry x r s (head e) (tail j) = elim j [ ]
same_entry x r s (tail i) j = elim i [ ]

distinct :
    (g : ℕ) (r s : RegistryConfig)
    → In r (configs g).registries
    → In s (configs g).registries
    → r.name ≡ s.name
    → r ≡ s
distinct g r s i j e = same_entry (if g == 1 then hub else mirror) r s i j

-- The cache after a reload that a request of the first generation has outlived.
abbrev outlived : Clients
outlived = (get_client (swap_clients (new_clients 1) 2) hub (configs 1) 1).0

get_client-Own_example :
    (get_client outlived mirror (configs 2) 2).1 ≡ record { reg = mirror; cfg = configs 2 }
get_client-Own_example =
    get_client-Own configs outlived mirror 2 (got hub 1 (head refl) (swapped 2 started)) distinct
      (head refl)
