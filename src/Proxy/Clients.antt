-- ===== src/Proxy/Clients.antt =====
-- internal/proxy/proxy.go: the cache of HTTP clients, `getClient` and the second half of `Reload`.
--
-- A client is what it is made from. Requests and reloads interleave: `configs` is the configuration
-- of each generation, a request carries the generation that it was resolved in, and a reload swaps
-- the cache some time after its generation has begun.
pub mod Own
mod Tests
use easy_docker_proxy.Base.{
  ℕ, Bool, Option, none, some, ◌==◌, if◌then◌else◌, Str, List, In, Dict, empty, insert,
}
use easy_docker_proxy.Config.{Config, RegistryConfig}

pub record Client : Type 0 where
  pub reg : RegistryConfig
  pub cfg : Config

pub record Clients : Type 0 where
  pub client_generation : ℕ
  pub clients : Dict Client

abbrev pub new_clients : ℕ → Clients
new_clients generation = record { client_generation = generation; clients = empty }

-- The end of `getClient` on what the cache has.
abbrev pub found_or_made : Clients → RegistryConfig → Config → ℕ → Option Client → Clients × Client
found_or_made c reg cfg generation (some client) = (c, client)
found_or_made c reg cfg generation none =
    let made : Client = record { reg = reg; cfg = cfg } in
    (
      (if generation == c.client_generation
          then record c { clients = insert reg.name made c.clients }
          else c),
      made,
    )

unfoldable pub get_client : Clients → RegistryConfig → Config → ℕ → Clients × Client
get_client c reg cfg generation =
    found_or_made c reg cfg generation
      (if generation == c.client_generation then c.clients reg.name else none)

unfoldable pub swap_clients : Clients → ℕ → Clients
swap_clients c generation = new_clients generation

-- What can have happened to the cache since `New`.
pub data Reached (configs : ℕ → Config) : Clients → Type 0 where
  started : Reached configs (new_clients 1)
  got :
      {c : Clients} (reg : RegistryConfig) (generation : ℕ)
      → In reg (configs generation).registries
      → Reached configs c
      → Reached configs (get_client c reg (configs generation) generation).0
  swapped :
      {c : Clients} (generation : ℕ)
      → Reached configs c
      → Reached configs (swap_clients c generation)
