-- ===== src/Proxy/Clients/Own.antt =====
-- Every request gets a client of its own configuration.
use easy_docker_proxy.Base.{
  ℕ, ◌≡◌, refl, sym, ap, ap₂, subst, ◌∙◌, Option, none, some, ◌==◌, ==_iff, if◌then◌else◌, Str,
  str_eq, str_eq_iff, In, Bool-cases, Option-cases, inl, inr, insert,
}
use easy_docker_proxy.Config.{Config, RegistryConfig}
use easy_docker_proxy.Proxy.Clients.{
  Client, Clients, new_clients, found_or_made, get_client, swap_clients, Reached, started, got,
  swapped,
}

-- The cached clients are made from the configuration of the cache's generation, each under the name
-- of its registry.
abbrev Fresh : (ℕ → Config) → Clients → Type 0
Fresh configs c =
    (name : Str) (client : Client)
    → c.clients name ≡ some client
    → (client.cfg ≡ configs c.client_generation)
      × (In client.reg (configs c.client_generation).registries × (client.reg.name ≡ name))

abbrev client_of : RegistryConfig → Config → Client
client_of reg cfg = record { reg = reg; cfg = cfg }

insert-Fresh :
    (configs : ℕ → Config) (c : Clients) (reg : RegistryConfig) (generation : ℕ)
    → In reg (configs generation).registries
    → generation ≡ c.client_generation
    → Fresh configs c
    → Fresh configs (record c {
      clients = insert reg.name (record { reg = reg; cfg = configs generation }) c.clients;
    })
insert-Fresh configs c reg generation i g f name client e =
    elim (Bool-cases (str_eq reg.name name)) [
      | inl y ↦
          let entry : some (client_of reg (configs generation)) ≡ some client = rw y at e in
          let same : client_of reg (configs generation) ≡ client = cc in
          (
            ap (λ x. x.cfg) (sym same) ∙ ap configs g,
            (
              subst (λ k. In client.reg (configs k).registries) g
                  (subst (λ x. In x (configs generation).registries) (ap (λ x. x.reg) same) i),
              ap (λ x. x.reg.name) (sym same) ∙ (str_eq_iff reg.name name).0 y,
            ),
          )
      | inr n ↦ f name client (rw n at e)
    ]

found_or_made-Fresh :
    (configs : ℕ → Config) (c : Clients) (reg : RegistryConfig) (generation : ℕ) (o : Option Client)
    → In reg (configs generation).registries
    → Fresh configs c
    → Fresh configs (found_or_made c reg (configs generation) generation o).0
found_or_made-Fresh configs c reg generation (some client) i f = f
found_or_made-Fresh configs c reg generation none i f =
    elim (Bool-cases (generation == c.client_generation)) [
      | inl y ↦
          rw y (
            insert-Fresh configs c reg generation i ((==_iff generation c.client_generation).0 y) f)
      | inr n ↦ rw n f
    ]

new_clients-Fresh : (configs : ℕ → Config) (generation : ℕ) → Fresh configs (new_clients generation)
new_clients-Fresh configs generation name client e = cc

Reached-Fresh : (configs : ℕ → Config) {c : Clients} → Reached configs c → Fresh configs c
unfolding get_client swap_clients
Reached-Fresh configs started = new_clients-Fresh configs 1
Reached-Fresh configs (got {c = c} reg generation i r) =
    found_or_made-Fresh configs c reg generation
      (if generation == c.client_generation then c.clients reg.name else none) i
      (Reached-Fresh configs r)
Reached-Fresh configs (swapped generation r) = new_clients-Fresh configs generation

-- Where the registries of every generation have different names, a request gets a client that is
-- made from its own registry and from the configuration that it was resolved in, however other
-- requests and reloads, finished or not, have come before it.
pub get_client-Own :
    (configs : ℕ → Config) (c : Clients) (reg : RegistryConfig) (generation : ℕ)
    → Reached configs c
    → ((g : ℕ) (r s : RegistryConfig)
        → In r (configs g).registries
        → In s (configs g).registries
        → r.name ≡ s.name
        → r ≡ s)
    → In reg (configs generation).registries
    → (get_client c reg (configs generation) generation).1
      ≡ record { reg = reg; cfg = configs generation }
unfolding get_client
get_client-Own configs c reg generation r distinct i =
    elim (Bool-cases (generation == c.client_generation)) [
      | inl y ↦ elim (Option-cases (c.clients reg.name)) [
        | inl none_there ↦ rw (y, none_there) refl
        | inr (client, e) ↦
            let (cfg, (there, name)) = Reached-Fresh configs r reg.name client e in
            let g = (==_iff generation c.client_generation).0 y in
            let mine =
              distinct c.client_generation client.reg reg there
                (subst (λ k. In reg (configs k).registries) g i) name in
            rw (y, e) (ap₂ client_of mine (cfg ∙ ap configs (sym g)))
      ]
      | inr n ↦ rw n refl
    ]
