-- ===== src/Proxy/Routes/Table.antt =====
-- The path routes that `buildRoutes` makes are those of the enabled registries' prefixes.
use easy_docker_proxy.Base.{
  ◌≡◌, refl, sym, ap, subst, ◌∙◌, ◌⊎◌, inl, inr, true, false, List, [], ◌∷◌, length, Bool-cases, In,
  In-append, In-append_left, In-append_right, head, tail, Str, is_empty,
}
use easy_docker_proxy.Config.{Config, RegistryConfig, is_enabled}
use easy_docker_proxy.Proxy.Routes.{
  PathRoute, Routes, clean_prefix, prefix_routes, add_registry, add_registries, no_routes,
  build_routes,
}
use easy_docker_proxy.Proxy.Routes.Sorting.{longest_first-In}

-- An enabled registry of the list has the prefix, as it is cleaned up.
pub record Serves (regs : List RegistryConfig) (reg : RegistryConfig) (pre : Str) : Type 0 where
  pub configured : In reg regs
  pub enabled : is_enabled reg.enabled ≡ true
  pub raw : Str
  pub listed : In raw reg.path_prefixes
  pub cleaned : clean_prefix raw ≡ pre
  pub given : is_empty pre ≡ false

-- Where a route of one registry comes from.
record FromPrefix (r : RegistryConfig) (prefixes : List Str) (pr : PathRoute) : Type 0 where
  owner : pr.reg ≡ r
  raw : Str
  listed : In raw prefixes
  cleaned : clean_prefix raw ≡ pr.prefix
  given : is_empty pr.prefix ≡ false

prefix_routes-FromPrefix :
    (r : RegistryConfig) (prefixes : List Str) (pr : PathRoute)
    → In pr (prefix_routes r prefixes)
    → FromPrefix r prefixes pr
prefix_routes-FromPrefix r [] pr i = elim i [ ]
prefix_routes-FromPrefix r (pref ∷ prefixes) pr i =
    elim (Bool-cases (is_empty (clean_prefix pref))) [
      | inl blank ↦ later (prefix_routes-FromPrefix r prefixes pr (rw blank at i))
      | inr given ↦ here given (rw given at i) (prefix_routes-FromPrefix r prefixes pr)
    ]
  where
    later : FromPrefix r prefixes pr → FromPrefix r (pref ∷ prefixes) pr
    later f = record {
      owner = f.owner;
      raw = f.raw;
      listed = tail f.listed;
      cleaned = f.cleaned;
      given = f.given;
    }

    here :
        is_empty (clean_prefix pref) ≡ false
        → In pr (record { prefix = clean_prefix pref; reg = r } ∷ prefix_routes r prefixes)
        → (In pr (prefix_routes r prefixes) → FromPrefix r prefixes pr)
        → FromPrefix r (pref ∷ prefixes) pr
    here g (head e) f = record {
      owner = ap (λ (p : PathRoute). p.reg) e;
      raw = pref;
      listed = head refl;
      cleaned = sym (ap (λ (p : PathRoute). p.prefix) e);
      given = ap (λ (p : PathRoute). is_empty p.prefix) e ∙ g;
    }
    here g (tail j) f = later (f j)

In-prefix_routes :
    (r : RegistryConfig) (prefixes : List Str) (raw : Str)
    → In raw prefixes
    → is_empty (clean_prefix raw) ≡ false
    → In (record { prefix = clean_prefix raw; reg = r }) (prefix_routes r prefixes)
In-prefix_routes r [] raw i g = elim i [ ]
In-prefix_routes r (pref ∷ prefixes) raw (head e) g =
    let g' : is_empty (clean_prefix pref) ≡ false = rw (← e) g in
    rw g' (head (ap (λ x. record { prefix = clean_prefix x; reg = r }) e))
In-prefix_routes r (pref ∷ prefixes) raw (tail i) g =
    let rest = In-prefix_routes r prefixes raw i g in
    elim (Bool-cases (is_empty (clean_prefix pref))) [
      | inl blank ↦ rw blank rest
      | inr given ↦ rw given (tail rest)
    ]

Serves-tail :
    {r reg : RegistryConfig} {regs : List RegistryConfig} {pre : Str}
    → Serves regs reg pre
    → Serves (r ∷ regs) reg pre
Serves-tail s = record {
  configured = tail s.configured;
  enabled = s.enabled;
  raw = s.raw;
  listed = s.listed;
  cleaned = s.cleaned;
  given = s.given;
}

abbrev Origin : List RegistryConfig → Routes → PathRoute → Type 0
Origin regs t pr = In pr t.paths ⊎ Serves regs pr.reg pr.prefix

add_registry-Origin :
    (d : Str) (r : RegistryConfig) (regs : List RegistryConfig) (t : Routes) (pr : PathRoute)
    → In pr (add_registry d r t).paths
    → Origin (r ∷ regs) t pr
add_registry-Origin d r regs t pr i = elim (Bool-cases (is_enabled r.enabled)) [
  | inr disabled ↦ inl (rw disabled at i)
  | inl on ↦ elim (In-append t.paths (prefix_routes r r.path_prefixes) (rw on at i)) [
    | inl j ↦ inl j
    | inr j ↦ inr (of_prefix on (prefix_routes-FromPrefix r r.path_prefixes pr j))
  ]
]
  where
    of_prefix :
        is_enabled r.enabled ≡ true
        → FromPrefix r r.path_prefixes pr
        → Serves (r ∷ regs) pr.reg pr.prefix
    of_prefix on f =
        subst (λ reg. Serves (r ∷ regs) reg pr.prefix) (sym f.owner)
          (record {
            configured = head refl;
            enabled = on;
            raw = f.raw;
            listed = f.listed;
            cleaned = f.cleaned;
            given = f.given;
          })

add_registries-Origin :
    (d : Str) (regs : List RegistryConfig) (t : Routes) (pr : PathRoute)
    → In pr (add_registries d regs t).paths
    → Origin regs t pr
add_registries-Origin d [] t pr i = inl i
add_registries-Origin d (r ∷ regs) t pr i =
    elim (add_registries-Origin d regs (add_registry d r t) pr i) [
      | inl j ↦ add_registry-Origin d r regs t pr j
      | inr s ↦ inr (Serves-tail s)
    ]

add_registry-keeps :
    (d : Str) (r : RegistryConfig) (t : Routes) (pr : PathRoute)
    → In pr t.paths
    → In pr (add_registry d r t).paths
add_registry-keeps d r t pr i = elim (Bool-cases (is_enabled r.enabled)) [
  | inr disabled ↦ rw disabled i
  | inl on ↦ rw on (In-append_left t.paths (prefix_routes r r.path_prefixes) i)
]

add_registries-keeps :
    (d : Str) (regs : List RegistryConfig) (t : Routes) (pr : PathRoute)
    → In pr t.paths
    → In pr (add_registries d regs t).paths
add_registries-keeps d [] t pr i = i
add_registries-keeps d (r ∷ regs) t pr i =
    add_registries-keeps d regs (add_registry d r t) pr (add_registry-keeps d r t pr i)

-- The route of a prefix as it is configured.
abbrev route_of : RegistryConfig → Str → PathRoute
route_of reg raw = record { prefix = clean_prefix raw; reg = reg }

add_registry-adds :
    (d : Str) (r : RegistryConfig) (t : Routes) (raw : Str)
    → is_enabled r.enabled ≡ true
    → In raw r.path_prefixes
    → is_empty (clean_prefix raw) ≡ false
    → In (route_of r raw) (add_registry d r t).paths
add_registry-adds d r t raw on i g =
    rw on (In-append_right t.paths _ (In-prefix_routes r r.path_prefixes raw i g))

add_registries-adds :
    (d : Str) (regs : List RegistryConfig) (t : Routes) {reg : RegistryConfig} {raw : Str}
    → In reg regs
    → is_enabled reg.enabled ≡ true
    → In raw reg.path_prefixes
    → is_empty (clean_prefix raw) ≡ false
    → In (route_of reg raw) (add_registries d regs t).paths
add_registries-adds d [] t i on listed g = elim i [ ]
add_registries-adds d (r ∷ regs) t {reg} {raw} (head e) on i g =
    add_registries-keeps d regs (add_registry d r t) (route_of reg raw) (
      subst (λ q. In (route_of reg raw) (add_registry d q t).paths) e
        (add_registry-adds d reg t raw on i g))
add_registries-adds d (r ∷ regs) t (tail j) on i g =
    add_registries-adds d regs (add_registry d r t) j on i g

-- The routes of the built table are those of the enabled registries' prefixes.
pub build_routes-In :
    (cfg : Config) (pr : PathRoute)
    → In pr (build_routes cfg).paths
    → Serves cfg.registries pr.reg pr.prefix
unfolding build_routes
build_routes-In cfg pr i =
    let t = add_registries cfg.default_name cfg.registries no_routes in
    elim (add_registries-Origin cfg.default_name cfg.registries no_routes pr
      ((longest_first-In (length t.paths) t.paths pr).0 i)) [
        | inl none_yet ↦ elim none_yet [ ]
        | inr s ↦ s
      ]

pub build_routes-Serves :
    (cfg : Config) (reg : RegistryConfig) (pre : Str)
    → Serves cfg.registries reg pre
    → In (record { prefix = pre; reg = reg }) (build_routes cfg).paths
unfolding build_routes
build_routes-Serves cfg reg pre s =
    let t = add_registries cfg.default_name cfg.registries no_routes in
    (longest_first-In (length t.paths) t.paths (record { prefix = pre; reg = reg })).1 (
      subst (λ p. In (record { prefix = p; reg = reg }) t.paths) s.cleaned
        (add_registries-adds cfg.default_name cfg.registries no_routes s.configured s.enabled
          s.listed (rw s.cleaned s.given)))
