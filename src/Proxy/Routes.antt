-- ===== src/Proxy/Routes.antt =====
-- internal/proxy/proxy.go: `buildRoutes` and `resolveRoute`.
pub mod Sorting
pub mod Table
pub mod Longest
mod Tests
use easy_docker_proxy.Base.{
  ℕ, ◌+◌, Bool, true, false, not, ◌&&◌, ◌||◌, List, [], ◌∷◌, ◌++◌, Option, none, some,
  if◌then◌else◌, ltb, length, Str, codes, is_empty, str_eq, has_prefix, to_lower, trim_space,
  trim_slashes, before, Dict, empty, insert,
}
use easy_docker_proxy.Config.{Config, RegistryConfig, is_enabled}
use easy_docker_proxy.Net.{IpNet}
use easy_docker_proxy.Acl.{parse_ip_rules}
use easy_docker_proxy.Proxy.Path.{extract_repo}
use easy_docker_proxy.Proxy.Request.{Request, get, remote_ip, request_host, ip_in_nets}

pub record PathRoute : Type 0 where
  pub prefix : Str
  pub reg : RegistryConfig

-- The three results of `buildRoutes`.
pub record Routes : Type 0 where
  pub idx : Dict RegistryConfig
  pub paths : List PathRoute
  pub def : Option RegistryConfig

abbrev pub no_routes : Routes
no_routes = record { idx = empty; paths = []; def = none }

abbrev pub clean_prefix : Str → Str
clean_prefix pref = trim_slashes (to_lower (trim_space pref))

abbrev pub add_hosts : RegistryConfig → List Str → Dict RegistryConfig → Dict RegistryConfig
add_hosts r [] idx = idx
add_hosts r (h ∷ hosts) idx = add_hosts r hosts (insert (to_lower (trim_space h)) r idx)

-- The routes that a registry appends to `paths`.
abbrev pub prefix_routes : RegistryConfig → List Str → List PathRoute
prefix_routes r [] = []
prefix_routes r (pref ∷ prefixes) =
    let rest = prefix_routes r prefixes in
    if is_empty (clean_prefix pref)
    then rest
    else record { prefix = clean_prefix pref; reg = r } ∷ rest

abbrev pub add_registry : Str → RegistryConfig → Routes → Routes
add_registry default_name r t = if not (is_enabled r.enabled) then t else record {
  idx = add_hosts r r.hosts t.idx;
  paths = t.paths ++ prefix_routes r r.path_prefixes;
  def = if not (is_empty default_name) && str_eq r.name default_name then some r else t.def;
}

abbrev pub add_registries : Str → List RegistryConfig → Routes → Routes
add_registries default_name [] t = t
add_registries default_name (r ∷ regs) t =
    add_registries default_name regs (add_registry default_name r t)

-- The inner loop: `x` is the element at `i`, and each later one that is longer changes places with
-- it.
unfoldable pub exchange : PathRoute → List PathRoute → PathRoute × List PathRoute
exchange x [] = (x, [])
exchange x (y ∷ ys) =
    let longer = ltb (length x.prefix) (length y.prefix) in
    let r = exchange (if longer then y else x) ys in (r.0, (if longer then x else y) ∷ r.1)

-- The outer loop, on the number of elements left.
unfoldable pub longest_first : ℕ → List PathRoute → List PathRoute
unfolding exchange
longest_first n [] = []
longest_first ℕ.zero (x ∷ xs) = x ∷ xs
longest_first (ℕ.suc n) (x ∷ xs) = let r = exchange x xs in r.0 ∷ longest_first n r.1

unfoldable pub build_routes : Config → Routes
unfolding longest_first
build_routes cfg =
    let t = add_registries cfg.default_name cfg.registries no_routes in
    record t { paths = longest_first (length t.paths) t.paths }

unfoldable pub parse_trusted : List Str → List IpNet
parse_trusted entries = (parse_ip_rules entries).0

-- The fields of `Proxy` that `resolveRoute` reads.
pub record Routing : Type 0 where
  pub routes : Routes
  pub trusted : List IpNet

-- The fields of `routeHit` that it sets.
pub record RouteHit : Type 0 where
  pub reg : Option RegistryConfig
  pub strip_prefix : Str

abbrev pub route_matches : Str → PathRoute → Bool
route_matches repo pr = str_eq repo pr.prefix || has_prefix repo (pr.prefix ++ b'/' ∷ [])

unfoldable pub find_route : Str → List PathRoute → Option PathRoute
find_route repo [] = none
find_route repo (pr ∷ routes) = if route_matches repo pr then some pr else find_route repo routes

unfoldable pub is_trusted_peer : List IpNet → Request → Bool
is_trusted_peer trusted r = ip_in_nets (remote_ip r) trusted

abbrev pub or_default : Option RegistryConfig → Option RegistryConfig → RouteHit
or_default (some reg) def = record { reg = some reg; strip_prefix = [] }
or_default none def = record { reg = def; strip_prefix = [] }

-- `X-Forwarded-Host`, which only a trusted proxy may set.
abbrev pub forwarded_reg : Routing → Request → Option RegistryConfig
forwarded_reg p r =
    let fwd = get r.header (codes "X-Forwarded-Host") in
    if is_trusted_peer p.trusted r && not (is_empty fwd)
    then p.routes.idx (to_lower (before b':' fwd))
    else none

abbrev pub by_host : Routing → Request → Option RegistryConfig → RouteHit
by_host p r (some reg) = record { reg = some reg; strip_prefix = [] }
by_host p r none = or_default (forwarded_reg p r) p.routes.def

abbrev pub by_path : Routing → Request → Option PathRoute → RouteHit
by_path p r (some pr) = record { reg = some pr.reg; strip_prefix = pr.prefix }
by_path p r none = by_host p r (p.routes.idx (request_host r))

unfoldable pub resolve_route : Routing → Request → RouteHit
unfolding find_route is_trusted_peer request_host
resolve_route p r =
    let repo = extract_repo r.path in
    by_path p r (if is_empty repo then none else find_route repo p.routes.paths)
