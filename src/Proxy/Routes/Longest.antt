-- ===== src/Proxy/Routes/Longest.antt =====
-- `resolveRoute` picks the longest configured prefix of the repository.
use mathlib.Core.List.{append_assoc}
use easy_docker_proxy.Base.{
  ◌≤◌, ◌≡◌, refl, sym, ap, subst, ◌∙◌, ◌⊎◌, inl, inr, true, false, List, [], ◌∷◌, ◌++◌, Option,
  none, some, if◌then◌else◌, length, arith, Bool-cases, Option-cases, In, head, tail, Str, is_empty,
  str_eq, str_eq_iff, has_prefix_iff,
}
use easy_docker_proxy.Config.{Config, RegistryConfig}
use easy_docker_proxy.Proxy.Path.{extract_repo}
use easy_docker_proxy.Net.{IpNet}
use easy_docker_proxy.Proxy.Request.{Request, request_host}
use easy_docker_proxy.Proxy.Routes.{
  PathRoute, Routing, build_routes, route_matches, find_route, resolve_route, by_path, by_host,
  is_trusted_peer,
}
use easy_docker_proxy.Proxy.Routes.Table.{Serves, build_routes-In, build_routes-Serves}
use easy_docker_proxy.Proxy.Routes.Sorting.{
  IsLongestFirst, cons, In-All, longest_first-IsLongestFirst,
}

-- The repository is the prefix, or lies under it.
abbrev pub Under : Str → Str → Type 0
Under pre repo = (repo ≡ pre) ⊎ ((sub : Str) × (repo ≡ pre ++ b'/' ∷ sub))

route_matches-Under :
    (repo : Str) (pr : PathRoute) → route_matches repo pr ≡ true → Under pr.prefix repo
route_matches-Under repo pr h = elim (Bool-cases (str_eq repo pr.prefix)) [
  | inl e ↦ inl ((str_eq_iff repo pr.prefix).0 e)
  | inr n ↦
      let (r, e) = (has_prefix_iff repo (pr.prefix ++ b'/' ∷ [])).0 (ground arith) in
      inr (r, e ∙ append_assoc pr.prefix (b'/' ∷ []) r)
]

Under-route_matches :
    (repo : Str) (pr : PathRoute) → Under pr.prefix repo → route_matches repo pr ≡ true
Under-route_matches repo pr (inl e) = let same = (str_eq_iff repo pr.prefix).1 e in ground arith
Under-route_matches repo pr (inr (sub, e)) =
    let begins =
      (has_prefix_iff repo (pr.prefix ++ b'/' ∷ [])).1
        (sub, e ∙ sym (append_assoc pr.prefix (b'/' ∷ []) sub)) in
    ground arith

pub find_route-some :
    (repo : Str) (routes : List PathRoute) (pr : PathRoute)
    → IsLongestFirst routes
    → find_route repo routes ≡ some pr
    → In pr routes
      × Under pr.prefix repo
      × ((q : PathRoute) → In q routes → Under q.prefix repo → length q.prefix ≤ length pr.prefix)
unfolding find_route
find_route-some repo [] pr s h = cc
find_route-some repo (x ∷ routes) pr (cons l s) h = elim (Bool-cases (route_matches repo x)) [
  | inl here ↦
      let same : some x ≡ some pr = rw here at h in
      let e : x ≡ pr = cc in
      subst
        (λ p.
          In p (x ∷ routes)
          × Under p.prefix repo
          × ((q : PathRoute)
              → In q (x ∷ routes)
              → Under q.prefix repo
              → length q.prefix ≤ length p.prefix))
        e (head refl, route_matches-Under repo x here, λ q i u. at_head q i)
  | inr further ↦
      let (i, u, longest) = find_route-some repo routes pr s (rw further at h) in
      (tail i, u, λ q j v. in_tail q longest further j v)
]
  where
    at_head : (q : PathRoute) → In q (x ∷ routes) → length q.prefix ≤ length x.prefix
    at_head q (head e) = omega (arith, ap (λ (p : PathRoute). length p.prefix) e)
    at_head q (tail i) = In-All (λ y. length y.prefix ≤ length x.prefix) l i

    in_tail :
        (q : PathRoute)
        → ((q : PathRoute) → In q routes → Under q.prefix repo → length q.prefix ≤ length pr.prefix)
        → route_matches repo x ≡ false
        → In q (x ∷ routes)
        → Under q.prefix repo
        → length q.prefix ≤ length pr.prefix
    in_tail q longest no_match (head e) u =
        let hit = Under-route_matches repo x (subst (λ (p : PathRoute). Under p.prefix repo) e u) in
        cc
    in_tail q longest no_match (tail i) u = longest q i u

pub find_route-none :
    (repo : Str) (routes : List PathRoute) (q : PathRoute)
    → find_route repo routes ≡ none
    → In q routes
    → ¬ Under q.prefix repo
unfolding find_route
find_route-none repo [] q h i u = elim i [ ]
find_route-none repo (x ∷ routes) q h i u = elim (Bool-cases (route_matches repo x)) [
  | inl here ↦ let e : some x ≡ none = rw here at h in cc
  | inr further ↦ not_here (λ j. find_route-none repo routes q (rw further at h) j u) i further
]
  where
    not_here : ((j : In q routes) → ⊥) → In q (x ∷ routes) → route_matches repo x ≡ false → ⊥
    not_here later (head e) no_match =
        let hit = Under-route_matches repo x (subst (λ (p : PathRoute). Under p.prefix repo) e u) in
        cc
    not_here later (tail j) no_match = later j

build_routes-IsLongestFirst : (cfg : Config) → IsLongestFirst (build_routes cfg).paths
unfolding build_routes
build_routes-IsLongestFirst cfg = longest_first-IsLongestFirst _ _ (omega arith)

-- What `resolveRoute` may answer for a repository by its path, over the routes built from `cfg`.
-- A prefix is an enabled registry's, with blanks, case and outer slashes cleaned up. If there is a
-- route, its registry serves its prefix, the repository is or lies under that prefix, and no
-- configured prefix that the repository is or lies under is longer. If there is none, the
-- repository is and lies under no configured prefix.
abbrev pub Routed : Config → Str → Option PathRoute → Type 0
Routed cfg repo (some pr) =
    Serves cfg.registries pr.reg pr.prefix
    × Under pr.prefix repo
    × ((reg : RegistryConfig) (pre : Str)
        → Serves cfg.registries reg pre
        → Under pre repo
        → length pre ≤ length pr.prefix)
Routed cfg repo none =
    (reg : RegistryConfig) (pre : Str) → Serves cfg.registries reg pre → ¬ Under pre repo

abbrev Answers : Config → Str → Option PathRoute → Type 0
Answers cfg repo o = find_route repo (build_routes cfg).paths ≡ o → Routed cfg repo o

found-Routed : (cfg : Config) (repo : Str) (o : Option PathRoute) → Answers cfg repo o
found-Routed cfg repo none e = λ reg pre s u.
    find_route-none repo _ (record { prefix = pre; reg = reg }) e
      (build_routes-Serves cfg reg pre s) u
found-Routed cfg repo (some pr) e =
    let (i, u, longest) = find_route-some repo _ pr (build_routes-IsLongestFirst cfg) e in
    (
      build_routes-In cfg pr i,
      u,
      λ reg pre s v.
          longest (record { prefix = pre; reg = reg }) (build_routes-Serves cfg reg pre s) v,
    )

-- The first of the sorted routes that matches a repository belongs to an enabled registry with that
-- prefix, the repository is or lies under it, and no configured prefix that it is or lies under is
-- longer. If no route matches, the repository is and lies under no configured prefix.
pub find_route-Routed :
    (cfg : Config) (repo : Str) → Routed cfg repo (find_route repo (build_routes cfg).paths)
find_route-Routed cfg repo = found-Routed cfg repo (find_route repo (build_routes cfg).paths) refl

-- A request for a repository that is or lies under some configured prefix goes to the registry of
-- the longest such prefix, whatever its host and headers say, and that prefix is to be stripped.
pub resolve_route_path :
    (cfg : Config) (trusted : List IpNet) (r : Request) (reg : RegistryConfig) (pre : Str)
    → is_empty (extract_repo r.path) ≡ false
    → Serves cfg.registries reg pre
    → Under pre (extract_repo r.path)
    → (pr : PathRoute) × (resolve_route (record { routes = build_routes cfg; trusted = trusted }) r
        ≡ record { reg = some pr.reg; strip_prefix = pr.prefix })
      × Serves cfg.registries pr.reg pr.prefix
      × Under pr.prefix (extract_repo r.path)
      × ((reg' : RegistryConfig) (pre' : Str)
          → Serves cfg.registries reg' pre'
          → Under pre' (extract_repo r.path)
          → length pre' ≤ length pr.prefix)
unfolding resolve_route
resolve_route_path cfg trusted r reg pre ne s u =
    let repo = extract_repo r.path in
    elim (Option-cases (find_route repo (build_routes cfg).paths)) [
      | inl e ↦ absurd (found-Routed cfg repo none e reg pre s u)
      | inr (pr, e) ↦
          let (served, under, longest) = found-Routed cfg repo (some pr) e in
          (pr, rw (ne, e) refl, served, under, longest)
    ]

abbrev pub first_reg : Option RegistryConfig → Option RegistryConfig → Option RegistryConfig
first_reg (some reg) def = some reg
first_reg none def = def

by_host_untrusted :
    (p : Routing) (r : Request) (o : Option RegistryConfig)
    → is_trusted_peer p.trusted r ≡ false
    → by_host p r o ≡ record { reg = first_reg o p.routes.def; strip_prefix = [] }
by_host_untrusted p r (some reg) h = refl
by_host_untrusted p r none h = rw h

-- A request that no path route matches, from a peer that is not a trusted proxy: the registry of
-- its host, or the default registry, and nothing to strip. Its headers have no say.
pub resolve_route_untrusted :
    (p : Routing) (r : Request)
    → (is_empty (extract_repo r.path) ≡ true)
      ⊎ (find_route (extract_repo r.path) p.routes.paths ≡ none)
    → is_trusted_peer p.trusted r ≡ false
    → resolve_route p r
      ≡ record { reg = first_reg (p.routes.idx (request_host r)) p.routes.def; strip_prefix = [] }
unfolding resolve_route
resolve_route_untrusted p r h u =
    ap (by_path p r) (no_path h) ∙ by_host_untrusted p r (p.routes.idx (request_host r)) u
  where
    no_path :
        (is_empty (extract_repo r.path) ≡ true)
          ⊎ (find_route (extract_repo r.path) p.routes.paths ≡ none)
        → (if is_empty (extract_repo r.path)
            then none
            else find_route (extract_repo r.path) p.routes.paths)
          ≡ none
    no_path (inl e) = rw e
    no_path (inr e) = elim (Bool-cases (is_empty (extract_repo r.path))) [
      | inl b ↦ rw b
      | inr b ↦ rw (b, e)
    ]
