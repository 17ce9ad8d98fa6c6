-- ===== src/Proxy/Serve/Admitted.antt =====
-- Which requests reach an upstream.
use easy_docker_proxy.Base.{
  ◌≡◌, ◌≢◌, ◌⊎◌, inl, inr, sym, ap, ◌∙◌, Bool-cases, ||_iff, true_iff, str_eq, str_eq_iff, refl,
  ◌↔◌, Bool, true, false, not, [], Option, none, some, if◌then◌else◌, Str, codes,
}
use easy_docker_proxy.Config.{RegistryConfig}
use easy_docker_proxy.Acl.{allows}
use easy_docker_proxy.RateLimit.{Limiter, allow}
use easy_docker_proxy.Store.{Hashes}
use easy_docker_proxy.Store.PullUsers.{PullStore}
use easy_docker_proxy.Http.{
  is_method, status_not_found, status_forbidden, status_method_not_allowed,
}
use easy_docker_proxy.Proxy.ClientIp.{client_ip}
use easy_docker_proxy.Proxy.Path.{is_registry_path}
use easy_docker_proxy.Proxy.Path.Registry.{IsRegistryPath, is_registry_path_iff}
use easy_docker_proxy.Proxy.Request.{Request, get}
use easy_docker_proxy.Proxy.Exchange.{Target}
use easy_docker_proxy.Proxy.Exchange.Reached.{sends, proxy_request-sends_iff}
use easy_docker_proxy.Proxy.PullAuth.Required.{LetsIn, check_pull_auth_iff}
use easy_docker_proxy.Proxy.Routes.{resolve_route}
use easy_docker_proxy.Proxy.PullAuth.{PullAnswer, allowed, challenge, check_pull_auth}
use easy_docker_proxy.Proxy.Serve.{
  Proxy, Visit, Reply, refused, unauthorized, version, forwarded, Served, refuse, to_registry,
  is_version_path, is_readonly, authn, let_in, within_limit, serve_http, observe,
}

-- Whether a request was sent upstream.
abbrev pub reaches : Reply → Bool
reaches (forwarded o) = sends o.sent
reaches (refused status msg) = false
reaches (unauthorized realm) = false
reaches version = false

abbrev pub is_forwarded : Served → Bool
is_forwarded x = reaches x.1

-- A registry with a URL that can be parsed is found for the request.
abbrev pub HasUpstream : Visit → Option RegistryConfig → Type 0
HasUpstream v o =
    (reg : RegistryConfig) × (o ≡ some reg)
    × (base : Target) × (v.world.parse reg.upstream ≡ some base)

-- The path is one of the registry API with a name, and a registry is found for it.
abbrev pub Found : Proxy → Visit → Type 0
Found p v =
    ((v.request.path ≢ codes "/v2/") × (v.request.path ≢ codes "/v2"))
    × (IsRegistryPath v.request.path × HasUpstream v (resolve_route p.routing v.request).reg)

abbrev pub pull_answer : Hashes → Proxy → Visit → PullStore × PullAnswer
pull_answer h p v =
    check_pull_auth v.decode (authn h v p.has_authn) p.cfg.pull_auth p.pulls v.request.header

-- The pull authentication lets the client in, under some name.
abbrev pub IsLetIn : Hashes → Proxy → Visit → Type 0
IsLetIn h p v =
    (name : Str) × LetsIn (authn h v p.has_authn) v.decode p.cfg.pull_auth.mode p.pulls
      (get v.request.header (codes "Authorization")) name

-- The method reads and the pull authentication lets the client in.
abbrev pub Named : Hashes → Proxy → Visit → Type 0
Named h p v =
    ((v.request.method ≡ codes "GET") ⊎ (v.request.method ≡ codes "HEAD"))
    × (IsLetIn h p v × Found p v)

-- The address is allowed and its limit is not reached.
abbrev pub Admitted : Hashes → Proxy → Visit → Type 0
Admitted h p v =
    let ip = client_ip p.routing.trusted v.request in
    (allows p.acl ip ≡ true) × (((allow p.limiter ip v.nanos).1 ≡ true) × Named h p v)

guard_iff :
    {P Q : Type 0} (b : Bool) (x y : Served)
    → (b ≡ true) ↔ Q
    → is_forwarded x ≡ false
    → (is_forwarded y ≡ true) ↔ P
    → (is_forwarded (if not b then x else y) ≡ true) ↔ (Q × P)
guard_iff true x y t n k = (λ e. (t.0 refl, k.0 e), λ w. k.1 (w.1))
guard_iff false x y t n k = (λ e. cc, λ w. cc (t.1 (w.0)))

bar_iff :
    {P Q : Type 0} (b : Bool) (x y : Served)
    → (b ≡ false) ↔ Q
    → is_forwarded x ≡ false
    → (is_forwarded y ≡ true) ↔ P
    → (is_forwarded (if b then x else y) ≡ true) ↔ (Q × P)
bar_iff false x y t n k = (λ e. (t.0 refl, k.0 e), λ w. k.1 (w.1))
bar_iff true x y t n k = (λ e. cc, λ w. cc (t.1 (w.0)))

is_version_path_iff :
    (path : Str) → (is_version_path path ≡ false) ↔ ((path ≢ codes "/v2/") × (path ≢ codes "/v2"))
is_version_path_iff path =
    let k =
      ||_iff (str_eq path (codes "/v2/")) (str_eq path (codes "/v2"))
        (str_eq_iff path (codes "/v2/")) (str_eq_iff path (codes "/v2")) in
    (
      λ n. (λ e. cc (sym n ∙ k.1 (inl e)), λ e. cc (sym n ∙ k.1 (inr e))),
      λ w. elim (Bool-cases (is_version_path path)) [
        | inl y ↦ elim (k.0 y) [ inl e ↦ absurd (w.0 e) | inr e ↦ absurd (w.1 e) ]
        | inr n ↦ n
      ],
    )

is_readonly_iff :
    (r : Request) → (is_readonly r ≡ true) ↔ ((r.method ≡ codes "GET") ⊎ (r.method ≡ codes "HEAD"))
is_readonly_iff r =
    ||_iff (is_method r (codes "GET")) (is_method r (codes "HEAD"))
      (str_eq_iff r.method (codes "GET")) (str_eq_iff r.method (codes "HEAD"))

to_registry_iff :
    (p : Proxy) (v : Visit) (ip pull_user strip : Str) (o : Option RegistryConfig)
    → (is_forwarded (to_registry p v ip pull_user strip o) ≡ true) ↔ HasUpstream v o
unfolding to_registry
to_registry_iff p v ip pull_user strip none = (λ e. cc, λ w. cc (w.1))
to_registry_iff p v ip pull_user strip (some reg) =
    let k = proxy_request-sends_iff v.world v.request reg strip p.tokens in
    (
      λ e. let (base, parsed) = k.0 e in (reg, refl, base, parsed),
      λ w.
          let (other, same, base, parsed) = w in
          let it : other ≡ reg = cc in
          k.1 (base, ap (λ (x : RegistryConfig). v.world.parse x.upstream) (sym it) ∙ parsed),
    )

let_in_iff :
    (p : Proxy) (v : Visit) (ip : Str) (x : PullStore × PullAnswer)
    → (is_forwarded (let_in p v ip x) ≡ true) ↔ (((name : Str) × (x.1 ≡ allowed name)) × Found p v)
unfolding let_in
let_in_iff p v ip (s, challenge realm) = (λ e. cc, λ w. cc (w.0.1))
let_in_iff p v ip (s, allowed name) =
    let hit = resolve_route p.routing v.request in
    let q = record p { pulls = s } in
    let k =
      bar_iff (is_version_path v.request.path) (observe q [] (codes "ok") 0, version, none) _
        (is_version_path_iff v.request.path) refl
        (guard_iff (is_registry_path v.request.path)
          (refuse q (codes "other") status_not_found (codes "404 page not found"))
          (to_registry q v ip name hit.strip_prefix hit.reg) (is_registry_path_iff v.request.path)
          refl (to_registry_iff q v ip name hit.strip_prefix hit.reg)) in
    (λ e. ((name, refl), k.0 e), λ w. k.1 (w.1))

-- The answer of the check, as who is let in.
answered_iff :
    (h : Hashes) (p : Proxy) (v : Visit) (ip : Str)
    → (is_forwarded (let_in p v ip (pull_answer h p v)) ≡ true) ↔ (IsLetIn h p v × Found p v)
answered_iff h p v ip =
    let k = let_in_iff p v ip (pull_answer h p v) in
    let c =
      check_pull_auth_iff (authn h v p.has_authn) v.decode p.cfg.pull_auth p.pulls
        v.request.header in
    (
      λ e. let ((name, a), f) = k.0 e in ((name, (c name).0 a), f),
      λ w. let ((name, a), f) = w in k.1 ((name, (c name).1 a), f),
    )

within_limit_iff :
    (h : Hashes) (p : Proxy) (v : Visit) (ip : Str) (x : Limiter × Bool)
    → (is_forwarded (within_limit h p v ip x) ≡ true) ↔ ((x.1 ≡ true) × Named h p v)
unfolding within_limit
within_limit_iff h p v ip (lim, false) = (λ e. cc, λ w. cc (w.0))
within_limit_iff h p v ip (lim, true) =
    let q = record p { limiter = lim } in
    let k =
      guard_iff (is_readonly v.request)
        (refuse q (codes "other") status_method_not_allowed (codes "method not allowed"))
        (let_in q v ip (pull_answer h p v)) (is_readonly_iff v.request) refl
        (answered_iff h q v ip) in
    (λ e. (refl, k.0 e), λ w. k.1 (w.1))

-- A request is sent to an upstream exactly when its address is allowed, the rate limit of the
-- address is not reached, its method is GET or HEAD, the pull authentication lets the client in (it
-- is off, or the authenticator takes the Basic credentials, or there is no Authorization and none
-- is required), its path is one of the registry API other than the version check, and a registry is
-- found for it, with a URL that can be parsed.
pub serve_http_iff :
    (h : Hashes) (p : Proxy) (v : Visit) → (is_forwarded (serve_http h p v) ≡ true) ↔ Admitted h p v
unfolding serve_http
serve_http_iff h p v =
    let ip = client_ip p.routing.trusted v.request in
    guard_iff (allows p.acl ip) (refuse p (codes "denied") status_forbidden (codes "access denied"))
      (within_limit h p v ip (allow p.limiter ip v.nanos)) (true_iff (allows p.acl ip)) refl
      (within_limit_iff h p v ip (allow p.limiter ip v.nanos))
