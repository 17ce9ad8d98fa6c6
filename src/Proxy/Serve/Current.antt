-- ===== src/Proxy/Serve/Current.antt =====
-- Which configuration decides.
use easy_docker_proxy.Base.{
  ℕ, ◌*◌, ◌+◌, ltb, insert, is_empty, ◌≡◌, refl, sym, ap, ◌∙◌, Bool, true, false, not, List, [],
  ◌∷◌, Option, none, some, if◌then◌else◌, Str, codes, Bool-cases, inl, inr,
}
use easy_docker_proxy.Config.{Config, RegistryConfig}
use easy_docker_proxy.Acl.{allows, build}
use easy_docker_proxy.RateLimit
use easy_docker_proxy.RateLimit.{
  Limiter, allow, allow_locked, maybe_cleanup_locked, update, token, positive_or, minutes, fresh,
  Bucket,
}
use easy_docker_proxy.Store.{Hashes}
use easy_docker_proxy.Store.PullUsers.{PullStore}
use easy_docker_proxy.Http.{
  status_not_found, status_forbidden, status_method_not_allowed, status_too_many_requests,
}
use easy_docker_proxy.Proxy.ClientIp.{client_ip}
use easy_docker_proxy.Proxy.Path.{is_registry_path}
use easy_docker_proxy.Proxy.Routes.{build_routes, parse_trusted, resolve_route}
use easy_docker_proxy.Proxy.PullAuth.{PullAnswer, allowed, challenge, check_pull_auth}
use easy_docker_proxy.Proxy.Exchange.{proxy_request}
use easy_docker_proxy.Proxy.Serve.{
  Proxy, Visit, version, Served, refuse, to_registry, is_version_path, is_readonly, authn, let_in,
  within_limit, serve_http, observe, new, reload, counted,
}
use easy_docker_proxy.Config.Copy.{clone}
use easy_docker_proxy.Metrics.{Collector, class_from_status}
use easy_docker_proxy.Upstream.Tokens.{Cache}

-- All that the proxy decides by is made from the configuration that it has.
pub record Current (p : Proxy) : Type 0 where
  pub routes : p.routing.routes ≡ build_routes p.cfg
  pub trusted : p.routing.trusted ≡ parse_trusted p.cfg.trusted_proxies
  pub acl : p.acl ≡ build (some p.cfg.access_control)
  pub limited : p.limiter.enabled ≡ p.cfg.rate_limit.enabled
  pub rps : p.limiter.rps ≡ positive_or p.cfg.rate_limit.per_ip_rps 20000
  pub burst : p.limiter.burst ≡ positive_or p.cfg.rate_limit.per_ip_burst 40 * token

-- What of a proxy a request leaves as it is.
pub record Kept (p q : Proxy) : Type 0 where
  pub cfg : q.cfg ≡ p.cfg
  pub generation : q.generation ≡ p.generation
  pub routing : q.routing ≡ p.routing
  pub acl : q.acl ≡ p.acl
  pub limited : q.limiter.enabled ≡ p.limiter.enabled
  pub rps : q.limiter.rps ≡ p.limiter.rps
  pub burst : q.limiter.burst ≡ p.limiter.burst

kept : (p : Proxy) → Kept p p
kept p = record {
  cfg = refl;
  generation = refl;
  routing = refl;
  acl = refl;
  limited = refl;
  rps = refl;
  burst = refl;
}

-- The rates of a limiter.
record Rates (l m : Limiter) : Type 0 where
  limited : m.enabled ≡ l.enabled
  rps : m.rps ≡ l.rps
  burst : m.burst ≡ l.burst

rates : (l : Limiter) → Rates l l
rates l = record { limited = refl; rps = refl; burst = refl }

maybe_cleanup_locked-Rates : (l : Limiter) (now : ℕ) → Rates l (maybe_cleanup_locked l now)
unfolding maybe_cleanup_locked
maybe_cleanup_locked-Rates l now = elim (Bool-cases (ltb now (l.last_cleanup + minutes 5))) [
  | inl y ↦ rw y (rates l)
  | inr n ↦ rw n (record { limited = refl; rps = refl; burst = refl })
]

allow_locked-Rates :
    (l : Limiter) (key : Str) (now : ℕ) (o : Option Bucket) → Rates l (allow_locked l key now o).0
unfolding allow_locked
allow_locked-Rates l key now none =
    let r =
      maybe_cleanup_locked-Rates (record l { buckets = insert key (fresh l.burst now) l.buckets })
        now in
    record { limited = r.limited; rps = r.rps; burst = r.burst }
allow_locked-Rates l key now (some b) = record { limited = refl; rps = refl; burst = refl }

Rates-both :
    (l : Limiter) (b : Bool) (x y : Limiter × Bool)
    → Rates l x.0
    → Rates l y.0
    → Rates l (if b then x else y).0
Rates-both l true x y p q = p
Rates-both l false x y p q = q

allow-Rates : (l : Limiter) (key : Str) (now : ℕ) → Rates l (allow l key now).0
unfolding allow
allow-Rates l key now =
    Rates-both l (not l.enabled) (l, true) _ (rates l)
      (Rates-both l (is_empty key) (l, true) (allow_locked l key now (l.buckets key)) (rates l)
        (allow_locked-Rates l key now (l.buckets key)))

Kept-both :
    (p : Proxy) (b : Bool) (x y : Served) → Kept p x.0 → Kept p y.0 → Kept p (if b then x else y).0
Kept-both p true x y k l = k
Kept-both p false x y k l = l

-- The parts that `Kept` does not read may change.
Kept-from :
    (p q : Proxy) (pulls : PullStore) (c : Cache) (m : Option Collector)
    → Kept p q
    → Kept p (record q { pulls = pulls; tokens = c; metrics = m })
Kept-from p q pulls c m k = record {
  cfg = k.cfg;
  generation = k.generation;
  routing = k.routing;
  acl = k.acl;
  limited = k.limited;
  rps = k.rps;
  burst = k.burst;
}

refuse-Kept :
    (p q : Proxy) (cls : Str) (status : ℕ) (msg : Str)
    → Kept p q
    → Kept p (refuse q cls status msg).0
unfolding observe
refuse-Kept p q cls status msg k = Kept-from p q q.pulls q.tokens (counted q.metrics [] cls 0) k

to_registry-Kept :
    (p q : Proxy) (v : Visit) (ip name strip : Str) (o : Option RegistryConfig)
    → Kept p q
    → Kept p (to_registry q v ip name strip o).0
unfolding to_registry observe
to_registry-Kept p q v ip name strip none k =
    refuse-Kept p q (codes "error") status_not_found (codes "unknown registry host") k
to_registry-Kept p q v ip name strip (some reg) k =
    let x = proxy_request v.world v.request reg strip q.tokens in
    Kept-from p q q.pulls x.0
      (counted q.metrics reg.name (class_from_status x.1.status) x.1.written) k

let_in-Kept :
    (p q : Proxy) (v : Visit) (ip : Str) (x : PullStore × PullAnswer)
    → Kept p q
    → Kept p (let_in q v ip x).0
unfolding let_in observe
let_in-Kept p q v ip (s, challenge realm) k =
    Kept-from p q s q.tokens (counted q.metrics [] (codes "denied") 0) k
let_in-Kept p q v ip (s, allowed name) k =
    let t = record q { pulls = s } in
    let hit = resolve_route t.routing v.request in
    let kt = Kept-from p q s q.tokens q.metrics k in
    Kept-both p (is_version_path v.request.path) (observe t [] (codes "ok") 0, version, none) _
      (Kept-from p q s q.tokens (counted q.metrics [] (codes "ok") 0) k)
      (Kept-both p (not (is_registry_path v.request.path))
        (refuse t (codes "other") status_not_found (codes "404 page not found"))
        (to_registry t v ip name hit.strip_prefix hit.reg)
        (refuse-Kept p t (codes "other") status_not_found (codes "404 page not found") kt)
        (to_registry-Kept p t v ip name hit.strip_prefix hit.reg kt))

with_limiter :
    (p : Proxy) (lim : Limiter) → Rates p.limiter lim → Kept p (record p { limiter = lim })
with_limiter p lim r = record {
  cfg = refl;
  generation = refl;
  routing = refl;
  acl = refl;
  limited = r.limited;
  rps = r.rps;
  burst = r.burst;
}

within_limit-Kept :
    (h : Hashes) (p : Proxy) (v : Visit) (ip : Str) (x : Limiter × Bool)
    → Rates p.limiter x.0
    → Kept p (within_limit h p v ip x).0
unfolding within_limit
within_limit-Kept h p v ip (lim, false) r =
    refuse-Kept p (record p { limiter = lim }) (codes "ratelimit") status_too_many_requests
      (codes "rate limit exceeded") (with_limiter p lim r)
within_limit-Kept h p v ip (lim, true) r =
    let q = record p { limiter = lim } in
    let answer =
      check_pull_auth v.decode (authn h v q.has_authn) q.cfg.pull_auth q.pulls v.request.header in
    Kept-both p (not (is_readonly v.request))
      (refuse q (codes "other") status_method_not_allowed (codes "method not allowed"))
      (let_in q v ip answer)
      (refuse-Kept p q (codes "other") status_method_not_allowed (codes "method not allowed")
        (with_limiter p lim r))
      (let_in-Kept p q v ip answer (with_limiter p lim r))

pub serve_http-Kept : (h : Hashes) (p : Proxy) (v : Visit) → Kept p (serve_http h p v).0
unfolding serve_http
serve_http-Kept h p v =
    let ip = client_ip p.routing.trusted v.request in
    Kept-both p (not (allows p.acl ip))
      (refuse p (codes "denied") status_forbidden (codes "access denied"))
      (within_limit h p v ip (allow p.limiter ip v.nanos))
      (refuse-Kept p p (codes "denied") status_forbidden (codes "access denied") (kept p))
      (within_limit-Kept h p v ip (allow p.limiter ip v.nanos) (allow-Rates p.limiter ip v.nanos))

-- What can happen to a proxy.
pub data Op : Type 0 where
  visit_op : Visit → Op
  reload_op : Config → Op

abbrev pub apply : Hashes → Proxy → Op → Proxy
apply h p (visit_op v) = (serve_http h p v).0
apply h p (reload_op cfg) = reload p cfg

abbrev pub apply_all : Hashes → Proxy → List Op → Proxy
apply_all h p [] = p
apply_all h p (op ∷ ops) = apply_all h (apply h p op) ops

-- The configuration that was given last.
abbrev pub last_config : Config → List Op → Config
last_config cfg [] = cfg
last_config cfg (visit_op v ∷ ops) = last_config cfg ops
last_config cfg (reload_op next ∷ ops) = last_config next ops

Current-Kept : (p q : Proxy) → Kept p q → Current p → Current q
Current-Kept p q k c = record {
  routes = ap (λ x. x.routes) k.routing ∙ c.routes ∙ ap build_routes (sym k.cfg);
  trusted =
      ap (λ x. x.trusted) k.routing
      ∙ c.trusted
      ∙ ap (λ x. parse_trusted x.trusted_proxies) (sym k.cfg);
  acl = k.acl ∙ c.acl ∙ ap (λ x. build (some x.access_control)) (sym k.cfg);
  limited = k.limited ∙ c.limited ∙ ap (λ x. x.rate_limit.enabled) (sym k.cfg);
  rps = k.rps ∙ c.rps ∙ ap (λ x. positive_or x.rate_limit.per_ip_rps 20000) (sym k.cfg);
  burst =
      k.burst ∙ c.burst ∙ ap (λ x. positive_or x.rate_limit.per_ip_burst 40 * token) (sym k.cfg);
}

pub reload-Current :
    (p : Proxy) (cfg : Config) → Current (reload p cfg) × ((reload p cfg).cfg ≡ cfg)
unfolding reload clone update
reload-Current p cfg = (
  record { routes = refl; trusted = refl; acl = refl; limited = refl; rps = refl; burst = refl },
  refl,
)

apply_all-Current :
    (h : Hashes) (p : Proxy) (ops : List Op)
    → Current p
    → Current (apply_all h p ops) × ((apply_all h p ops).cfg ≡ last_config p.cfg ops)
apply_all-Current h p [] c = (c, refl)
apply_all-Current h p (visit_op v ∷ ops) c =
    let k = serve_http-Kept h p v in
    let q = (serve_http h p v).0 in
    let (d, e) = apply_all-Current h q ops (Current-Kept p q k c) in
    (d, e ∙ ap (λ x. last_config x ops) k.cfg)
apply_all-Current h p (reload_op cfg ∷ ops) c =
    let (r, same) = reload-Current p cfg in
    let (d, e) = apply_all-Current h (reload p cfg) ops r in
    (d, e ∙ ap (λ x. last_config x ops) same)

pub new-Current :
    (cfg : Config) (now : ℕ) (m : Option Collector) (recorder authn_set : Bool) (pulls : PullStore)
    → Current (new cfg now m recorder authn_set pulls)
      × ((new cfg now m recorder authn_set pulls).cfg ≡ cfg)
unfolding new RateLimit.new
new-Current cfg now m recorder authn_set pulls = (
  record { routes = refl; trusted = refl; acl = refl; limited = refl; rps = refl; burst = refl },
  refl,
)

-- After any sequence of requests and reloads, the routes, the trusted proxies, the access rules and
-- the rates that the proxy decides by are those of the configuration that was given last.
pub runs-Current :
    (h : Hashes) (cfg : Config) (now : ℕ) (m : Option Collector) (recorder authn_set : Bool)
    (pulls : PullStore) (ops : List Op)
    → Current (apply_all h (new cfg now m recorder authn_set pulls) ops)
      × ((apply_all h (new cfg now m recorder authn_set pulls) ops).cfg ≡ last_config cfg ops)
runs-Current h cfg now m recorder authn_set pulls ops =
    let (c, same) = new-Current cfg now m recorder authn_set pulls in
    let (d, e) = apply_all-Current h (new cfg now m recorder authn_set pulls) ops c in
    (d, e ∙ ap (λ x. last_config x ops) same)
