-- ===== src/Proxy/Serve.antt =====
-- internal/proxy/proxy.go: `ServeHTTP`, with `New`, `Reload`, `observe` and `emitEvent`.
--
-- A visit is one request with all that is read from outside while it is served. The pull
-- authenticator is the one of internal/store/pull_users.go, as cmd/proxy/main.go sets it. Requests
-- follow one another; `maybeLog`, which only logs, is left out.
pub mod Admitted
pub mod Current
pub mod Recorded
mod Tests
use easy_docker_proxy.Base.{
  ℕ, suc, Bool, true, false, not, ◌&&◌, ◌||◌, [], Option, none, some, if◌then◌else◌, Str, codes,
  str_eq, ltb, length, take,
}
use easy_docker_proxy.Config.{Config, RegistryConfig}
use easy_docker_proxy.Config.Copy.{clone}
use easy_docker_proxy.Acl.{Matcher, build, allows}
use easy_docker_proxy.RateLimit
use easy_docker_proxy.RateLimit.{Limiter, allow, update}
use easy_docker_proxy.Metrics.{Collector, inc_request, add_bytes, class_from_status}
use easy_docker_proxy.Record.Event.{Event, EventType, manifest, blob}
use easy_docker_proxy.Store.{Hashes, Result}
use easy_docker_proxy.Store.PullUsers.{PullStore, authenticate_pull}
use easy_docker_proxy.Upstream.Tokens.{Cache, new_cache}
use easy_docker_proxy.Http.{
  is_method, status_forbidden, status_too_many_requests, status_method_not_allowed,
  status_not_found,
}
use easy_docker_proxy.Proxy.Request.{Request, get, request_host}
use easy_docker_proxy.Proxy.ClientIp.{client_ip}
use easy_docker_proxy.Proxy.Path.{Class, is_registry_path, classify_path, strip_repo_path_prefix}
use easy_docker_proxy.Proxy.Routes.{Routing, RouteHit, build_routes, parse_trusted, resolve_route}
use easy_docker_proxy.Proxy.PullAuth.{PullAnswer, allowed, challenge, check_pull_auth}
use easy_docker_proxy.Proxy.Exchange.{World, Outcome, proxy_request}

-- The fields of `Proxy`, but for the HTTP clients, and the accounts that its authenticator reads.
pub record Proxy : Type 0 where
  pub cfg : Config
  pub generation : ℕ
  pub routing : Routing
  pub acl : Matcher
  pub limiter : Limiter
  pub tokens : Cache
  pub metrics : Option Collector
  pub has_recorder : Bool
  pub has_authn : Bool
  pub pulls : PullStore

pub record Visit : Type 0 where
  pub request : Request
  pub world : World
  pub decode : Str → Option Str
  pub nanos : ℕ
  pub up : Bool
  pub auth_now : ℕ
  pub auth_put : ℕ
  pub ended : ℕ
  pub duration_ms : ℕ

pub data Reply : Type 0 where
  refused : ℕ → Str → Reply
  unauthorized : Str → Reply
  version : Reply
  forwarded : Outcome → Reply

abbrev pub Served : Type 0
Served = Proxy × Reply × Option Event

-- What `applyLocked` sets, but for the limiter.
abbrev pub applied : Proxy → Config → Limiter → Proxy
applied p cfg lim = record p {
  cfg = cfg;
  generation = suc p.generation;
  routing = record { routes = build_routes cfg; trusted = parse_trusted cfg.trusted_proxies };
  acl = build (some cfg.access_control);
  limiter = lim;
}

-- `New`, and the setters that are called before the first request.
unfoldable pub new : Config → ℕ → Option Collector → Bool → Bool → PullStore → Proxy
new cfg now metrics has_recorder has_authn pulls = record {
  cfg = cfg;
  generation = 1;
  routing = record { routes = build_routes cfg; trusted = parse_trusted cfg.trusted_proxies };
  acl = build (some cfg.access_control);
  limiter = RateLimit.new cfg.rate_limit now;
  tokens = new_cache;
  metrics = metrics;
  has_recorder = has_recorder;
  has_authn = has_authn;
  pulls = pulls;
}

unfoldable pub reload : Proxy → Config → Proxy
unfolding clone
reload p cfg =
    let cp = clone cfg in
    applied (record p { tokens = new_cache }) cp (update p.limiter cp.rate_limit)

abbrev pub counted : Option Collector → Str → Str → ℕ → Option Collector
counted none registry cls bytes = none
counted (some m) registry cls bytes = some (add_bytes (inc_request m registry cls) bytes)

unfoldable pub observe : Proxy → Str → Str → ℕ → Proxy
observe p registry cls bytes = record p { metrics = counted p.metrics registry cls bytes }

abbrev pub is_recorded : EventType → Bool
is_recorded manifest = true
is_recorded blob = true
is_recorded _ = false

abbrev pub user_agent : Request → Str
user_agent r =
    let ua = get r.header (codes "User-Agent") in if ltb 256 (length ua) then take 256 ua else ua

abbrev pub event_of : Visit → Str → Str → Outcome → Str → Option Class → Option Event
event_of v registry ip o pull_user none = none
event_of v registry ip o pull_user (some c) =
    if not (is_recorded c.event_type)
    then none
    else some (record {
      ts = v.ended;
      client_ip = ip;
      registry = registry;
      host = request_host v.request;
      event_type = c.event_type;
      repository = c.repo;
      reference = c.ref;
      method = v.request.method;
      status = o.status;
      bytes = o.written;
      duration_ms = v.duration_ms;
      user_agent = user_agent v.request;
      error = o.err_msg;
      pull_user = pull_user;
    })

-- The event that is handed to the queue.
unfoldable pub emit_event : Proxy → Visit → Str → Str → Str → Outcome → Str → Option Event
emit_event p v registry strip ip o pull_user =
    if not p.has_recorder
    then none
    else event_of v registry ip o pull_user
        (classify_path (strip_repo_path_prefix v.request.path strip))

abbrev pub refuse : Proxy → Str → ℕ → Str → Served
refuse p cls status msg = (observe p [] cls 0, refused status msg, none)

unfoldable pub to_registry : Proxy → Visit → Str → Str → Str → Option RegistryConfig → Served
to_registry p v ip pull_user strip none =
    refuse p (codes "error") status_not_found (codes "unknown registry host")
to_registry p v ip pull_user strip (some reg) =
    let x = proxy_request v.world v.request reg strip p.tokens in
    (
      observe (record p { tokens = x.0 }) reg.name (class_from_status x.1.status) x.1.written,
      forwarded x.1,
      emit_event p v reg.name strip ip x.1 pull_user,
    )

abbrev pub routed : Proxy → Visit → Str → Str → RouteHit → Served
routed p v ip pull_user hit = to_registry p v ip pull_user hit.strip_prefix hit.reg

abbrev pub is_version_path : Str → Bool
is_version_path path = str_eq path (codes "/v2/") || str_eq path (codes "/v2")

unfoldable pub let_in : Proxy → Visit → Str → PullStore × PullAnswer → Served
let_in p v ip (s, challenge realm) =
    (observe (record p { pulls = s }) [] (codes "denied") 0, unauthorized realm, none)
let_in p v ip (s, allowed pull_user) =
    let q = record p { pulls = s } in
    if is_version_path v.request.path
    then (observe q [] (codes "ok") 0, version, none)
    else if not (is_registry_path v.request.path)
    then refuse q (codes "other") status_not_found (codes "404 page not found")
    else routed q v ip pull_user (resolve_route q.routing v.request)

abbrev pub is_readonly : Request → Bool
is_readonly r = is_method r (codes "GET") || is_method r (codes "HEAD")

abbrev pub authn : Hashes → Visit → Bool → Option (PullStore → Str → Str → PullStore × Result Str)
authn h v set =
    if set
    then some (λ s user pass. authenticate_pull h s v.up v.auth_now v.auth_put user pass)
    else none

unfoldable pub within_limit : Hashes → Proxy → Visit → Str → Limiter × Bool → Served
within_limit h p v ip (lim, false) =
    refuse (record p { limiter = lim }) (codes "ratelimit") status_too_many_requests
      (codes "rate limit exceeded")
within_limit h p v ip (lim, true) =
    let q = record p { limiter = lim } in
    if not (is_readonly v.request)
    then refuse q (codes "other") status_method_not_allowed (codes "method not allowed")
    else let_in q v ip
        (check_pull_auth v.decode (authn h v q.has_authn) q.cfg.pull_auth q.pulls v.request.header)

unfoldable pub serve_http : Hashes → Proxy → Visit → Served
serve_http h p v =
    let ip = client_ip p.routing.trusted v.request in
    if not (allows p.acl ip)
    then refuse p (codes "denied") status_forbidden (codes "access denied")
    else within_limit h p v ip (allow p.limiter ip v.nanos)
