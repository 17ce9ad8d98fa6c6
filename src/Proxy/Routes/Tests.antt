-- ===== src/Proxy/Routes/Tests.antt =====
-- Routing at the configuration of the repository's own tests.
use easy_docker_proxy.Base.{
  Str, codes, ◌≡◌, refl, some, none, true, false, [], ◌∷◌, List, trim_space, trim_slashes, head,
  tail, inr, length, ◌≤◌, empty,
}
use easy_docker_proxy.Base.Int.{pos}
use easy_docker_proxy.Config.{Config, RegistryConfig, anonymous}
use easy_docker_proxy.Config
use easy_docker_proxy.Net.{net4, contains}
use easy_docker_proxy.Net.Parse.{parse_ip}
use easy_docker_proxy.Proxy.Path.{find_ref, find_tags, extract_repo}
use easy_docker_proxy.Proxy.Request.{Request, remote_ip, ip_in_nets}
use easy_docker_proxy.Proxy.Routes.{
  PathRoute, Routes, Routing, build_routes, resolve_route, find_route, is_trusted_peer,
}
use easy_docker_proxy.Proxy.Routes.Table.{Serves}
use easy_docker_proxy.Proxy.Routes.Longest.{Under, resolve_route_path}

abbrev registry : Str → List Str → List Str → RegistryConfig
registry name hosts prefixes = record {
  name = name;
  hosts = hosts;
  path_prefixes = prefixes;
  upstream = codes "https://up.example";
  auth = record { type = anonymous; username = []; password = [] };
  insecure_skip_verify = false;
  token_cache_ttl = pos 0;
  enabled = some true;
}

abbrev gcr : RegistryConfig
gcr = registry (codes "gcr") [] (codes "gcr.io" ∷ [])

abbrev mirror : RegistryConfig
mirror = registry (codes "mirror") [] (codes " /GCR.io/mirror/ " ∷ [])

abbrev hub : RegistryConfig
hub = registry (codes "dockerhub") (codes "Reg.Example.com" ∷ []) []

abbrev config : Config
config = record {
  server = record {
    listen = [];
    admin_listen = [];
    read_timeout = pos 0;
    write_timeout = pos 0;
    idle_timeout = pos 0;
  };
  default_name = codes "dockerhub";
  log_level = codes "quiet";
  trusted_proxies = [];
  access_control = record { mode = Config.AccessControlMode.off; whitelist = []; blacklist = [] };
  rate_limit = record { enabled = false; per_ip_rps = pos 0; per_ip_burst = pos 0 };
  storage = record {
    driver = [];
    dsn = [];
    event_retention_days = pos 0;
    aggregate_retention_days = pos 0;
  };
  token_env = [];
  metrics_enabled = false;
  pull_auth = record { mode = Config.PullAuthMode.off; realm = [] };
  upstream_allowlist = record { enabled = some false; hosts = [] };
  registries = gcr ∷ mirror ∷ hub ∷ [];
  allow_insecure_upstream = false;
}

abbrev request : Str → Request
request path = record {
  method = codes "GET";
  path = path;
  raw_query = [];
  host = codes "reg.example.com:443";
  remote_addr = codes "203.0.113.9:4711";
  header = (codes "X-Forwarded-Host", codes "gcr.io") ∷ [];
}

abbrev tag_path : Str
tag_path = codes "/v2/gcr.io/mirror/app/manifests/v1"

abbrev routing : Routing
routing = record { routes = build_routes config; trusted = net4 0x7f000000 8 ∷ [] }

to_mirror :
    resolve_route routing (request tag_path)
    ≡ record { reg = some mirror; strip_prefix = codes "gcr.io/mirror" }
unfolding resolve_route build_routes extract_repo find_ref find_tags trim_space trim_slashes
to_mirror = refl

to_host :
    (find_route (extract_repo (codes "/v2/library/nginx/manifests/latest")) routing.routes.paths
      ≡ none)
    × (is_trusted_peer routing.trusted (request (codes "/v2/library/nginx/manifests/latest"))
        ≡ false)
unfolding find_route build_routes extract_repo find_ref find_tags trim_space trim_slashes
    is_trusted_peer remote_ip ip_in_nets parse_ip contains
to_host = (refl, refl)

abbrev build : Routes
build = record {
  idx = empty;
  paths =
      record { prefix = codes "gcr.io"; reg = gcr }
      ∷ record { prefix = codes "quay.io"; reg = hub }
      ∷ record { prefix = codes "gcr.io/mirror"; reg = mirror }
      ∷ [];
  def = none;
}

mirror-Serves : Serves config.registries mirror (codes "gcr.io/mirror")
unfolding trim_space trim_slashes
mirror-Serves = record {
  configured = tail (head refl);
  enabled = refl;
  raw = codes " /GCR.io/mirror/ ";
  listed = head refl;
  cleaned = refl;
  given = refl;
}

resolve_route_path_example :
    (pr : PathRoute) × (resolve_route
        (record { routes = build_routes config; trusted = [] })
        (request tag_path)
      ≡ record { reg = some pr.reg; strip_prefix = pr.prefix })
    × Serves config.registries pr.reg pr.prefix
    × Under pr.prefix (extract_repo tag_path)
    × ((reg' : RegistryConfig) (pre' : Str)
        → Serves config.registries reg' pre'
        → Under pre' (extract_repo tag_path)
        → length pre' ≤ length pr.prefix)
unfolding extract_repo find_ref find_tags
resolve_route_path_example =
    resolve_route_path config [] (request tag_path) mirror (codes "gcr.io/mirror") refl
      mirror-Serves (inr (codes "app", refl))

abbrev plain_path : Str
plain_path = codes "/v2/library/nginx/manifests/latest"
