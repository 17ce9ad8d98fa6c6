-- ===== src/Proxy/Serve/Tests.antt =====
-- A proxy for one registry, and a pull that needs a token.
use easy_docker_proxy.Base.{
  ◌≡◌, inl, inr, refl, true, List, Str, [], ◌∷◌, none, some, codes, str_eq, empty, trim_space,
  is_empty, if◌then◌else◌,
}
use easy_docker_proxy.Base.Int.{pos}
use easy_docker_proxy.Config.{RegistryConfig, token}
use easy_docker_proxy.Config.Validate.Tests.{config, registry}
use easy_docker_proxy.Store.{Hashes}
use easy_docker_proxy.Store.PullUsers.{PullStore}
use easy_docker_proxy.Proxy.Request.{Request, get, remote_ip, split_host_port}
use easy_docker_proxy.Proxy.Path.{is_registry_path, find_ref, extract_repo}
use easy_docker_proxy.Proxy.Path.Submatch.{RefPath}
use easy_docker_proxy.Acl.{build, allows}
use easy_docker_proxy.RateLimit
use easy_docker_proxy.RateLimit.{allow}
use easy_docker_proxy.Proxy.ClientIp.{client_ip}
use easy_docker_proxy.Proxy.Routes.{build_routes, resolve_route}
use easy_docker_proxy.Proxy.Exchange.{World, Response, proxy_request}
use easy_docker_proxy.Proxy.Exchange.Replies.{Clean, proxy_request-Clean}
use easy_docker_proxy.Proxy.Exchange.Requests.{Requests, IsFirstToken, proxy_request-Requests}
use easy_docker_proxy.Upstream.Tokens.{new_cache}
use easy_docker_proxy.Proxy.Serve.{Proxy, Visit, new, serve_http}
use easy_docker_proxy.Proxy.Serve.Admitted.{is_forwarded, pull_answer, serve_http_iff}
use easy_docker_proxy.Proxy.Serve.Current.{
  Op, visit_op, reload_op, apply_all, Current, last_config, runs-Current,
}
use easy_docker_proxy.Proxy.Serve.Recorded.{Recorded, serve_http-Recorded}

abbrev clear : Hashes
clear = record {
  generate = λ salt pw. some pw;
  compare = λ hash pw. str_eq hash pw;
  sha = λ pw. pw;
}

abbrev hub : RegistryConfig
hub = record (registry (codes "hub") (codes "https://hub") []) {
  hosts = codes "proxy.local" ∷ [];
  auth = record { type = token; username = []; password = [] };
}

abbrev challenge_reply : Response
challenge_reply = record {
  status_code = 401;
  header = (codes "Www-Authenticate", codes "Bearer realm=\"https://auth\"") ∷ [];
  body = [];
  complete = true;
}

abbrev manifest_reply : Response
manifest_reply = record {
  status_code = 200;
  header = (codes "Content-Type", codes "application/json") ∷ [];
  body = codes "{\"layers\":" ∷ codes "[]}" ∷ [];
  complete = true;
}

abbrev world : World
world = record {
  parse = λ s. some (record { authority = s; path = []; raw_query = [] });
  encode = λ s. s;
  first = λ s.
      some (
        if is_empty (get s.header (codes "Authorization"))
        then challenge_reply
        else manifest_reply);
  second = λ s. some manifest_reply;
  takes_realm = λ realm. true;
  reply = λ ch scope. some (record { token = codes "t"; access_token = []; expires_in = pos 300 });
  peeked_at = 5;
  now = 6;
  later = 7;
  writes = 10;
}

abbrev pull : Request
pull = record {
  method = codes "GET";
  path = codes "/v2/library/redis/manifests/7";
  raw_query = [];
  host = codes "proxy.local:5000";
  remote_addr = codes "192.0.2.7:4242";
  header = (codes "Authorization", codes "Basic c2VjcmV0") ∷ [];
}

abbrev visit : Visit
visit = record {
  request = pull;
  world = world;
  decode = λ s. some s;
  nanos = 9;
  up = true;
  auth_now = 9;
  auth_put = 9;
  ended = 10;
  duration_ms = 1;
}

abbrev start : Proxy
start =
    new (config [] (hub ∷ [])) 0 none true true (record { rows = []; next_id = 1; cache = empty })

proxy_request-Requests_example :
    (t : Str) × IsFirstToken world pull hub [] new_cache t
    × Requests world pull hub t (proxy_request world pull hub [] new_cache).1.sent
proxy_request-Requests_example = proxy_request-Requests world pull hub [] new_cache

proxy_request-Clean_example : Clean world pull (proxy_request world pull hub [] new_cache).1
proxy_request-Clean_example = proxy_request-Clean world pull hub [] new_cache

path_IsRef : RefPath (codes "manifests") pull.path (codes "library/redis") (codes "7")
path_IsRef = record { splits = refl; named = refl; given = refl; one_segment = refl }

serve_http_iff_example : is_forwarded (serve_http clear start visit) ≡ true
unfolding new client_ip remote_ip split_host_port allows build allow RateLimit.new is_registry_path
    find_ref resolve_route extract_repo build_routes trim_space
serve_http_iff_example = (serve_http_iff clear start visit).1 (
  refl,
  (
    refl,
    (
      inl refl,
      (
        ([], inl (inr refl, refl)),
        (
          (λ e. cc, λ e. cc),
          (
            inl (inl (inl (codes "library/redis", codes "7", path_IsRef))),
            (
              hub,
              refl,
              record { authority = codes "https://hub"; path = []; raw_query = [] },
              refl,
            ),
          ),
        ),
      ),
    ),
  ),
)

serve_http-Recorded_example :
    Recorded
      (client_ip start.routing.trusted visit.request)
      (pull_answer clear start visit).1
      (serve_http clear start visit)
serve_http-Recorded_example = serve_http-Recorded clear start visit

abbrev accounts : PullStore
accounts = record { rows = []; next_id = 1; cache = empty }

abbrev ops : List Op
ops = visit_op visit ∷ reload_op (config [] []) ∷ visit_op visit ∷ []

runs-Current_example :
    Current (apply_all clear (new (config [] (hub ∷ [])) 0 none true true accounts) ops)
    × ((apply_all clear (new (config [] (hub ∷ [])) 0 none true true accounts) ops).cfg
        ≡ last_config (config [] (hub ∷ [])) ops)
runs-Current_example = runs-Current clear (config [] (hub ∷ [])) 0 none true true accounts ops
