-- ===== src/Admin.antt =====
-- internal/admin/admin.go: the server of the console, with the routes of internal/statsapi/api.go
-- and internal/web/web.go on its `ServeMux`.
--
-- The store and the API are always there, as cmd/proxy/main.go sets them; metrics may be off. `env`
-- is the value of an environment variable. What `config.Load` answers at a reload is part of the
-- call.
pub mod SecureEqual
pub mod Access
pub mod Viewer
pub mod Served
mod Tests
use easy_docker_proxy.Base.{
  ℕ, Bool, true, false, not, ◌&&◌, ◌||◌, List, [], ◌∷◌, Option, none, some, ◌==◌, if◌then◌else◌,
  Str, codes, is_empty, str_eq, has_prefix, has_suffix, ◌++◌, to_lower, drop, length, trim_space,
}
use Prim.Native.Nat.{bit_or, bit_xor}
use easy_docker_proxy.Config.{Config}
use easy_docker_proxy.Web.{clean}
use easy_docker_proxy.Config.Copy.{masked_copy, admin_token, clone}
use easy_docker_proxy.Store.{Hashes, Result, ok, err}
use easy_docker_proxy.Store.Users.{User, admin, session_user}
use easy_docker_proxy.Proxy.Request.{Request, get}
use easy_docker_proxy.Http.{
  is_method, is_clean, bearer, status_ok, status_unauthorized, status_found, status_forbidden,
  status_not_found, status_method_not_allowed, status_internal_server_error,
  status_moved_permanently,
}
use easy_docker_proxy.Api.{
  Api, Call, Reply, write_err, is_admin_user, handle_login, handle_logout, handle_me,
}
use easy_docker_proxy.Store.Stats.{Tables}
use easy_docker_proxy.Api.Statistics.{handle_statistics}
use easy_docker_proxy.Api.Users.{handle_users, handle_user_by_id}
use easy_docker_proxy.Api.PullUsers.{handle_pull_users, handle_pull_user_by_id}

-- What the handlers of this server use. `config` is the one that the proxy runs with.
pub record Console : Type 0 where
  pub api : Api
  pub tables : Tables
  pub config : Config
  pub metrics_on : Bool

pub data Answer : Type 0 where
  plain : ℕ → Answer
  redirect : ℕ → Str → Answer
  json : Reply → Answer
  config_json : Config → Answer
  reload_json : ℕ → Answer
  static_page metrics_page : Answer

-- The patterns of the mux.
pub data Route : Type 0 where
  healthz config_route reload_route login_route logout_route me_route : Route
  users_route user_route pull_users_route pull_user_route statistics_route : Route
  metrics_route static_route no_route : Route

abbrev pub is_statistics : Str → Bool
is_statistics p =
    str_eq p (codes "/api/v1/summary")
    || str_eq p (codes "/api/v1/timeseries")
    || str_eq p (codes "/api/v1/top/repos")
    || str_eq p (codes "/api/v1/top/clients")
    || str_eq p (codes "/api/v1/errors")
    || str_eq p (codes "/api/v1/events")
    || str_eq p (codes "/api/v1/images")
    || str_eq p (codes "/api/v1/images/tags")
    || str_eq p (codes "/api/v1/images/timeseries")

abbrev pub is_healthz : Str → Bool
is_healthz p = str_eq p (codes "/healthz") || str_eq p (codes "/-/healthz")

abbrev pub is_static : Str → Bool
is_static p = str_eq p (codes "/stats") || has_prefix p (codes "/stats/")

unfoldable pub route : Bool → Str → Route
route metrics_on p =
    if is_healthz p
    then healthz
    else if str_eq p (codes "/-/config")
    then config_route
    else if str_eq p (codes "/-/reload")
    then reload_route
    else if str_eq p (codes "/api/v1/auth/login")
    then login_route
    else if str_eq p (codes "/api/v1/auth/logout")
    then logout_route
    else if str_eq p (codes "/api/v1/auth/me")
    then me_route
    else if str_eq p (codes "/api/v1/users")
    then users_route
    else if has_prefix p (codes "/api/v1/users/")
    then user_route
    else if str_eq p (codes "/api/v1/pull-users")
    then pull_users_route
    else if has_prefix p (codes "/api/v1/pull-users/")
    then pull_user_route
    else if is_statistics p
    then statistics_route
    else if metrics_on && str_eq p (codes "/metrics")
    then metrics_route
    else if is_static p
    then static_route
    else no_route

abbrev pub lower_bearer : Str → Option Str
lower_bearer ah =
    if has_prefix (to_lower ah) (codes "bearer ") then some (trim_space (drop 7 ah)) else none

unfoldable pub bearer_or_header : Request → Str
bearer_or_header r =
    let ah = get r.header (codes "Authorization") in
    by_scheme (bearer ah) (lower_bearer ah) (get r.header (codes "X-Admin-Token"))
  where
    by_scheme : Option Str → Option Str → Str → Str
    by_scheme (some t) lower header = t
    by_scheme none (some t) header = t
    by_scheme none none header = header

-- The loop over two texts of one length, with the bits collected in `v`.
abbrev pub differences : ℕ → Str → Str → ℕ
differences v (a ∷ s) (b ∷ t) = differences (bit_or v (bit_xor a b)) s t
differences v _ _ = v

unfoldable pub secure_equal : Str → Str → Bool
secure_equal a b = if not (length a == length b) then false else differences 0 a b == 0

abbrev pub token_admin : User
token_admin = record {
  id = 0;
  username = codes "token-admin";
  role = admin;
  created_at = 0;
  updated_at = 0;
}

abbrev pub by_session : Str → Str → Result User → Option User
by_session tok admin_tok (ok u) = some u
by_session tok admin_tok (err e) =
    if not (is_empty admin_tok) && secure_equal tok admin_tok then some token_admin else none

unfoldable pub authenticate_request : Hashes → (Str → Str) → Console → Call → Option User
authenticate_request h env s c =
    let tok = bearer_or_header c.request in
    if is_empty tok
    then none
    else by_session tok (admin_token env s.config) (session_user h s.api.users c.up c.seconds tok)

unfoldable pub handle_healthz : Call → Answer
handle_healthz c =
    if not (is_method c.request (codes "GET")) && not (is_method c.request (codes "HEAD"))
    then plain status_method_not_allowed
    else plain status_ok

unfoldable pub handle_config : Console → Option User → Call → Answer
handle_config s user c =
    if not (is_method c.request (codes "GET"))
    then json (write_err status_method_not_allowed (codes "method not allowed"))
    else if not (is_admin_user user)
    then json (write_err status_forbidden (codes "admin only"))
    else config_json (masked_copy s.config)

abbrev pub reloaded : Console → Option Config → Console × Answer
reloaded s none =
    (s, json (write_err status_internal_server_error (codes "reload failed; check server logs")))
reloaded s (some next) = (record s { config = clone next }, reload_json (length next.registries))

unfoldable pub handle_reload : Console → Option User → Call → Option Config → Console × Answer
handle_reload s user c loaded =
    if not (is_method c.request (codes "POST"))
    then (s, json (write_err status_method_not_allowed (codes "method not allowed")))
    else if not (is_admin_user user)
    then (s, json (write_err status_forbidden (codes "admin only")))
    else reloaded s loaded

-- A handler of the API, on the console.
abbrev pub in_api : Console → Api × Reply → Console × Answer
in_api s (a, reply) = (record s { api = a }, json reply)

-- The metrics handler takes GET and HEAD.
abbrev pub metrics_answer : Call → Answer
metrics_answer c =
    if not (is_method c.request (codes "GET")) && not (is_method c.request (codes "HEAD"))
    then plain status_method_not_allowed
    else metrics_page

unfoldable pub handle :
    Hashes → Console → Option User → Call → Option Config → Route → Console × Answer
handle h s user c loaded healthz = (s, handle_healthz c)
handle h s user c loaded config_route = (s, handle_config s user c)
handle h s user c loaded reload_route = handle_reload s user c loaded
handle h s user c loaded login_route = in_api s (handle_login h s.api c)
handle h s user c loaded logout_route = in_api s (handle_logout h s.api c)
handle h s user c loaded me_route = (s, json (handle_me user c))
handle h s user c loaded users_route = in_api s (handle_users h s.api user c)
handle h s user c loaded user_route = in_api s (handle_user_by_id h s.api user c)
handle h s user c loaded pull_users_route = in_api s (handle_pull_users h s.api user c)
handle h s user c loaded pull_user_route = in_api s (handle_pull_user_by_id h s.api user c)
handle h s user c loaded statistics_route = (s, json (handle_statistics s.tables c))
handle h s user c loaded metrics_route = (s, metrics_answer c)
handle h s user c loaded static_route = (s, static_page)
handle h s user c loaded no_route = (s, plain status_not_found)

-- `cleanPath` of package net/http: `path.Clean`, with a slash at the end kept.
abbrev pub mux_path : Str → Str
mux_path p =
    let c = clean p in
    if has_suffix p (codes "/") && not (str_eq c (codes "/")) then c ++ codes "/" else c

-- `mux.ServeHTTP`
unfoldable pub dispatch : Hashes → Console → Option User → Call → Option Config → Console × Answer
dispatch h s user c loaded =
    let p = c.request.path in
    if is_clean p
    then handle h s user c loaded (route s.metrics_on p)
    else (s, redirect status_moved_permanently (mux_path p))

unfoldable pub is_machine_path : Str → Bool
is_machine_path p =
    has_prefix p (codes "/api/") || str_eq p (codes "/metrics") || has_prefix p (codes "/-/")

abbrev pub is_read : Call → Bool
is_read c = is_method c.request (codes "GET") || is_method c.request (codes "HEAD")

abbrev pub authenticated : Hashes → Console → Call → Option Config → Option User → Console × Answer
authenticated h s c loaded none = (s, plain status_unauthorized)
authenticated h s c loaded (some u) = dispatch h s (some u) c loaded

-- The handler that `NewMux` returns. The headers that it adds are the same on every reply.
unfoldable pub serve : Hashes → (Str → Str) → Console → Call → Option Config → Console × Answer
serve h env s c loaded =
    let p = c.request.path in
    if is_healthz p
    then dispatch h s none c loaded
    else if is_read c && not (is_machine_path p) && not (has_prefix p (codes "/stats"))
    then (s, redirect status_found (codes "/stats/login.html"))
    else if str_eq p (codes "/api/v1/auth/login")
    then dispatch h s none c loaded
    else if is_static p
    then dispatch h s none c loaded
    else authenticated h s c loaded (authenticate_request h env s c)
