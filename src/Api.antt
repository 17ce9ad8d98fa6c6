-- ===== src/Api.antt =====
-- internal/statsapi/api.go: the console's API, its accounts and sessions. Statistics has the
-- handlers that only read.
--
-- A handler takes the state and a call, and returns the state and the reply. What encoding/json
-- makes of a body is part of the call, `none` where it reports an error, and so is what
-- `r.URL.Query().Get` finds in the query.
pub mod Users
pub mod PullUsers
pub mod Statistics
use easy_docker_proxy.Base.{
  ℕ, Bool, true, false, not, List, [], ◌∷◌, Option, none, some, if◌then◌else◌, Str, codes, is_empty,
  split, trim_slashes,
}
use easy_docker_proxy.Base.Int.{ℤ, pos, negsuc}
use easy_docker_proxy.RateLimit.{Limiter, allow}
use easy_docker_proxy.Store
use easy_docker_proxy.Store.{Hashes, Result, ok, err}
use easy_docker_proxy.Store.Users.{
  UserStore, User, SessionInfo, is_admin, authenticate, revoke_session,
}
use easy_docker_proxy.Store.PullUsers.{PullStore, PullUser}
use easy_docker_proxy.Store.Stats.Series.{DayPoint}
use easy_docker_proxy.Store.Stats.Queries.{Summary, RepoRank, ClientRank, EventRow}
use easy_docker_proxy.Store.Images.{ImageSummary, ImageTagStat}
use easy_docker_proxy.Proxy.Request.{Request, get, split_host_port}
use easy_docker_proxy.Http.{
  is_method, bearer, status_ok, status_bad_request, status_unauthorized, status_forbidden,
  status_method_not_allowed, status_too_many_requests, status_internal_server_error,
}

-- The part of the store that the handlers change, and `loginLim`.
pub record Api : Type 0 where
  pub users : UserStore
  pub pulls : PullStore
  pub login_lim : Limiter

-- The fields that the handlers decode. `enabled` is missing or given.
pub record Fields : Type 0 where
  pub username : Str
  pub password : Str
  pub role : Str
  pub enabled : Option Bool

-- One call: the request, its query and body, the clock in seconds and in nanoseconds, the salt and the token
-- that are drawn, and whether the first and the second statement are carried out.
pub record Call : Type 0 where
  pub request : Request
  pub query : Str → Str
  pub body : Option Fields
  pub seconds : ℕ
  pub nanos : ℕ
  pub salt : ℕ
  pub token : Str
  pub up : Bool
  pub second_up : Bool

-- What is sent back as JSON.
pub data Body : Type 0 where
  error_body : Str → Body
  success_body : Body
  session_body : SessionInfo → Body
  user_body : User → Body
  users_body : List User → Body
  pull_user_body : PullUser → Body
  pull_users_body : List PullUser → Body
  summary_body : Summary → Body
  timeseries_body : Str → Str → List DayPoint → Body
  repos_body : Str → Str → List RepoRank → Body
  clients_body : Str → List ClientRank → Body
  events_body : List EventRow → Body
  images_body : List ImageSummary → ℕ → Str → List Str → Body
  tags_body : Str → Str → List ImageTagStat → Body
  chart_body : Str → List DayPoint → Body

pub record Reply : Type 0 where
  pub status : ℕ
  pub body : Body

abbrev pub write_err : ℕ → Str → Reply
write_err status msg = record { status = status; body = error_body msg }

abbrev pub write_ok : Body → Reply
write_ok b = record { status = status_ok; body = b }

abbrev pub internal_error : Reply
internal_error = write_err status_internal_server_error (codes "internal server error")

abbrev pub not_allowed : Reply
not_allowed = write_err status_method_not_allowed (codes "method not allowed")

-- The text of an error of the store.
abbrev pub error_text : Store.Error → Str
error_text Store.Error.username_required = codes "username required"
error_text Store.Error.weak_password = codes "password must be at least 8 characters"
error_text Store.Error.user_exists = codes "username already exists"
error_text Store.Error.user_not_found = codes "user not found"
error_text Store.Error.last_admin = codes "cannot remove the last admin"
error_text _ = codes "internal server error"

abbrev pub is_admin_user : Option User → Bool
is_admin_user none = false
is_admin_user (some u) = is_admin u.role

unfoldable pub bearer_token : Request → Str
bearer_token r = or_nothing (bearer (get r.header (codes "Authorization")))
  where
    or_nothing : Option Str → Str
    or_nothing none = []
    or_nothing (some t) = t

abbrev whole_or : Str → Option Str → Str
whole_or s none = s
whole_or s (some host) = host

unfoldable pub login_peer_ip : Request → Str
login_peer_ip r = whole_or r.remote_addr (split_host_port r.remote_addr)

-- An id that is negative is the id of no row; 0 is not either, ids start from 1.
abbrev pub row_id : ℤ → ℕ
row_id (pos n) = n
row_id (negsuc n) = 0

-- The pieces of the path after the prefix of the handler.
abbrev pub path_parts : Str → List Str
path_parts rest = split b'/' (trim_slashes rest)

-- The message is Chinese for "wrong user name or password".
abbrev pub login_reply : Result SessionInfo → Reply
login_reply (ok sess) = write_ok (session_body sess)
login_reply (err Store.Error.auth_invalid) = write_err status_unauthorized (codes "用户名或密码错误")
login_reply (err e) = internal_error

abbrev pub log_in : Hashes → Api → Call → Option Fields → Api × Reply
log_in h a c none = (a, write_err status_bad_request (codes "invalid json"))
log_in h a c (some f) =
    let r = authenticate h a.users c.up c.second_up c.seconds c.token f.username f.password in
    (record a { users = r.0 }, login_reply r.1)

abbrev pub admitted_login : Hashes → Call → Limiter × Bool → Api → Api × Reply
admitted_login h c (lim, false) a = (
  record a { login_lim = lim },
  write_err status_too_many_requests (codes "too many login attempts"),
)
admitted_login h c (lim, true) a = log_in h (record a { login_lim = lim }) c c.body

unfoldable pub handle_login : Hashes → Api → Call → Api × Reply
handle_login h a c =
    if not (is_method c.request (codes "POST"))
    then (a, not_allowed)
    else admitted_login h c (allow a.login_lim (login_peer_ip c.request) c.nanos) a

unfoldable pub handle_logout : Hashes → Api → Call → Api × Reply
handle_logout h a c =
    let tok = bearer_token c.request in
    if not (is_method c.request (codes "POST"))
    then (a, not_allowed)
    else if is_empty tok
    then (a, write_ok success_body)
    else (record a { users = (revoke_session h a.users c.up tok).0 }, write_ok success_body)

abbrev pub me_reply : Option User → Reply
me_reply none = write_err status_unauthorized (codes "unauthorized")
me_reply (some u) = write_ok (user_body u)

unfoldable pub handle_me : Option User → Call → Reply
handle_me user c = if not (is_method c.request (codes "GET")) then not_allowed else me_reply user
