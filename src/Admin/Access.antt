-- ===== src/Admin/Access.antt =====
-- Who can change what over the console: nobody without a session or a token, a viewer no more than
-- the own password.
use easy_docker_proxy.Base.{
  ℕ, ◌≤◌, ◌≡◌, ◌≢◌, ◌⊎◌, inl, inr, refl, Bool, List, [], ◌∷◌, All, ltb, trim_space, Bool-cases,
  str_eq_iff, true, false, not, ◌&&◌, Option, none, some, if◌then◌else◌, Str, is_empty, any, ◌||◌,
  codes, has_prefix, has_prefix_iff, str_eq, arith,
}
use easy_docker_proxy.Config.{Config}
use easy_docker_proxy.Config.Copy.{admin_token}
use easy_docker_proxy.Admin.SecureEqual.{secure_equal_iff}
use easy_docker_proxy.Store.{Hashes, Result, ok, err, Error, session_invalid, database_failed}
use easy_docker_proxy.Store.Users.{
  User, Session, live, session_user, UserStore, UserRow, authenticate, check_user, create_session,
  revoke_session,
}
use easy_docker_proxy.RateLimit.{Limiter}
use easy_docker_proxy.Http.{is_method, is_clean, status_unauthorized}
use easy_docker_proxy.Api.{
  Api, bearer_token, Fields, Call, Reply, log_in, admitted_login, handle_login, handle_logout,
}
use easy_docker_proxy.Api.Users.{handle_users, handle_user_by_id}
use easy_docker_proxy.Api.PullUsers.{handle_pull_users, handle_pull_user_by_id}
use easy_docker_proxy.Admin.{
  Console, Answer, Route, handle, handle_reload, dispatch, serve, authenticate_request, is_healthz,
  by_session, token_admin, secure_equal, bearer_or_header, plain, is_read, is_machine_path,
  is_static, healthz, config_route, reload_route, login_route, logout_route, me_route, users_route,
  user_route, pull_users_route, pull_user_route, statistics_route, metrics_route, static_route,
  no_route,
}

-- The accounts, the pull users and the configuration that the proxy runs with are as before.
pub record Same (s t : Console) : Type 0 where
  pub users : t.api.users.users ≡ s.api.users.users
  pub pulls : t.api.pulls ≡ s.api.pulls
  pub config : t.config ≡ s.config

same : (s : Console) → Same s s
same s = record { users = refl; pulls = refl; config = refl }

pub record Kept (a b : Api) : Type 0 where
  pub users : b.users.users ≡ a.users.users
  pub pulls : b.pulls ≡ a.pulls

kept : (a : Api) → Kept a a
kept a = record { users = refl; pulls = refl }

-- What both branches of a test keep, the test keeps.
Same-both :
    (s : Console) (b : Bool) (x y : Console × Answer)
    → Same s x.0
    → Same s y.0
    → Same s (if b then x else y).0
Same-both s true x y p q = p
Same-both s false x y p q = q

Kept-both :
    (a : Api) (b : Bool) (x y : Api × Reply)
    → Kept a x.0
    → Kept a y.0
    → Kept a (if b then x else y).0
Kept-both a true x y p q = p
Kept-both a false x y p q = q

users_both :
    {A : Type 0} (s : UserStore) (b : Bool) (x y : UserStore × Result A)
    → x.0.users ≡ s.users
    → y.0.users ≡ s.users
    → (if b then x else y).0.users ≡ s.users
users_both s true x y p q = p
users_both s false x y p q = q

check_user-users :
    (h : Hashes) (s : UserStore) (up : Bool) (now : ℕ) (token password : Str) (o : Option UserRow)
    → (check_user h s up now token password o).0.users ≡ s.users
unfolding create_session
check_user-users h s up now token password none = refl
check_user-users h s up now token password (some r) =
    users_both s (not (h.compare r.password_hash password)) _ _ refl
      (users_both s (not up || any _ s.sessions) _ _ refl refl)

authenticate-users :
    (h : Hashes) (s : UserStore) (reads up : Bool) (now : ℕ) (token username password : Str)
    → (authenticate h s reads up now token username password).0.users ≡ s.users
unfolding authenticate
authenticate-users h s reads up now token username password =
    users_both s (not reads) _ _ refl (check_user-users h s up now token password _)

revoke_session-users :
    (h : Hashes) (s : UserStore) (up : Bool) (token : Str)
    → (revoke_session h s up token).0.users ≡ s.users
unfolding revoke_session
revoke_session-users h s up token = users_both s (not up) _ _ refl refl

log_in-Kept :
    (h : Hashes) (a : Api) (c : Call) (lim : Limiter) (f : Option Fields)
    → Kept a (log_in h (record a { login_lim = lim }) c f).0
log_in-Kept h a c lim none = record { users = refl; pulls = refl }
log_in-Kept h a c lim (some f) = record {
  users = authenticate-users h a.users c.up c.second_up c.seconds c.token f.username f.password;
  pulls = refl;
}

admitted_login-Kept :
    (h : Hashes) (a : Api) (c : Call) (x : Limiter × Bool) → Kept a (admitted_login h c x a).0
admitted_login-Kept h a c (lim, false) = record { users = refl; pulls = refl }
admitted_login-Kept h a c (lim, true) = log_in-Kept h a c lim c.body

pub handle_login-Kept : (h : Hashes) (a : Api) (c : Call) → Kept a (handle_login h a c).0
unfolding handle_login
handle_login-Kept h a c =
    Kept-both a (not (is_method c.request (codes "POST"))) _ _ (kept a)
      (admitted_login-Kept h a c _)

pub handle_logout-Kept : (h : Hashes) (a : Api) (c : Call) → Kept a (handle_logout h a c).0
unfolding handle_logout
handle_logout-Kept h a c = Kept-both a (not (is_method c.request (codes "POST"))) _ _ (kept a) (
    Kept-both a (is_empty (bearer_token c.request)) _ _ (kept a) (record {
      users = revoke_session-users h a.users c.up (bearer_token c.request);
      pulls = refl;
    }))

-- Without a user, whatever the route.
handle-Same :
    (h : Hashes) (s : Console) (c : Call) (loaded : Option Config) (r : Route)
    → Same s (handle h s none c loaded r).0
unfolding handle handle_reload handle_users handle_user_by_id handle_pull_users
    handle_pull_user_by_id
handle-Same h s c loaded reload_route =
    Same-both s (not (is_method c.request (codes "POST"))) _ _ (same s) (same s)
handle-Same h s c loaded login_route =
    let k = handle_login-Kept h s.api c in
    record { users = k.users; pulls = k.pulls; config = refl }
handle-Same h s c loaded logout_route =
    let k = handle_logout-Kept h s.api c in
    record { users = k.users; pulls = k.pulls; config = refl }
handle-Same h s c loaded healthz = same s
handle-Same h s c loaded config_route = same s
handle-Same h s c loaded me_route = same s
handle-Same h s c loaded users_route = same s
handle-Same h s c loaded user_route = same s
handle-Same h s c loaded pull_users_route = same s
handle-Same h s c loaded pull_user_route = same s
handle-Same h s c loaded statistics_route = same s
handle-Same h s c loaded metrics_route = same s
handle-Same h s c loaded static_route = same s
handle-Same h s c loaded no_route = same s

pub dispatch-Same :
    (h : Hashes) (s : Console) (c : Call) (loaded : Option Config)
    → Same s (dispatch h s none c loaded).0
unfolding dispatch
dispatch-Same h s c loaded =
    Same-both s (is_clean c.request.path) _ _ (handle-Same h s c loaded _) (same s)

-- No session that has not expired has this token.
abbrev pub NoSession : Hashes → Console → ℕ → Str → Type 0
NoSession h s now tok =
    All (λ x. (x.token ≢ h.sha (trim_space tok)) ⊎ (x.expires_at ≤ now)) s.api.users.sessions

-- It is not the admin token either, where there is one.
abbrev pub NoAdminToken : (Str → Str) → Console → Str → Type 0
NoAdminToken env s tok = (admin_token env s.config ≡ []) ⊎ (tok ≢ admin_token env s.config)

live-none :
    (key : Str) (now : ℕ) (xs : List Session)
    → All (λ x. (x.token ≢ key) ⊎ (x.expires_at ≤ now)) xs
    → live key now xs ≡ none
live-none key now [] n = refl
live-none key now (x ∷ xs) n = rw (dead (n.0)) (live-none key now xs (n.1))
  where
    dead :
        (x.token ≢ key) ⊎ (x.expires_at ≤ now)
        → (str_eq x.token key && ltb now x.expires_at) ≡ false
    dead (inl other) = elim (Bool-cases (str_eq x.token key)) [
      | inl y ↦ absurd (other ((str_eq_iff x.token key).0 y))
      | inr m ↦ rw m refl
    ]
    dead (inr old) =
        let late : ltb now x.expires_at ≡ false = ground (arith, old) in ground (arith, late)

session_user-none :
    (h : Hashes) (s : Console) (up : Bool) (now : ℕ) (tok : Str)
    → NoSession h s now tok
    → (e : Error) × (session_user h s.api.users up now tok ≡ err e)
unfolding session_user
session_user-none h s up now tok n =
    failing (is_empty (trim_space tok)) up
      (rw (live-none (h.sha (trim_space tok)) now s.api.users.sessions n) (session_invalid, refl))
  where
    failing :
        (b c : Bool) {r : Result User}
        → (e : Error) × (r ≡ err e)
        → (e : Error) × ((if b
              then err session_invalid
              else if not c
              then err database_failed
              else r)
            ≡ err e)
    failing true c k = (session_invalid, refl)
    failing false false k = (database_failed, refl)
    failing false true k = k

by_session-none :
    (tok admin_tok : Str) (r : Result User) (e : Error)
    → r ≡ err e
    → (admin_tok ≡ []) ⊎ (tok ≢ admin_tok)
    → by_session tok admin_tok r ≡ none
by_session-none tok admin_tok (ok u) e k n = cc
by_session-none tok admin_tok (err x) e k (inl blank) = rw blank refl
by_session-none tok admin_tok (err x) e k (inr other) =
    elim (Bool-cases (secure_equal tok admin_tok)) [
      | inl y ↦ absurd (other ((secure_equal_iff tok admin_tok).0 y))
      | inr m ↦ refused (not (is_empty admin_tok)) (secure_equal tok admin_tok) m
    ]
  where
    refused : (b c : Bool) → c ≡ false → (if b && c then some token_admin else none) ≡ none
    refused true true m = cc
    refused true false m = refl
    refused false c m = refl

authenticate_request-none :
    (h : Hashes) (env : Str → Str) (s : Console) (c : Call)
    → NoSession h s c.seconds (bearer_or_header c.request)
    → NoAdminToken env s (bearer_or_header c.request)
    → authenticate_request h env s c ≡ none
unfolding authenticate_request
authenticate_request-none h env s c n m =
    let tok = bearer_or_header c.request in
    let (e, k) = session_user-none h s c.up c.seconds tok n in
    blank_or (is_empty tok) _ (by_session-none tok (admin_token env s.config) _ e k m)
  where
    blank_or : (b : Bool) (o : Option User) → o ≡ none → (if b then none else o) ≡ none
    blank_or true o k = refl
    blank_or false o k = k

-- A request that carries neither the token of a session that has not expired nor the admin token,
-- where there is one, changes no account, no pull user and not the configuration, whatever it asks
-- for.
pub serve-Same :
    (h : Hashes) (env : Str → Str) (s : Console) (c : Call) (loaded : Option Config)
    → NoSession h s c.seconds (bearer_or_header c.request)
    → NoAdminToken env s (bearer_or_header c.request)
    → Same s (serve h env s c loaded).0
unfolding serve
serve-Same h env s c loaded n m =
    let e = authenticate_request-none h env s c n m in
    let public = dispatch-Same h s c loaded in
    let p = c.request.path in
    Same-both s (is_healthz p) _ _ public (
      Same-both s (is_read c && not (is_machine_path p) && not (has_prefix p (codes "/stats"))) _ _
        (same s)
        (Same-both s (str_eq p (codes "/api/v1/auth/login")) _ _ public
          (Same-both s (is_static p) _ _ public (rw e (same s)))))

-- A path of the API is no page of the console.
not_static : (p : Str) → has_prefix p (codes "/api/") ≡ true → is_static p ≡ false
not_static p h = let (r, e) = (has_prefix_iff p (codes "/api/")).0 h in rw e refl

not_healthz : (p : Str) → has_prefix p (codes "/api/") ≡ true → is_healthz p ≡ false
not_healthz p h = let (r, e) = (has_prefix_iff p (codes "/api/")).0 h in rw e refl

api_IsMachine : (p : Str) → has_prefix p (codes "/api/") ≡ true → is_machine_path p ≡ true
unfolding is_machine_path
api_IsMachine p h = rw h refl

-- Whatever the method, a request to the API, but for the login, is answered with 401 and changes
-- nothing when it carries neither the token of a live session nor the admin token.
pub serve-unauthorized :
    (h : Hashes) (env : Str → Str) (s : Console) (c : Call) (loaded : Option Config)
    → has_prefix c.request.path (codes "/api/") ≡ true
    → str_eq c.request.path (codes "/api/v1/auth/login") ≡ false
    → authenticate_request h env s c ≡ none
    → serve h env s c loaded ≡ (s, plain status_unauthorized)
unfolding serve
serve-unauthorized h env s c loaded api other e =
    let p = c.request.path in
    let machine : (is_read c && not (is_machine_path p) && not (has_prefix p (codes "/stats")))
        ≡ false =
      ground (arith, api_IsMachine p api) in
    rw (not_healthz p api, machine, other, not_static p api, e) refl
