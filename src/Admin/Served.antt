-- ===== src/Admin/Served.antt =====
-- A list of the dashboard, from the request to the events.
use easy_docker_proxy.Base.{
  ℕ, ◌≤◌, ◌≡◌, refl, ◌∙◌, true, false, not, List, Option, some, Str, codes, str_eq, has_prefix,
  ◌&&◌, arith, trim_space,
}
use easy_docker_proxy.Config.{Config}
use easy_docker_proxy.Store.{Hashes}
use easy_docker_proxy.Store.Users.{User}
use easy_docker_proxy.Store.Sql.{limited}
use easy_docker_proxy.Store.Stats.Agree.{Agree}
use easy_docker_proxy.Store.Stats.Series.{Range, parse_range}
use easy_docker_proxy.Store.Stats.Queries.{RepoRank}
use easy_docker_proxy.Store.Stats.Top.{AreTopRepos, top_repos-AreTopRepos}
use easy_docker_proxy.Http.{is_method, is_clean, atoi_or_zero}
use easy_docker_proxy.Api.{Call, write_ok, repos_body}
use easy_docker_proxy.Api.Statistics.{handle_statistics, handle_top_repos, range_of_call}
use easy_docker_proxy.Admin.{
  Console, Answer, is_read, is_healthz, is_static, json, serve, dispatch, handle, route,
  authenticate_request, is_machine_path,
}

abbrev repos_path : Str
repos_path = codes "/api/v1/top/repos"

abbrev registry_of : Call → Str
registry_of c = trim_space (c.query (codes "registry"))

abbrev limit_of : Call → ℕ
limit_of c = limited 20 100 (atoi_or_zero (c.query (codes "limit")))

-- The answer that carries the list.
abbrev pub repos_answer : Call → List RepoRank → Answer
repos_answer c out = json (write_ok (repos_body (range_of_call c) (registry_of c) out))

dispatched :
    (h : Hashes) (s : Console) (c : Call) (loaded : Option Config) (u : User)
    → c.request.path ≡ repos_path
    → dispatch h s (some u) c loaded ≡ (s, json (handle_top_repos s.tables c))
unfolding dispatch handle route is_clean handle_statistics
dispatched h s c loaded u p = rw p refl

served :
    (h : Hashes) (env : Str → Str) (s : Console) (c : Call) (loaded : Option Config) (u : User)
    → c.request.path ≡ repos_path
    → authenticate_request h env s c ≡ some u
    → serve h env s c loaded ≡ (s, json (handle_top_repos s.tables c))
unfolding serve is_machine_path
served h env s c loaded u p a =
    let path = c.request.path in
    let health : is_healthz path ≡ false = rw p refl in
    let api : is_machine_path path ≡ true = rw p refl in
    let machine : (is_read c
          && not (is_machine_path path)
          && not (has_prefix path (codes "/stats")))
        ≡ false =
      ground (arith, api) in
    let login : str_eq path (codes "/api/v1/auth/login") ≡ false = rw p refl in
    let static : is_static path ≡ false = rw p refl in
    rw (health, machine, login, static, a) (dispatched h s c loaded u p)

-- A user who is logged in and asks for the list of the most pulled repositories is answered, while
-- the database works, with the list of the most pulled repositories among the events that are kept,
-- for a range that is accepted and whose days the daily sums cover; and nothing changes.
pub serve-AreTopRepos :
    (h : Hashes) (env : Str → Str) (s : Console) (c : Call) (loaded : Option Config) (u : User)
    (d0 : ℕ) (g : Range)
    → is_method c.request (codes "GET") ≡ true
    → c.request.path ≡ repos_path
    → authenticate_request h env s c ≡ some u
    → c.up ≡ true
    → Agree d0 s.tables
    → parse_range (range_of_call c) c.seconds ≡ some g
    → d0 ≤ g.from_day
    → (out : List RepoRank) × (serve h env s c loaded ≡ (s, repos_answer c out))
      × AreTopRepos g (trim_space (registry_of c)) (limit_of c) s.tables.events out
unfolding handle_top_repos
serve-AreTopRepos h env s c loaded u d0 g m p auth up a e late =
    let limit = atoi_or_zero (c.query (codes "limit")) in
    let (out, query, top) =
      top_repos-AreTopRepos d0 s.tables c.seconds (range_of_call c) (registry_of c) limit g a e
        late in
    (out, served h env s c loaded u p auth ∙ rw (m, up, query) refl, top)
