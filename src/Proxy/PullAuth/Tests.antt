-- ===== src/Proxy/PullAuth/Tests.antt =====
-- Credentials that decode to themselves, and one account.
use easy_docker_proxy.Base.{
  ◌≡◌, refl, Bool, true, [], ◌∷◌, ◌&&◌, if◌then◌else◌, inl, inr, some, Str, codes, str_eq,
  trim_space,
}
use easy_docker_proxy.Config.{PullAuthConfig, required}
use easy_docker_proxy.Store.{Result, ok, err, auth_invalid}
use easy_docker_proxy.Proxy.Request.{Header}
use easy_docker_proxy.Proxy.PullAuth.{allowed, challenge, check_pull_auth, parse_basic_auth}
use easy_docker_proxy.Proxy.PullAuth.Basic.{IsBasic}
use easy_docker_proxy.Proxy.PullAuth.Required.{check_pull_auth_iff}

abbrev on : PullAuthConfig
on = record { mode = required; realm = [] }

abbrev one_account : Bool → Str → Str → Bool × Result Str
one_account s user pass =
    (s, if str_eq user (codes "ci") && str_eq pass (codes "a:b") then ok user else err auth_invalid)

abbrev with : Str → Header
with v = (codes "Authorization", v) ∷ []

answers :
    ((check_pull_auth some (some one_account) on true (with (codes "BASIC ci:a:b"))).1
      ≡ allowed (codes "ci"))
    × ((check_pull_auth some (some one_account) on true (with (codes "Bearer ci:a:b"))).1
        ≡ challenge (codes "easy-docker-proxy"))
unfolding check_pull_auth parse_basic_auth trim_space
answers = (refl, refl)

IsBasic-ci : IsBasic some (codes "Basic ci:a:b") (codes "ci") (codes "a:b")
unfolding trim_space
IsBasic-ci = record {
  scheme = codes "Basic ";
  rest = codes "ci:a:b";
  splits = refl;
  basic = refl;
  decodes = refl;
  one_word = refl;
}

check_pull_auth_iff_example :
    (check_pull_auth some (some one_account) on true (with (codes "Basic ci:a:b"))).1
    ≡ allowed (codes "ci")
unfolding trim_space
check_pull_auth_iff_example =
    (check_pull_auth_iff (some one_account) some on true (with (codes "Basic ci:a:b"))
        (codes "ci")).1
      (inr ((λ e. cc, λ e. cc), inl (one_account, codes "ci", codes "a:b", refl, IsBasic-ci, refl)))
