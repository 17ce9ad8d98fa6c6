-- ===== src/Start/Tests.antt =====
-- A start on an empty database, and a few signals.
use easy_docker_proxy.Base.{
  refl, sym, List, [], ◌∷◌, none, some, true, false, Str, codes, str_eq, if◌then◌else◌, empty,
}
use easy_docker_proxy.Store.PullUsers.Tests.{plain, plain-TakesOwn}
use easy_docker_proxy.Store.Users.{authenticate}
use easy_docker_proxy.Store.Users.LastAdmin.{no_users}
use easy_docker_proxy.Store.PullUsers.{PullStore}
use easy_docker_proxy.Config.Load.{loaded, read_failed, load}
use easy_docker_proxy.Config.Load.Tests.{lookup, parse, unmarshal, result, loads, secure}
use easy_docker_proxy.Proxy.Serve.{new}
use easy_docker_proxy.Start.{Conditions, Signal, hangup, interrupt, run_signals, make_accounts}
use easy_docker_proxy.Start.FirstLogin.{IsAdminLogin, make_accounts-IsAdminLogin}
use easy_docker_proxy.Start.Signals.{Runs, run_signals-IsSafe}

abbrev no_pulls : PullStore
no_pulls = record { rows = []; next_id = 1; cache = empty }

abbrev env : Str → Str
env name = if str_eq name (codes "PROXY_WEB_PASSWORD") then codes "hunter22" else []

abbrev conditions : Conditions
conditions = record {
  counts = true;
  up = true;
  purges = false;
  pull_counts = true;
  pull_up = false;
  salt = 1;
  pull_salt = 2;
  now = 100;
}

make_accounts-IsAdminLogin_example :
    IsAdminLogin
      (codes "admin")
      (authenticate plain
        (make_accounts plain env conditions no_users no_pulls).0
        true
        true
        200
        (codes "t")
        (codes "admin")
        (codes "hunter22")).1
make_accounts-IsAdminLogin_example =
    make_accounts-IsAdminLogin plain env conditions no_pulls (codes "hunter22") (codes "t") 200
      plain-TakesOwn refl refl refl refl refl

abbrev signals : List Signal
signals = hangup read_failed ∷ hangup (loaded result) ∷ interrupt ∷ []

run_signals-IsSafe_example :
    Runs parse lookup unmarshal (run_signals (new result 0 none true true no_pulls) signals).0
unfolding load
run_signals-IsSafe_example =
    run_signals-IsSafe parse lookup unmarshal (some (codes "${HOST}")) result 0 none true true
      no_pulls signals secure loads ((none, refl), ((some (codes "${HOST}"), sym loads), (_, _)))
