-- ===== src/Start.antt =====
-- cmd/proxy/main.go: the accounts that are made at the start, and the loop over the signals.
--
-- What the loop gets is a list: the signals, with what `config.Load` answers at a reload, and the
-- errors of the two servers. What the log says is left out, and so is the start of the listeners.
pub mod FirstLogin
pub mod Signals
mod Tests
use easy_docker_proxy.Base.{
  ℕ, Bool, true, false, List, [], ◌∷◌, Option, none, some, if◌then◌else◌, Str, codes, is_empty,
}
use easy_docker_proxy.Config.Load.{LoadResult, loaded}
use easy_docker_proxy.Store.{Hashes, Result}
use easy_docker_proxy.Store.Users.{UserStore, bootstrap_admin, purge_expired_sessions}
use easy_docker_proxy.Store.PullUsers.{PullStore, bootstrap_pull_user}
use easy_docker_proxy.Proxy.Serve.{Proxy, reload}

abbrev or_name : Str → Str → Str
or_name d s = if is_empty s then d else s

-- Whether the counts and the statements of the database succeed, the salts and the clock.
pub record Conditions : Type 0 where
  pub counts : Bool
  pub up : Bool
  pub purges : Bool
  pub pull_counts : Bool
  pub pull_up : Bool
  pub salt : ℕ
  pub pull_salt : ℕ
  pub now : ℕ

-- Errors of these three are only logged.
unfoldable pub make_accounts :
    Hashes → (Str → Str) → Conditions → UserStore → PullStore → UserStore × PullStore
make_accounts h env w users pulls =
    let web_user = or_name (codes "admin") (env (codes "PROXY_WEB_USER")) in
    let pull_user = or_name (codes "puller") (env (codes "PROXY_PULL_USER")) in
    let made =
      (bootstrap_admin h users w.counts w.up w.salt w.now web_user
        (env (codes "PROXY_WEB_PASSWORD"))).0 in
    (
      (purge_expired_sessions made w.purges w.now).0,
      (bootstrap_pull_user h pulls w.pull_counts w.pull_up w.pull_salt w.now pull_user
          (env (codes "PROXY_PULL_PASSWORD"))).0,
    )

pub data Signal : Type 0 where
  hangup : LoadResult → Signal
  interrupt terminate : Signal
  server_failed : Signal

-- The steps of the end: those of the signal, and then the deferred calls, the last one first.
pub data Closing : Type 0 where
  shut_data shut_admin cancel_background close_queue cancel_again close_store : Closing

pub data Ended : Type 0 where
  running : Ended
  stopped : List Closing → Ended
  died : Ended

abbrev pub shutdown : List Closing
shutdown =
    shut_data ∷ shut_admin ∷ cancel_background ∷ close_queue ∷ cancel_again ∷ close_store ∷ []

-- A configuration that cannot be loaded changes nothing.
abbrev pub after_hangup : Proxy → LoadResult → Proxy
after_hangup p (loaded cfg) = reload p cfg
after_hangup p _ = p

-- `log.Fatalf` ends the process at once.
unfoldable pub run_signals : Proxy → List Signal → Proxy × Ended
run_signals p [] = (p, running)
run_signals p (hangup answer ∷ later) = run_signals (after_hangup p answer) later
run_signals p (interrupt ∷ later) = (p, stopped shutdown)
run_signals p (terminate ∷ later) = (p, stopped shutdown)
run_signals p (server_failed ∷ later) = (p, died)
