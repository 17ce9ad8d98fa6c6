-- ===== src/Start/Signals.antt =====
-- The configuration that the proxy runs with, whatever signals come.
use easy_docker_proxy.Base.{ℕ, ◌≡◌, sym, subst, Bool, false, List, [], ◌∷◌, Option, some, All, Str}
use easy_docker_proxy.Config.{Config}
use easy_docker_proxy.Config.Validate.{Url}
use easy_docker_proxy.Config.Load.{LoadResult, loaded, read_failed, parse_failed, rejected, load}
use easy_docker_proxy.Config.Load.Safe.{IsSafe, load-IsSafe}
use easy_docker_proxy.Store.PullUsers.{PullStore}
use easy_docker_proxy.Metrics.{Collector}
use easy_docker_proxy.Proxy.Serve.{Proxy, new}
use easy_docker_proxy.Proxy.Serve.Current.{Current, reload-Current, new-Current}
use easy_docker_proxy.Start.{
  Signal, hangup, interrupt, terminate, server_failed, after_hangup, run_signals,
}

module _ (parse : Str → Option Url) (lookup : Str → Option Str)
    (unmarshal : Str → Option Config) where
  -- Every upstream of the configuration is reached over https, at a host of its allowlist.
  abbrev pub AllSafe : Config → Type 0
  AllSafe cfg = All (IsSafe parse cfg.upstream_allowlist) cfg.registries

  -- What `Load` answers at a reload, to some text of the file or none.
  abbrev pub FromLoad : Signal → Type 0
  FromLoad (hangup answer) = (text : Option Str) × (answer ≡ load parse lookup unmarshal text)
  FromLoad _ = Unit

  -- The proxy works by its configuration, and that is a safe one.
  pub record Runs (p : Proxy) : Type 0 where
    pub current : Current p
    pub safe : AllSafe p.cfg

  module _
      (yaml : (s : Str) (c : Config)
        → unmarshal s ≡ some c
        → c.allow_insecure_upstream ≡ false) where
    after_hangup-Runs :
        (p : Proxy) (answer : LoadResult) (text : Option Str)
        → answer ≡ load parse lookup unmarshal text
        → Runs p
        → Runs (after_hangup p answer)
    after_hangup-Runs p (loaded cfg) text e r =
        let (c, same) = reload-Current p cfg in
        record {
          current = c;
          safe =
              subst AllSafe (sym same) (load-IsSafe parse lookup unmarshal text cfg yaml (sym e));
        }
    after_hangup-Runs p read_failed text e r = r
    after_hangup-Runs p parse_failed text e r = r
    after_hangup-Runs p (rejected x) text e r = r

    run_signals-Runs :
        (p : Proxy) (signals : List Signal)
        → All FromLoad signals
        → Runs p
        → Runs (run_signals p signals).0
    unfolding run_signals
    run_signals-Runs p [] f r = r
    run_signals-Runs p (hangup answer ∷ later) f r =
        run_signals-Runs (after_hangup p answer) later (f.1)
          (after_hangup-Runs p answer (f.0.0) (f.0.1) r)
    run_signals-Runs p (interrupt ∷ later) f r = r
    run_signals-Runs p (terminate ∷ later) f r = r
    run_signals-Runs p (server_failed ∷ later) f r = r

-- From the start on and through any signals, with reloads of whatever the file then has, the proxy
-- routes, filters and limits by a configuration whose upstreams are all reached over https, at a
-- host of the allowlist if there is one; the YAML library does not set the field that allows plain
-- http, which it is told to leave out.
pub run_signals-IsSafe :
    (parse : Str → Option Url) (lookup : Str → Option Str) (unmarshal : Str → Option Config)
    (text : Option Str) (cfg : Config) (now : ℕ) (m : Option Collector) (recorder authn_set : Bool)
    (pulls : PullStore) (signals : List Signal)
    → ((s : Str) (c : Config) → unmarshal s ≡ some c → c.allow_insecure_upstream ≡ false)
    → load parse lookup unmarshal text ≡ loaded cfg
    → All (FromLoad parse lookup unmarshal) signals
    → Runs parse lookup unmarshal (run_signals (new cfg now m recorder authn_set pulls) signals).0
run_signals-IsSafe parse lookup unmarshal text cfg now m recorder authn_set pulls signals yaml e f =
    let p = new cfg now m recorder authn_set pulls in
    let (c, same) = new-Current cfg now m recorder authn_set pulls in
    run_signals-Runs parse lookup unmarshal yaml p signals f (record {
      current = c;
      safe =
          subst (AllSafe parse lookup unmarshal) (sym same)
            (load-IsSafe parse lookup unmarshal text cfg yaml e);
    })
