-- ===== src/Config/Load/Safe.antt =====
-- Where a configuration that is loaded lets the proxy connect to.
use easy_docker_proxy.Base.{
  ◌≡◌, refl, sym, subst, ap, ◌∙◌, ◌⊎◌, Bool, true, false, not, List, [], ◌∷◌, Option, none, some,
  if◌then◌else◌, any, any-witness, All, In, Str, codes, is_empty, str_eq, to_lower, equal_fold,
  trim_space, Dict, insert, empty, Bool-cases, inl, inr, str_eq_iff,
}
use easy_docker_proxy.Config.{RegistryConfig, UpstreamAllowlist, Config, is_enabled}
use easy_docker_proxy.Config.Validate.{
  Error, Result, ok, err, Url, unless, stored, guard, ◌then_check◌, check_scheme, check_url,
  check_before, check_after, check_registry, check_registries, next_registries, with_registry,
  claim_prefixes, finish, check_rest, validate, validate_upstream_host, valid_auth, or_hosts,
  no_registries, no_registry, validate_access_control, check_rules, https_required,
  scheme_unsupported, host_missing, host_empty, host_not_allowed, upstream_missing,
  auth_type_invalid,
}
use easy_docker_proxy.Config.Load.{
  LoadResult, loaded, checked, parsed, load, normalize, normalize_allowlist, hosts_or_default,
  or_true, getenv, expand_env,
}

-- The name is that of a host of the allowlist, in any spelling.
abbrev pub Listed : UpstreamAllowlist → Str → Type 0
Listed a host =
    (x : Str) × In x a.hosts × (equal_fold (trim_space x) (to_lower (trim_space host)) ≡ true)

-- The upstream is reached over https, at a host of the allowlist if there is one.
pub record IsSafe (parse : Str → Option Url) (a : UpstreamAllowlist) (r : RegistryConfig)
    : Type 0 where
  pub url : Url
  pub parses : parse r.upstream ≡ some url
  pub https : to_lower url.scheme ≡ codes "https"
  pub listed : (is_enabled a.enabled ≡ false) ⊎ Listed a url.hostname
  pub auth : valid_auth r.auth.type ≡ true

guard-none : (b : Bool) (e : Error) → guard b e ≡ none → b ≡ true
guard-none true e h = refl
guard-none false e h = cc

both_none : (a b : Option Error) → (a then_check b) ≡ none → (a ≡ none) × (b ≡ none)
both_none none b h = (refl, h)
both_none (some e) b h = cc

check_scheme-https : (scheme : Str) → check_scheme false scheme ≡ none → scheme ≡ codes "https"
check_scheme-https scheme h = elim (Bool-cases (str_eq scheme (codes "https"))) [
  | inl y ↦ (str_eq_iff scheme (codes "https")).0 y
  | inr n ↦ absurd (refused (str_eq scheme (codes "http")) (rw n at h))
]
  where
    refused :
        (b : Bool) → (if b then guard false https_required else some scheme_unsupported) ≡ none → ⊥
    refused true e = cc
    refused false e = cc

-- The allowlist is as `Normalize` leaves it.
abbrev HasHosts : UpstreamAllowlist → Type 0
HasHosts a = is_enabled a.enabled ≡ true → or_hosts a.hosts ≡ a.hosts

validate_upstream_host-Listed :
    (a : UpstreamAllowlist) (host : Str)
    → HasHosts a
    → validate_upstream_host a host ≡ none
    → is_enabled a.enabled ≡ true
    → Listed a host
unfolding validate_upstream_host
validate_upstream_host-Listed a host whole h on =
    let k = to_lower (trim_space host) in
    let test : Str → Bool = λ x. equal_fold (trim_space x) k in
    let g = rw on at h in
    elim (Bool-cases (is_empty k)) [
      | inl y ↦ absurd (no_host (rw y at g))
      | inr n ↦
          let f = guard-none (any test (or_hosts a.hosts)) host_not_allowed (rw n at g) in
          any-witness test a.hosts (ap (any test) (sym (whole on)) ∙ f)
    ]
  where
    no_host : some host_empty ≡ none → ⊥
    no_host e = cc

check_url-IsSafe :
    (parse : Str → Option Url) (cfg : Config) (r : RegistryConfig) (ps : List Str) (u : Option Url)
    → cfg.allow_insecure_upstream ≡ false
    → HasHosts cfg.upstream_allowlist
    → parse r.upstream ≡ u
    → check_url cfg u ≡ none
    → valid_auth r.auth.type ≡ true
    → IsSafe parse cfg.upstream_allowlist (record r { path_prefixes = ps })
check_url-IsSafe parse cfg r ps none secure whole e h auth = cc
check_url-IsSafe parse cfg r ps (some u) secure whole e h auth =
    let scheme = check_scheme cfg.allow_insecure_upstream (to_lower u.scheme) in
    let host = validate_upstream_host cfg.upstream_allowlist u.hostname in
    let a = both_none scheme (guard (not (is_empty u.host)) host_missing then_check host) h in
    let b = both_none (guard (not (is_empty u.host)) host_missing) host (a.1) in
    record {
      url = u;
      parses = e;
      https = check_scheme-https (to_lower u.scheme) (rw secure at (a.0));
      listed = elim (Bool-cases (is_enabled cfg.upstream_allowlist.enabled)) [
        | inl y ↦
            inr (validate_upstream_host-Listed cfg.upstream_allowlist u.hostname whole (b.1) y)
        | inr n ↦ inl n
      ];
      auth = auth;
    }

module _ (parse : Str → Option Url) (cfg : Config) (secure : cfg.allow_insecure_upstream ≡ false)
    (whole : HasHosts cfg.upstream_allowlist) where
  abbrev Good : RegistryConfig → Type 0
  Good = IsSafe parse cfg.upstream_allowlist

  check_after-IsSafe :
      (r : RegistryConfig) (ps : List Str)
      → check_after parse cfg r ≡ none
      → Good (record r { path_prefixes = ps })
  check_after-IsSafe r ps h =
      let url = check_url cfg (parse r.upstream) in
      let auth = guard (valid_auth r.auth.type) auth_type_invalid in
      let a =
        both_none (guard (not (is_empty r.upstream)) upstream_missing) (url then_check auth) h in
      let b = both_none url auth (a.1) in
      check_url-IsSafe parse cfg r ps (parse r.upstream) secure whole refl (b.0)
        (guard-none (valid_auth r.auth.type) auth_type_invalid (b.1))

  abbrev GoodOne : Result (Dict Str × RegistryConfig) → Type 0
  GoodOne (err e) = Unit
  GoodOne (ok x) = Good x.1

  abbrev GoodAll : Result (Dict Bool × List RegistryConfig) → Type 0
  GoodAll (err e) = Unit
  GoodAll (ok x) = All Good x.1

  check_registry-Good :
      (names : Dict Bool) (owners : Dict Str) (r : RegistryConfig)
      → GoodOne (check_registry parse cfg names owners r)
  unfolding check_registry
  check_registry-Good names owners r =
      first _ (check_before names r)
        (later (check_after parse cfg r) refl (claim_prefixes r.name owners r.path_prefixes))
    where
      first :
          (x : Result (Dict Str × RegistryConfig)) (o : Option Error)
          → GoodOne x
          → GoodOne (unless o x)
      first x none v = v
      first x (some e) v = _

      later :
          (o : Option Error)
          → check_after parse cfg r ≡ o
          → (x : Result (Dict Str × List Str)) → GoodOne (stored r o x)
      later o e (err f) = _
      later none e (ok x) = check_after-IsSafe r (x.1) e
      later (some f) e (ok x) = _

  next_registries-Good :
      (x : Result (Dict Str × RegistryConfig))
      (rest : Dict Str → Result (Dict Bool × List RegistryConfig))
      → GoodOne x
      → ((owners : Dict Str) → GoodAll (rest owners))
      → GoodAll (next_registries x rest)
  next_registries-Good (err e) rest v w = _
  next_registries-Good (ok x) rest v w = with_all (rest (x.0)) (w (x.0))
    where
      with_all :
          (y : Result (Dict Bool × List RegistryConfig))
          → GoodAll y
          → GoodAll (with_registry (x.1) y)
      with_all (err e) k = _
      with_all (ok y) k = (v, k)

  check_registries-Good :
      (names : Dict Bool) (owners : Dict Str) (regs : List RegistryConfig)
      → GoodAll (check_registries parse cfg names owners regs)
  unfolding check_registries
  check_registries-Good names owners [] = _
  check_registries-Good names owners (r ∷ regs) =
      next_registries-Good (check_registry parse cfg names owners r) _
        (check_registry-Good names owners r)
        (λ later. check_registries-Good (insert r.name true names) later regs)

  abbrev GoodConfig : Result Config → Type 0
  GoodConfig (err e) = Unit
  GoodConfig (ok c) = All (IsSafe parse c.upstream_allowlist) c.registries

  validate-Good : (env : Str → Str) → GoodConfig (validate parse env cfg)
  unfolding validate
  validate-Good env =
      start _
        (guard (not (no_registries cfg.registries)) no_registry
          then_check validate_access_control cfg.access_control
          then_check check_rules cfg.trusted_proxies)
        (ends (check_registries parse cfg empty empty cfg.registries)
          (check_registries-Good empty empty cfg.registries))
    where
      start : (x : Result Config) (o : Option Error) → GoodConfig x → GoodConfig (unless o x)
      start x none v = v
      start x (some e) v = _

      ends :
          (x : Result (Dict Bool × List RegistryConfig)) → GoodAll x → GoodConfig (finish env cfg x)
      ends (err e) v = _
      ends (ok x) v = start (ok (record cfg { registries = x.1 })) (check_rest env cfg (x.0)) v

normalize_allowlist-HasHosts : (a : UpstreamAllowlist) → HasHosts (normalize_allowlist a)
normalize_allowlist-HasHosts a on = filled (is_enabled (or_true a.enabled)) a.hosts on
  where
    filled :
        (b : Bool) (hosts : List Str)
        → b ≡ true
        → or_hosts (hosts_or_default b hosts) ≡ hosts_or_default b hosts
    filled true [] e = refl
    filled false [] e = cc
    filled b (h ∷ hosts) e = refl

normalize-HasHosts : (c : Config) → HasHosts (normalize c).upstream_allowlist
unfolding normalize
normalize-HasHosts c = normalize_allowlist-HasHosts c.upstream_allowlist

normalize-insecure :
    (c : Config) → (normalize c).allow_insecure_upstream ≡ c.allow_insecure_upstream
unfolding normalize
normalize-insecure c = refl

abbrev AllSafe : (Str → Option Url) → LoadResult → Type 0
AllSafe parse (loaded cfg) = All (IsSafe parse cfg.upstream_allowlist) cfg.registries
AllSafe parse _ = Unit

checked-AllSafe :
    (parse : Str → Option Url) (c : Config) (secure : c.allow_insecure_upstream ≡ false)
    (whole : HasHosts c.upstream_allowlist) (x : Result Config)
    → GoodConfig parse c secure whole x
    → AllSafe parse (checked x)
checked-AllSafe parse c secure whole (err e) v = _
checked-AllSafe parse c secure whole (ok cfg) v = v

-- Each registry of a configuration that is loaded has an upstream URL over https, whose host is
-- one of the allowlist, unless that is switched off, and a known kind of authentication; the YAML
-- library does not set the field that allows plain http, which it is told to leave out.
pub load-IsSafe :
    (parse : Str → Option Url) (lookup : Str → Option Str) (unmarshal : Str → Option Config)
    (text : Option Str) (cfg : Config)
    → ((s : Str) (c : Config) → unmarshal s ≡ some c → c.allow_insecure_upstream ≡ false)
    → load parse lookup unmarshal text ≡ loaded cfg
    → All (IsSafe parse cfg.upstream_allowlist) cfg.registries
unfolding load
load-IsSafe parse lookup unmarshal none cfg yaml e = cc
load-IsSafe parse lookup unmarshal (some text) cfg yaml e =
    subst (AllSafe parse) e (of_config (unmarshal (expand_env lookup text)) refl)
  where
    of_config :
        (o : Option Config)
        → unmarshal (expand_env lookup text) ≡ o
        → AllSafe parse (parsed parse lookup o)
    of_config none q = _
    of_config (some c) q =
        let secure : (normalize c).allow_insecure_upstream ≡ false =
          normalize-insecure c ∙ yaml (expand_env lookup text) c q in
        let whole : HasHosts (normalize c).upstream_allowlist = normalize-HasHosts c in
        checked-AllSafe parse (normalize c) secure whole
          (validate parse (getenv lookup) (normalize c))
          (validate-Good parse (normalize c) secure whole (getenv lookup))
