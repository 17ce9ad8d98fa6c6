-- ===== src/Config/Load/Defaults.antt =====
-- What `Normalize` leaves behind.
use easy_docker_proxy.Base.{
  zero, suc, ◌≡◌, ◌≢◌, ◌⊎◌, refl, Bool, true, false, List, [], ◌∷◌, Option, none, some,
  if◌then◌else◌, map, All, Str, codes, is_empty, Bool-cases, inl, inr, arith,
}
use easy_docker_proxy.Base.Int.{ℤ, pos, negsuc, ltb_ℤ}
use easy_docker_proxy.Config.{
  AuthType, AccessControlMode, PullAuthMode, RegistryConfig, Config, is_enabled,
}
use easy_docker_proxy.Config.Load.{
  or_str, or_number, or_positive, or_off, pull_or_off, or_token, or_true, is_zero, hosts_or_default,
  normalize_registry, normalize,
}

abbrev pub IsPositive : ℤ → Type 0
IsPositive z = ltb_ℤ (pos 0) z ≡ true

abbrev pub IsFilled : Str → Type 0
IsFilled s = is_empty s ≡ false

-- Nothing that the program needs is left at its zero value; the retention periods, the rate and the
-- burst are positive.
pub record IsComplete (c : Config) : Type 0 where
  pub listen : IsFilled c.server.listen
  pub admin_listen : IsFilled c.server.admin_listen
  pub read_timeout : c.server.read_timeout ≢ pos 0
  pub idle_timeout : c.server.idle_timeout ≢ pos 0
  pub log_level : IsFilled c.log_level
  pub acl_mode : c.access_control.mode ≢ AccessControlMode.unset
  pub rps : IsPositive c.rate_limit.per_ip_rps
  pub burst : IsPositive c.rate_limit.per_ip_burst
  pub token_env : IsFilled c.token_env
  pub storage : IsFilled c.storage.driver × IsFilled c.storage.dsn
  pub event_days : IsPositive c.storage.event_retention_days
  pub aggregate_days : IsPositive c.storage.aggregate_retention_days
  pub pull_mode : c.pull_auth.mode ≢ PullAuthMode.unset
  pub realm : IsFilled c.pull_auth.realm
  pub hosts : (is_enabled c.upstream_allowlist.enabled ≡ false) ⊎ (c.upstream_allowlist.hosts ≢ [])
  pub registries :
      All
        (λ r. (r.auth.type ≢ AuthType.unset) × IsPositive r.token_cache_ttl × (r.enabled ≢ none))
        c.registries

or_str-IsFilled : (s d : Str) → IsFilled d → IsFilled (or_str s d)
or_str-IsFilled [] d h = h
or_str-IsFilled (c ∷ s) d h = refl

pub or_str-or_str : (s d : Str) → or_str (or_str s d) d ≡ or_str s d
or_str-or_str [] d = same (is_empty d)
  where
    same : (b : Bool) → (if b then d else d) ≡ d
    same true = refl
    same false = refl
or_str-or_str (c ∷ s) d = refl

or_positive-IsPositive : (z d : ℤ) → IsPositive d → IsPositive (or_positive z d)
or_positive-IsPositive z d h = elim (Bool-cases (ltb_ℤ (pos 0) z)) [
  | inl y ↦ rw y y
  | inr n ↦ rw n h
]

pub or_positive-or_positive :
    (z d : ℤ) → IsPositive d → or_positive (or_positive z d) d ≡ or_positive z d
or_positive-or_positive z d h = rw (or_positive-IsPositive z d h) refl

or_number_set : (z d : ℤ) → d ≢ pos 0 → or_number z d ≢ pos 0
or_number_set (pos zero) d h = h
or_number_set (pos (suc n)) d h = λ e. cc
or_number_set (negsuc n) d h = λ e. cc

pub or_number-or_number : (z d : ℤ) → or_number (or_number z d) d ≡ or_number z d
or_number-or_number (pos zero) d = same (is_zero d)
  where
    same : (b : Bool) → (if b then d else d) ≡ d
    same true = refl
    same false = refl
or_number-or_number (pos (suc n)) d = refl
or_number-or_number (negsuc n) d = refl

or_off_set : (m : AccessControlMode) → or_off m ≢ AccessControlMode.unset
or_off_set AccessControlMode.unset = λ e. cc
or_off_set AccessControlMode.off = λ e. cc
or_off_set AccessControlMode.whitelist = λ e. cc
or_off_set AccessControlMode.blacklist = λ e. cc
or_off_set (AccessControlMode.invalid s) = λ e. cc

pub or_off-or_off : (m : AccessControlMode) → or_off (or_off m) ≡ or_off m
or_off-or_off AccessControlMode.unset = refl
or_off-or_off AccessControlMode.off = refl
or_off-or_off AccessControlMode.whitelist = refl
or_off-or_off AccessControlMode.blacklist = refl
or_off-or_off (AccessControlMode.invalid s) = refl

pull_or_off_set : (m : PullAuthMode) → pull_or_off m ≢ PullAuthMode.unset
pull_or_off_set PullAuthMode.unset = λ e. cc
pull_or_off_set PullAuthMode.off = λ e. cc
pull_or_off_set PullAuthMode.optional = λ e. cc
pull_or_off_set PullAuthMode.required = λ e. cc
pull_or_off_set (PullAuthMode.invalid s) = λ e. cc

pub pull_or_off-pull_or_off : (m : PullAuthMode) → pull_or_off (pull_or_off m) ≡ pull_or_off m
pull_or_off-pull_or_off PullAuthMode.unset = refl
pull_or_off-pull_or_off PullAuthMode.off = refl
pull_or_off-pull_or_off PullAuthMode.optional = refl
pull_or_off-pull_or_off PullAuthMode.required = refl
pull_or_off-pull_or_off (PullAuthMode.invalid s) = refl

or_token_set : (t : AuthType) → or_token t ≢ AuthType.unset
or_token_set AuthType.unset = λ e. cc
or_token_set AuthType.token = λ e. cc
or_token_set AuthType.anonymous = λ e. cc
or_token_set AuthType.basic = λ e. cc
or_token_set (AuthType.invalid s) = λ e. cc

pub or_token-or_token : (t : AuthType) → or_token (or_token t) ≡ or_token t
or_token-or_token AuthType.unset = refl
or_token-or_token AuthType.token = refl
or_token-or_token AuthType.anonymous = refl
or_token-or_token AuthType.basic = refl
or_token-or_token (AuthType.invalid s) = refl

or_true_set : (o : Option Bool) → or_true o ≢ none
or_true_set none = λ e. cc
or_true_set (some b) = λ e. cc

pub or_true-or_true : (o : Option Bool) → or_true (or_true o) ≡ or_true o
or_true-or_true none = refl
or_true-or_true (some b) = refl

hosts_or_default_set : (b : Bool) (hosts : List Str) → (b ≡ false) ⊎ (hosts_or_default b hosts ≢ [])
hosts_or_default_set true [] = inr (λ f. cc)
hosts_or_default_set false [] = inl refl
hosts_or_default_set b (h ∷ hosts) = inr (λ f. cc)

pub hosts_or_default-hosts_or_default :
    (b : Bool) (hosts : List Str)
    → hosts_or_default b (hosts_or_default b hosts) ≡ hosts_or_default b hosts
hosts_or_default-hosts_or_default true [] = refl
hosts_or_default-hosts_or_default false [] = refl
hosts_or_default-hosts_or_default b (h ∷ hosts) = refl

all_registries :
    (rs : List RegistryConfig)
    → All
        (λ r. (r.auth.type ≢ AuthType.unset) × IsPositive r.token_cache_ttl × (r.enabled ≢ none))
        (map normalize_registry rs)
all_registries [] = _
all_registries (r ∷ rs) = (
  (
    or_token_set r.auth.type,
    or_positive-IsPositive r.token_cache_ttl (pos 3600) (ground arith),
    or_true_set r.enabled,
  ),
  all_registries rs,
)

-- Every field that `Normalize` looks at has a usable value afterwards: no address, level, mode or
-- name is missing, the timeouts are not 0, the rate, the burst, the two retention periods and the
-- lifetimes of tokens are positive, and an allowlist that is switched on has hosts.
pub normalize-IsComplete : (c : Config) → IsComplete (normalize c)
unfolding normalize
normalize-IsComplete c = record {
  listen = or_str-IsFilled c.server.listen (codes ":5000") refl;
  admin_listen = or_str-IsFilled c.server.admin_listen (codes "127.0.0.1:5001") refl;
  read_timeout = or_number_set c.server.read_timeout (pos 60) (λ e. cc);
  idle_timeout = or_number_set c.server.idle_timeout (pos 120) (λ e. cc);
  log_level = or_str-IsFilled c.log_level (codes "normal") refl;
  acl_mode = or_off_set c.access_control.mode;
  rps = or_positive-IsPositive c.rate_limit.per_ip_rps (pos 20000) (ground arith);
  burst = or_positive-IsPositive c.rate_limit.per_ip_burst (pos 40) (ground arith);
  token_env = or_str-IsFilled c.token_env (codes "PROXY_ADMIN_TOKEN") refl;
  storage = (
    or_str-IsFilled c.storage.driver (codes "sqlite") refl,
    or_str-IsFilled c.storage.dsn _ refl,
  );
  event_days = or_positive-IsPositive c.storage.event_retention_days (pos 30) (ground arith);
  aggregate_days =
      or_positive-IsPositive c.storage.aggregate_retention_days (pos 365) (ground arith);
  pull_mode = pull_or_off_set c.pull_auth.mode;
  realm = or_str-IsFilled c.pull_auth.realm (codes "easy-docker-proxy") refl;
  hosts =
      hosts_or_default_set (is_enabled (or_true c.upstream_allowlist.enabled))
        c.upstream_allowlist.hosts;
  registries = all_registries c.registries;
}
