-- ===== src/Config/Realm/Accepted.antt =====
-- Which token realms are accepted.
use easy_docker_proxy.Base.{
  ◌≡◌, refl, ◌⊎◌, inl, inr, Bool, true, false, not, Option, none, some, if◌then◌else◌, Str, codes,
  is_empty, str_eq, str_eq_iff, to_lower, Bool-cases,
}
use easy_docker_proxy.Config.{Config}
use easy_docker_proxy.Config.Validate.{
  Error, Url, check_scheme, guard, ◌then_check◌, upstream_invalid, host_missing, https_required,
  scheme_unsupported,
}
use easy_docker_proxy.Config.Realm.{
  allows_http, host_of, allowed_host, own_host, check_realm_url, check_token_realm,
}

-- A URL that the proxy may ask for a token: it has a host, it is over https, or over http where
-- that is allowed, and the host is that of the registry's upstream or one that the allowlist lets
-- through.
pub record IsAccepted (parse : Str → Option Url) (cfg : Option Config) (upstream : Str) (u : Url)
    : Type 0 where
  pub host : is_empty u.host ≡ false
  pub named : is_empty (host_of u) ≡ false
  pub scheme :
      (to_lower u.scheme ≡ codes "https")
      ⊎ ((to_lower u.scheme ≡ codes "http") × (allows_http cfg ≡ true))
  pub target : (own_host parse upstream (host_of u) ≡ true) ⊎ (allowed_host cfg (host_of u) ≡ none)

guard-none : (b : Bool) (e : Error) → guard (not b) e ≡ none → b ≡ false
guard-none false e h = refl
guard-none true e h = cc

both_none : (a b : Option Error) → (a then_check b) ≡ none → (a ≡ none) × (b ≡ none)
both_none none b h = (refl, h)
both_none (some e) b h = cc

scheme_cases :
    (insecure : Bool) (s : Str)
    → check_scheme insecure s ≡ none
    → (s ≡ codes "https") ⊎ ((s ≡ codes "http") × (insecure ≡ true))
scheme_cases insecure s h = elim (Bool-cases (str_eq s (codes "https"))) [
  | inl y ↦ inl ((str_eq_iff s (codes "https")).0 y)
  | inr n ↦ elim (Bool-cases (str_eq s (codes "http"))) [
    | inl y ↦ inr ((str_eq_iff s (codes "http")).0 y, plain insecure (rw (n, y) at h))
    | inr m ↦ absurd (unknown (rw (n, m) at h))
  ]
]
  where
    plain : (b : Bool) → guard b https_required ≡ none → b ≡ true
    plain true e = refl
    plain false e = cc

    unknown : some scheme_unsupported ≡ none → ⊥
    unknown e = cc

target_cases :
    (b : Bool) (o : Option Error) → (if b then none else o) ≡ none → (b ≡ true) ⊎ (o ≡ none)
target_cases true o h = inl refl
target_cases false o h = inr h

-- `CheckTokenRealm` lets a realm through only if it is a URL that may be asked for a token.
pub check_token_realm-IsAccepted :
    (parse : Str → Option Url) (cfg : Option Config) (realm upstream : Str)
    → check_token_realm parse cfg realm upstream ≡ none
    → (u : Url) × (parse realm ≡ some u) × IsAccepted parse cfg upstream u
unfolding check_token_realm
check_token_realm-IsAccepted parse cfg realm upstream h = at (parse realm) refl h
  where
    at :
        (o : Option Url)
        → parse realm ≡ o
        → check_realm_url parse cfg upstream o ≡ none
        → (u : Url) × (parse realm ≡ some u) × IsAccepted parse cfg upstream u
    at none e k = cc
    at (some u) e k =
        let scheme = check_scheme (allows_http cfg) (to_lower u.scheme) in
        let named = guard (not (is_empty (host_of u))) host_missing in
        let target : Option Error =
          if own_host parse upstream (host_of u) then none else allowed_host cfg (host_of u) in
        let a =
          both_none (guard (not (is_empty u.host)) upstream_invalid)
            (scheme then_check (named then_check target)) k in
        let b = both_none scheme (named then_check target) (a.1) in
        let c = both_none named target (b.1) in
        (
          u,
          e,
          record {
            host = guard-none (is_empty u.host) upstream_invalid (a.0);
            named = guard-none (is_empty (host_of u)) host_missing (c.0);
            scheme = scheme_cases (allows_http cfg) (to_lower u.scheme) (b.0);
            target =
                target_cases (own_host parse upstream (host_of u)) (allowed_host cfg (host_of u))
                  (c.1);
          },
        )
