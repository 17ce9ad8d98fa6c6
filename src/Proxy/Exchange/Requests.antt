-- ===== src/Proxy/Exchange/Requests.antt =====
-- What is sent to an upstream.
use easy_docker_proxy.Base.{
  ◌≡◌, ◌≢◌, ◌⊎◌, ◌↔◌, ◌++◌, sym, subst, refl, Bool, true, false, not, ◌&&◌, List, [], ◌∷◌, Option,
  none, some, ◌==◌, if◌then◌else◌, Str, codes, is_empty, Bool-cases, inl, inr,
}
use easy_docker_proxy.Config.{RegistryConfig, AuthType, unset, anonymous, basic, invalid}
use easy_docker_proxy.Proxy.Request.{Request, get}
use easy_docker_proxy.Proxy.Path.{strip_repo_path_prefix, single_joining_slash, extract_repo}
use easy_docker_proxy.Proxy.Headers.{is_anonymous}
use easy_docker_proxy.Upstream.Challenge.{Challenge, parse_bearer_challenge}
use easy_docker_proxy.Upstream.Tokens.{Cache, peek, invalidate_scope, get_token}
use easy_docker_proxy.Http.{status_unauthorized}
use easy_docker_proxy.Proxy.Exchange.{
  Target, Sent, Response, World, Outcome, pass_on, sent_with, after_retry, retry, challenged,
  after_first, scope_of, forward, proxy_request,
}
use easy_docker_proxy.Proxy.Headers.Auth.{credentials, get-upstream_header}

-- The Authorization that a token and the registry's own account call for: the token if there is one,
-- else the account of a registry of type `basic` that has one, else nothing.
abbrev pub IsCredentials : (Str → Str) → Str → AuthType → Str → Str → Str → Type 0
IsCredentials encode bearer type user pass field =
    ((bearer ≢ []) × (field ≡ codes "Bearer " ++ bearer))
    ⊎ (((bearer ≡ [])
          × (((type ≡ basic) × ((user ≢ []) ⊎ (pass ≢ [])))
              × (field ≡ codes "Basic " ++ encode (user ++ b':' ∷ pass))))
        ⊎ ((bearer ≡ []) × (((type ≢ basic) ⊎ ((user ≡ []) × (pass ≡ []))) × (field ≡ []))))

credentials-IsCredentials :
    (encode : Str → Str) (bearer : Str) (type : AuthType) (user pass : Str)
    → IsCredentials encode bearer type user pass
        (credentials encode bearer (record { type = type; username = user; password = pass }))
credentials-IsCredentials encode (c ∷ s) type user pass = inl (λ e. cc, refl)
credentials-IsCredentials encode [] basic [] [] = inr (inr (refl, (inr (refl, refl), refl)))
credentials-IsCredentials encode [] basic [] (c ∷ s) =
    inr (inl (refl, ((refl, inr (λ e. cc)), refl)))
credentials-IsCredentials encode [] basic (c ∷ s) pass =
    inr (inl (refl, ((refl, inl (λ e. cc)), refl)))
credentials-IsCredentials encode [] unset user pass = inr (inr (refl, (inl (λ e. cc), refl)))
credentials-IsCredentials encode [] AuthType.token user pass =
    inr (inr (refl, (inl (λ e. cc), refl)))
credentials-IsCredentials encode [] anonymous user pass = inr (inr (refl, (inl (λ e. cc), refl)))
credentials-IsCredentials encode [] (invalid s) user pass = inr (inr (refl, (inl (λ e. cc), refl)))

is_anonymous_iff : (t : AuthType) → (is_anonymous t ≡ false) ↔ (t ≢ anonymous)
is_anonymous_iff anonymous = (λ e. cc, λ n. absurd (n refl))
is_anonymous_iff unset = (λ e n. cc, λ n. refl)
is_anonymous_iff AuthType.token = (λ e n. cc, λ n. refl)
is_anonymous_iff basic = (λ e n. cc, λ n. refl)
is_anonymous_iff (invalid s) = (λ e n. cc, λ n. refl)

-- The request has the client's method and query, and the Authorization that `token` and the
-- registry's own account call for.
abbrev pub Authorized : World → Request → RegistryConfig → Str → Sent → Type 0
Authorized w r reg token s =
    (s.method ≡ r.method)
    × (s.target.raw_query ≡ r.raw_query)
    × IsCredentials w.encode token reg.auth.type reg.auth.username reg.auth.password
        (get s.header (codes "Authorization"))

-- At most two requests; the first one with `token`, and a second one with another token that is
-- not empty, for a registry that is not anonymous.
abbrev pub Requests : World → Request → RegistryConfig → Str → List Sent → Type 0
Requests w r reg token [] = Unit
Requests w r reg token (s ∷ []) = Authorized w r reg token s
Requests w r reg token (s ∷ t ∷ []) =
    Authorized w r reg token s
    × (reg.auth.type ≢ anonymous)
    × ((fresh : Str) × (fresh ≢ []) × Authorized w r reg fresh t)
Requests w r reg token (s ∷ t ∷ u ∷ ss) = ⊥

-- The token that the first request has.
abbrev pub first_token : World → Request → RegistryConfig → Str → Cache → Str
first_token w r reg strip c =
    if is_anonymous reg.auth.type
    then []
    else peek c w.peeked_at reg.name (scope_of (extract_repo (strip_repo_path_prefix r.path strip)))

authorized :
    (w : World) (r : Request) (t : Target) (reg : RegistryConfig) (token : Str)
    → t.raw_query ≡ r.raw_query
    → Authorized w r reg token (sent_with w r t reg token)
authorized w r t reg token q = (
  refl,
  q,
  subst (IsCredentials w.encode token reg.auth.type reg.auth.username reg.auth.password)
      (sym (get-upstream_header w.encode token reg r.header))
      (credentials-IsCredentials w.encode token reg.auth.type reg.auth.username reg.auth.password),
)

not_empty : (s : Str) → is_empty s ≡ false → s ≢ []
not_empty [] h = cc
not_empty (c ∷ s) h = λ e. cc

both :
    (w : World) (r : Request) (reg : RegistryConfig) (token : Str) (b : Bool)
    (x y : Cache × Outcome)
    → Requests w r reg token x.1.sent
    → Requests w r reg token y.1.sent
    → Requests w r reg token (if b then x else y).1.sent
both w r reg token true x y p q = p
both w r reg token false x y p q = q

after_retry-sent :
    (w : World) (r : Request) (sent : List Sent) (o : Option Response)
    → (after_retry w r sent o).sent ≡ sent
unfolding pass_on
after_retry-sent w r sent none = refl
after_retry-sent w r sent (some resp) = refl

retry-Requests :
    (w : World) (r : Request) (t : Target) (reg : RegistryConfig) (token : Str)
    (x : Cache × Option Str)
    → t.raw_query ≡ r.raw_query
    → is_anonymous reg.auth.type ≡ false
    → Requests w r reg token (retry w r t reg (sent_with w r t reg token) x).1.sent
retry-Requests w r t reg token (c, none) q n = authorized w r t reg token q
retry-Requests w r t reg token (c, some fresh) q n = elim (Bool-cases (is_empty fresh)) [
  | inl y ↦ rw y (authorized w r t reg token q)
  | inr m ↦
      rw
        (
          m,
          after_retry-sent w r (sent_with w r t reg token ∷ sent_with w r t reg fresh ∷ [])
              (w.second (sent_with w r t reg fresh)),
        )
        (
          authorized w r t reg token q,
          (is_anonymous_iff reg.auth.type).0 n,
          (fresh, not_empty fresh m, authorized w r t reg fresh q),
        )
]

challenged-Requests :
    (w : World) (r : Request) (t : Target) (reg : RegistryConfig) (scope token : Str) (c : Cache)
    (ch : Challenge)
    → t.raw_query ≡ r.raw_query
    → is_anonymous reg.auth.type ≡ false
    → Requests w r reg token (challenged w r t reg scope c (sent_with w r t reg token) ch).1.sent
challenged-Requests w r t reg scope token c ch q n =
    both w r reg token (is_empty ch.realm) _ _ (authorized w r t reg token q) (
      retry-Requests w r t reg token
        (get_token c (w.takes_realm ch.realm) w.now w.later ch.realm ch.service scope reg
          (w.reply ch scope))
        q n)

-- The test on the reply and on the registry.
guarded :
    (w : World) (r : Request) (reg : RegistryConfig) (token : Str) (b anon : Bool)
    (x y : Cache × Outcome)
    → (anon ≡ false → Requests w r reg token x.1.sent)
    → Requests w r reg token y.1.sent
    → Requests w r reg token (if b && not anon then x else y).1.sent
guarded w r reg token false anon x y p q = q
guarded w r reg token true true x y p q = q
guarded w r reg token true false x y p q = p refl

after_first-Requests :
    (w : World) (r : Request) (t : Target) (reg : RegistryConfig) (scope token : Str) (c : Cache)
    (o : Option Response)
    → t.raw_query ≡ r.raw_query
    → Requests w r reg token
        (after_first w r t reg scope token c (sent_with w r t reg token) o).1.sent
unfolding pass_on
after_first-Requests w r t reg scope token c none q = authorized w r t reg token q
after_first-Requests w r t reg scope token c (some resp) q =
    let d = if is_empty token then c else invalidate_scope c reg.name scope in
    let ch = parse_bearer_challenge (get resp.header (codes "WWW-Authenticate")) in
    guarded w r reg token (resp.status_code == status_unauthorized) (is_anonymous reg.auth.type)
      (challenged w r t reg scope d (sent_with w r t reg token) ch)
      (c, pass_on w r (sent_with w r t reg token ∷ []) resp)
      (λ n. challenged-Requests w r t reg scope token d ch q n) (authorized w r t reg token q)

forward-Requests :
    (w : World) (r : Request) (reg : RegistryConfig) (strip : Str) (c : Cache) (o : Option Target)
    → Requests w r reg (first_token w r reg strip c) (forward w r reg strip c o).1.sent
forward-Requests w r reg strip c none = _
forward-Requests w r reg strip c (some base) =
    let fwd_path = strip_repo_path_prefix r.path strip in
    let target : Target = record {
      authority = base.authority;
      path = single_joining_slash base.path fwd_path;
      raw_query = r.raw_query;
    } in
    let token = first_token w r reg strip c in
    after_first-Requests w r target reg (scope_of (extract_repo fwd_path)) token c
      (w.first (sent_with w r target reg token)) refl

-- The first token: none for an anonymous registry, else what the cache has for the repository.
abbrev pub IsFirstToken : World → Request → RegistryConfig → Str → Cache → Str → Type 0
IsFirstToken w r reg strip c t =
    ((reg.auth.type ≡ anonymous) × (t ≡ []))
    ⊎ ((reg.auth.type ≢ anonymous)
        × (t
            ≡ peek c w.peeked_at reg.name
                (scope_of (extract_repo (strip_repo_path_prefix r.path strip)))))

first_token-IsFirstToken :
    (w : World) (r : Request) (reg : RegistryConfig) (strip : Str) (c : Cache)
    → IsFirstToken w r reg strip c (first_token w r reg strip c)
first_token-IsFirstToken w r reg strip c = by reg.auth.type (peek c w.peeked_at reg.name _)
  where
    by :
        (t : AuthType) (peeked : Str)
        → ((t ≡ anonymous) × ((if is_anonymous t then [] else peeked) ≡ []))
          ⊎ ((t ≢ anonymous) × ((if is_anonymous t then [] else peeked) ≡ peeked))
    by anonymous peeked = inl (refl, refl)
    by unset peeked = inr (λ e. cc, refl)
    by AuthType.token peeked = inr (λ e. cc, refl)
    by basic peeked = inr (λ e. cc, refl)
    by (invalid s) peeked = inr (λ e. cc, refl)

-- Whatever the client and the upstream do, at most two requests are given to the HTTP client, which
-- may follow redirects by itself. Both have the method and the query of the client and, as
-- Authorization, a token, or else the account of a registry of type `basic`, or nothing; the first
-- token is what the cache has for the repository, none for an anonymous registry; the second
-- request has a token that is not empty and is not made for an anonymous registry.
pub proxy_request-Requests :
    (w : World) (r : Request) (reg : RegistryConfig) (strip : Str) (c : Cache)
    → (t : Str) × IsFirstToken w r reg strip c t
      × Requests w r reg t (proxy_request w r reg strip c).1.sent
unfolding proxy_request
proxy_request-Requests w r reg strip c = (
  first_token w r reg strip c,
  first_token-IsFirstToken w r reg strip c,
  forward-Requests w r reg strip c (w.parse reg.upstream),
)
