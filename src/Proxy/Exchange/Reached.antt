-- ===== src/Proxy/Exchange/Reached.antt =====
-- When anything is sent upstream at all.
use easy_docker_proxy.Base.{
  ◌≡◌, refl, ◌↔◌, Bool, true, false, not, ◌&&◌, List, [], ◌∷◌, Option, none, some, ◌==◌,
  if◌then◌else◌, Str, is_empty,
}
use easy_docker_proxy.Config.{RegistryConfig}
use easy_docker_proxy.Proxy.Request.{Request}
use easy_docker_proxy.Proxy.Path.{strip_repo_path_prefix, single_joining_slash, extract_repo}
use easy_docker_proxy.Proxy.Headers.{is_anonymous}
use easy_docker_proxy.Upstream.Challenge.{Challenge}
use easy_docker_proxy.Upstream.Tokens.{Cache, peek}
use easy_docker_proxy.Http.{status_unauthorized}
use easy_docker_proxy.Proxy.Exchange.{
  Target, Sent, Response, World, Outcome, pass_on, after_retry, retry, challenged, after_first,
  forward, proxy_request, sent_with, scope_of,
}

abbrev pub sends : List Sent → Bool
sends [] = false
sends (s ∷ ss) = true

abbrev Sends : Cache × Outcome → Type 0
Sends x = sends x.1.sent ≡ true

Sends-both : (b : Bool) (x y : Cache × Outcome) → Sends x → Sends y → Sends (if b then x else y)
Sends-both true x y p q = p
Sends-both false x y p q = q

after_retry-sends :
    (w : World) (r : Request) (s t : Sent) (o : Option Response)
    → sends (after_retry w r (s ∷ t ∷ []) o).sent ≡ true
unfolding pass_on
after_retry-sends w r s t none = refl
after_retry-sends w r s t (some resp) = refl

retry-Sends :
    (w : World) (r : Request) (target : Target) (reg : RegistryConfig) (s : Sent)
    (x : Cache × Option Str)
    → Sends (retry w r target reg s x)
retry-Sends w r target reg s (c, none) = refl
retry-Sends w r target reg s (c, some token) =
    Sends-both (is_empty token) _ _ refl (after_retry-sends w r s _ _)

challenged-Sends :
    (w : World) (r : Request) (target : Target) (reg : RegistryConfig) (scope : Str) (c : Cache)
    (s : Sent) (ch : Challenge)
    → Sends (challenged w r target reg scope c s ch)
challenged-Sends w r target reg scope c s ch =
    Sends-both (is_empty ch.realm) _ _ refl (retry-Sends w r target reg s _)

after_first-Sends :
    (w : World) (r : Request) (target : Target) (reg : RegistryConfig) (scope token : Str)
    (c : Cache) (s : Sent) (o : Option Response)
    → Sends (after_first w r target reg scope token c s o)
unfolding pass_on
after_first-Sends w r target reg scope token c s none = refl
after_first-Sends w r target reg scope token c s (some resp) =
    Sends-both (resp.status_code == status_unauthorized && not (is_anonymous reg.auth.type)) _ _
      (challenged-Sends w r target reg scope _ s _) refl

forward-sends_iff :
    (w : World) (r : Request) (reg : RegistryConfig) (strip : Str) (c : Cache) (o : Option Target)
    → (sends (forward w r reg strip c o).1.sent ≡ true) ↔ ((base : Target) × (o ≡ some base))
forward-sends_iff w r reg strip c none = (λ e. cc, λ b. cc (b.1))
forward-sends_iff w r reg strip c (some base) =
    let fwd_path = strip_repo_path_prefix r.path strip in
    let target : Target = record {
      authority = base.authority;
      path = single_joining_slash base.path fwd_path;
      raw_query = r.raw_query;
    } in
    let scope = scope_of (extract_repo fwd_path) in
    let token : Str =
      if is_anonymous reg.auth.type then [] else peek c w.peeked_at reg.name scope in
    let s1 = sent_with w r target reg token in
    (λ e. (base, refl), λ b. after_first-Sends w r target reg scope token c s1 (w.first s1))

-- Something is sent just when the registry's URL can be parsed.
pub proxy_request-sends_iff :
    (w : World) (r : Request) (reg : RegistryConfig) (strip : Str) (c : Cache)
    → (sends (proxy_request w r reg strip c).1.sent ≡ true)
      ↔ ((base : Target) × (w.parse reg.upstream ≡ some base))
unfolding proxy_request
proxy_request-sends_iff w r reg strip c = forward-sends_iff w r reg strip c (w.parse reg.upstream)
