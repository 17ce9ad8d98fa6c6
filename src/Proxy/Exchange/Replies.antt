-- ===== src/Proxy/Exchange/Replies.antt =====
-- What the client gets.
use easy_docker_proxy.Base.{
  ℕ, zero, suc, ◌+◌, ◌≤◌, ◌≡◌, refl, ◌∙◌, ◌⊎◌, Bool, true, false, not, ◌&&◌, List, [], ◌∷◌, ◌++◌,
  Option, none, some, ◌==◌, if◌then◌else◌, Str, codes, is_empty, equal_fold, length, arith,
  Bool-cases, inl, inr,
}
use easy_docker_proxy.Config.{RegistryConfig}
use easy_docker_proxy.Proxy.Request.{Request, Header, get, delete}
use easy_docker_proxy.Proxy.Headers.{set, copy_headers, remove_hop_by_hop, is_anonymous}
use easy_docker_proxy.Upstream.Challenge.{parse_bearer_challenge}
use easy_docker_proxy.Upstream.Tokens.{Cache, invalidate_scope, get_token}
use easy_docker_proxy.Http.{is_method, status_unauthorized, status_bad_gateway}
use easy_docker_proxy.Proxy.Exchange.{
  Target, Sent, Response, World, Answer, failed, passed, Outcome, bad_gateway, stream, pass_on,
  sent_with, after_retry, retry, challenged, after_first, forward, proxy_request,
}
use easy_docker_proxy.Proxy.Headers.Hop.{has, has-delete, lacks-delete, field_of}
use easy_docker_proxy.Proxy.Headers.Auth.{get-set, and_false}

abbrev pub total : List Str → ℕ
total [] = 0
total (c ∷ cs) = length c + total cs

-- `n` bytes more are written than `m`, and all that there are exactly when no error is reported.
stream-total :
    (n writes : ℕ) (body : List Str) (complete : Bool)
    → (is_empty (stream n writes body complete).1 ≡ true)
    → (complete ≡ true) × ((stream n writes body complete).0 ≡ n + total body)
stream-total n writes [] true e = (refl, omega arith)
stream-total n writes [] false e = cc
stream-total n zero (c ∷ cs) complete e = cc
stream-total n (suc writes) (c ∷ cs) complete e =
    let (done, sum) = stream-total (n + length c) writes cs complete e in (done, omega (arith, sum))

stream-bound :
    (n writes : ℕ) (body : List Str) (complete : Bool)
    → (stream n writes body complete).0 ≤ n + total body
stream-bound n writes [] complete = omega arith
stream-bound n zero (c ∷ cs) complete = omega arith
stream-bound n (suc writes) (c ∷ cs) complete =
    omega (arith, stream-bound (n + length c) writes cs complete)

-- The recorded bytes are no more than those of the body that came, and all of them when the body
-- was read to its end and no error is recorded; a HEAD request has none.
abbrev pub Counted : Request → Outcome → Response → Type 0
Counted r o resp =
    (o.status ≡ resp.status_code)
    × (o.written ≤ total resp.body)
    × (is_method r (codes "HEAD") ≡ true → o.written ≡ 0)
    × (is_method r (codes "HEAD") ≡ false
        → is_empty o.err_msg ≡ true
        → (resp.complete ≡ true) × (o.written ≡ total resp.body))

-- The upstream has replied so, to the first or to the second request.
abbrev pub Replied : World → Response → Type 0
Replied w resp = (s : Sent) × ((w.first s ≡ some resp) ⊎ (w.second s ≡ some resp))

-- A reply that is passed on is one of the upstream's, with its status, without its challenge and
-- with the API's version; any other is 502, with the error that is recorded and no byte.
abbrev pub CleanAnswer : World → Request → Outcome → Answer → Type 0
CleanAnswer w r o (failed st msg) =
    (st ≡ status_bad_gateway) × (o.status ≡ st) × (o.err_msg ≡ msg) × (o.written ≡ 0)
CleanAnswer w r o (passed st h) =
    (o.status ≡ st)
    × (has h (codes "WWW-Authenticate") ≡ false)
    × (get h (codes "Docker-Distribution-Api-Version") ≡ codes "registry/2.0")
    × ((resp : Response) × Replied w resp × Counted r o resp)

abbrev pub Clean : World → Request → Outcome → Type 0
Clean w r o = CleanAnswer w r o o.answer

bad_gateway-Clean :
    (w : World) (r : Request) (sent : List Sent) (msg : Str) → Clean w r (bad_gateway sent msg)
bad_gateway-Clean w r sent msg = (refl, refl, refl, refl)

has-append : (h t : Header) (k : Str) → has h k ≡ false → has t k ≡ false → has (h ++ t) k ≡ false
has-append [] t k n m = m
has-append ((a, v) ∷ h) t k n m =
    let (p, rest) = field_of (equal_fold a k) (has h k) n in rw p (has-append h t k rest m)

-- A field that is not there is not there when another is set.
lacks-set :
    (h : Header) (j k v : Str)
    → has h k ≡ false
    → equal_fold j k ≡ false
    → has (set h j v) k ≡ false
lacks-set h j k v n d =
    has-append (delete h j) ((j, v) ∷ []) k (has-delete h j k ∙ and_false _ _ n) (rw d refl)

body_bound :
    (writes : ℕ) (body : List Str) (complete : Bool)
    → (stream 0 writes body complete).0 ≤ total body
body_bound writes body complete = omega (arith, stream-bound 0 writes body complete)

body_total :
    (writes : ℕ) (body : List Str) (complete : Bool)
    → is_empty (stream 0 writes body complete).1 ≡ true
    → (complete ≡ true) × ((stream 0 writes body complete).0 ≡ total body)
body_total writes body complete e =
    let (done, sum) = stream-total 0 writes body complete e in (done, omega (arith, sum))

pass_on-Counted :
    (w : World) (r : Request) (sent : List Sent) (resp : Response)
    → Counted r (pass_on w r sent resp) resp
unfolding pass_on
pass_on-Counted w r sent resp = elim (Bool-cases (is_method r (codes "HEAD"))) [
  | inl y ↦ rw y (refl, omega arith, λ h. refl, λ n. cc)
  | inr n ↦ rw n (
    refl,
    body_bound w.writes resp.body resp.complete,
    λ y. cc,
    λ m e. body_total w.writes resp.body resp.complete e,
  )
]

pass_on-Clean :
    (w : World) (r : Request) (sent : List Sent) (resp : Response)
    → Replied w resp
    → Clean w r (pass_on w r sent resp)
unfolding pass_on
pass_on-Clean w r sent resp k =
    let challenge = codes "WWW-Authenticate" in
    let version = codes "Docker-Distribution-Api-Version" in
    let h = copy_headers [] (remove_hop_by_hop resp.header) in
    (
      refl,
      lacks-set (delete h challenge) version challenge (codes "registry/2.0")
          (lacks-delete h challenge) refl,
      get-set (delete h challenge) version (codes "registry/2.0") refl,
      (resp, k, pass_on-Counted w r sent resp),
    )

Clean-both :
    (w : World) (r : Request) (b : Bool) (x y : Cache × Outcome)
    → Clean w r x.1
    → Clean w r y.1
    → Clean w r (if b then x else y).1
Clean-both w r true x y p q = p
Clean-both w r false x y p q = q

after_retry-Clean :
    (w : World) (r : Request) (sent : List Sent) (s : Sent) (o : Option Response)
    → w.second s ≡ o
    → Clean w r (after_retry w r sent o)
after_retry-Clean w r sent s none e = bad_gateway-Clean w r sent _
after_retry-Clean w r sent s (some resp) e = pass_on-Clean w r sent resp (s, inr e)

retry-Clean :
    (w : World) (r : Request) (t : Target) (reg : RegistryConfig) (s1 : Sent)
    (x : Cache × Option Str)
    → Clean w r (retry w r t reg s1 x).1
retry-Clean w r t reg s1 (c, none) = bad_gateway-Clean w r (s1 ∷ []) _
retry-Clean w r t reg s1 (c, some token) =
    let s2 = sent_with w r t reg token in
    Clean-both w r (is_empty token) _ (c, after_retry w r (s1 ∷ s2 ∷ []) (w.second s2))
      (bad_gateway-Clean w r (s1 ∷ []) _)
      (after_retry-Clean w r (s1 ∷ s2 ∷ []) s2 (w.second s2) refl)

after_first-Clean :
    (w : World) (r : Request) (t : Target) (reg : RegistryConfig) (scope token : Str) (c : Cache)
    (s1 : Sent) (o : Option Response)
    → w.first s1 ≡ o
    → Clean w r (after_first w r t reg scope token c s1 o).1
after_first-Clean w r t reg scope token c s1 none e = bad_gateway-Clean w r (s1 ∷ []) _
after_first-Clean w r t reg scope token c s1 (some resp) e =
    let d = if is_empty token then c else invalidate_scope c reg.name scope in
    let ch = parse_bearer_challenge (get resp.header (codes "WWW-Authenticate")) in
    let x =
      get_token d (w.takes_realm ch.realm) w.now w.later ch.realm ch.service scope reg
        (w.reply ch scope) in
    Clean-both w r (resp.status_code == status_unauthorized && not (is_anonymous reg.auth.type))
      (challenged w r t reg scope d s1 ch) (c, pass_on w r (s1 ∷ []) resp)
      (Clean-both w r (is_empty ch.realm) (d, bad_gateway (s1 ∷ []) _) (retry w r t reg s1 x)
        (bad_gateway-Clean w r (s1 ∷ []) _) (retry-Clean w r t reg s1 x))
      (pass_on-Clean w r (s1 ∷ []) resp (s1, inl e))

forward-Clean :
    (w : World) (r : Request) (reg : RegistryConfig) (strip : Str) (c : Cache) (o : Option Target)
    → Clean w r (forward w r reg strip c o).1
forward-Clean w r reg strip c none = bad_gateway-Clean w r [] _
forward-Clean w r reg strip c (some base) = after_first-Clean w r _ reg _ _ c _ _ refl

-- What the client gets is always one of two things: a reply of the upstream's with its status,
-- without its challenge and with the API's version, of whose body no more than came is counted
-- and, where no error is recorded, all that came and it was read to the end; or 502, with no byte.
pub proxy_request-Clean :
    (w : World) (r : Request) (reg : RegistryConfig) (strip : Str) (c : Cache)
    → Clean w r (proxy_request w r reg strip c).1
unfolding proxy_request
proxy_request-Clean w r reg strip c = forward-Clean w r reg strip c (w.parse reg.upstream)
