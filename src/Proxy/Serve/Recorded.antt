-- ===== src/Proxy/Serve/Recorded.antt =====
-- Which events are recorded.
use easy_docker_proxy.Base.{
  ◌≡◌, ◌↔◌, ◌⊎◌, inl, inr, refl, Bool, true, false, not, [], Option, none, some, if◌then◌else◌, Str,
  codes,
}
use easy_docker_proxy.Config.{RegistryConfig}
use easy_docker_proxy.Acl.{allows}
use easy_docker_proxy.RateLimit.{Limiter, allow}
use easy_docker_proxy.Record.Event.{Event, EventType, manifest, blob, tags, referrers}
use easy_docker_proxy.Store.{Hashes}
use easy_docker_proxy.Store.PullUsers.{PullStore}
use easy_docker_proxy.Http.{status_not_found, status_forbidden, status_method_not_allowed}
use easy_docker_proxy.Proxy.ClientIp.{client_ip}
use easy_docker_proxy.Proxy.Path.{Class, is_registry_path, classify_path, strip_repo_path_prefix}
use easy_docker_proxy.Proxy.Routes.{resolve_route}
use easy_docker_proxy.Proxy.PullAuth.{PullAnswer, allowed, challenge}
use easy_docker_proxy.Proxy.Exchange.{Outcome, proxy_request}
use easy_docker_proxy.Proxy.Serve.{
  Proxy, Visit, Reply, refused, unauthorized, version, forwarded, Served, refuse, event_of,
  emit_event, is_recorded, to_registry, is_version_path, is_readonly, let_in, within_limit,
  serve_http, observe,
}
use easy_docker_proxy.Proxy.Serve.Admitted.{pull_answer}

-- The event of a reply: the address, the status and the bytes are the reply's, it is of a manifest
-- or a blob, and the pull user is the one that was let in.
abbrev pub EventOf : Str → PullAnswer → Outcome → Option Event → Type 0
EventOf ip answer o none = Unit
EventOf ip answer o (some e) =
    ((e.client_ip ≡ ip) × (answer ≡ allowed e.pull_user))
    × (((e.status ≡ o.status) × (e.bytes ≡ o.written))
        × ((e.event_type ≡ manifest) ⊎ (e.event_type ≡ blob)))

abbrev pub RecordedReply : Str → PullAnswer → Reply → Option Event → Type 0
RecordedReply ip answer (forwarded o) e = EventOf ip answer o e
RecordedReply ip answer (refused status msg) e = e ≡ none
RecordedReply ip answer (unauthorized realm) e = e ≡ none
RecordedReply ip answer version e = e ≡ none

abbrev pub Recorded : Str → PullAnswer → Served → Type 0
Recorded ip answer x = RecordedReply ip answer x.1 x.2

Recorded-both :
    (ip : Str) (answer : PullAnswer) (b : Bool) (x y : Served)
    → Recorded ip answer x
    → Recorded ip answer y
    → Recorded ip answer (if b then x else y)
Recorded-both ip answer true x y p q = p
Recorded-both ip answer false x y p q = q

EventOf-not :
    (ip : Str) (answer : PullAnswer) (o : Outcome) (b : Bool) (e : Option Event)
    → (b ≡ false → EventOf ip answer o e)
    → EventOf ip answer o (if b then none else e)
EventOf-not ip answer o true e k = _
EventOf-not ip answer o false e k = k refl

is_recorded_iff : (t : EventType) → (is_recorded t ≡ true) ↔ ((t ≡ manifest) ⊎ (t ≡ blob))
is_recorded_iff manifest = (λ y. inl refl, λ w. refl)
is_recorded_iff blob = (λ y. inr refl, λ w. refl)
is_recorded_iff tags = (λ y. cc, λ w. elim w [ inl e ↦ cc | inr e ↦ cc ])
is_recorded_iff referrers = (λ y. cc, λ w. elim w [ inl e ↦ cc | inr e ↦ cc ])

not-false : (b : Bool) → not b ≡ false → b ≡ true
not-false true h = refl
not-false false h = cc

event_of-EventOf :
    (v : Visit) (registry ip : Str) (o : Outcome) (name : Str) (c : Option Class)
    → EventOf ip (allowed name) o (event_of v registry ip o name c)
event_of-EventOf v registry ip o name none = _
event_of-EventOf v registry ip o name (some c) =
    EventOf-not ip (allowed name) o (not (is_recorded c.event_type)) _ (λ n. (
      (refl, refl),
      ((refl, refl), (is_recorded_iff c.event_type).0 (not-false (is_recorded c.event_type) n)),
    ))

to_registry-Recorded :
    (p : Proxy) (v : Visit) (ip name strip : Str) (o : Option RegistryConfig)
    → Recorded ip (allowed name) (to_registry p v ip name strip o)
unfolding to_registry emit_event
to_registry-Recorded p v ip name strip none = refl
to_registry-Recorded p v ip name strip (some reg) =
    let x = proxy_request v.world v.request reg strip p.tokens in
    EventOf-not ip (allowed name) x.1 (not p.has_recorder) _ (λ n.
      event_of-EventOf v reg.name ip x.1 name
        (classify_path (strip_repo_path_prefix v.request.path strip)))

let_in-Recorded :
    (p : Proxy) (v : Visit) (ip : Str) (x : PullStore × PullAnswer)
    → Recorded ip x.1 (let_in p v ip x)
unfolding let_in
let_in-Recorded p v ip (s, challenge realm) = refl
let_in-Recorded p v ip (s, allowed name) =
    let q = record p { pulls = s } in
    let hit = resolve_route q.routing v.request in
    Recorded-both ip (allowed name) (is_version_path v.request.path)
      (observe q [] (codes "ok") 0, version, none) _ refl
      (Recorded-both ip (allowed name) (not (is_registry_path v.request.path))
        (refuse q (codes "other") status_not_found (codes "404 page not found"))
        (to_registry q v ip name hit.strip_prefix hit.reg) refl
        (to_registry-Recorded q v ip name hit.strip_prefix hit.reg))

within_limit-Recorded :
    (h : Hashes) (p : Proxy) (v : Visit) (ip : Str) (x : Limiter × Bool)
    → Recorded ip (pull_answer h p v).1 (within_limit h p v ip x)
unfolding within_limit
within_limit-Recorded h p v ip (lim, false) = refl
within_limit-Recorded h p v ip (lim, true) =
    let q = record p { limiter = lim } in
    Recorded-both ip (pull_answer h p v).1 (not (is_readonly v.request))
      (refuse q (codes "other") status_method_not_allowed (codes "method not allowed"))
      (let_in q v ip (pull_answer h p v)) refl (let_in-Recorded q v ip (pull_answer h p v))

-- An event is recorded only for a request that was handed over to a registry, also where nothing
-- could be sent because the URL of the registry could not be parsed, and for manifests and blobs
-- only; its address is the one that the access rules were asked about, its user the one that the
-- pull authentication let in, its status and its bytes those of the reply.
pub serve_http-Recorded :
    (h : Hashes) (p : Proxy) (v : Visit)
    → Recorded (client_ip p.routing.trusted v.request) (pull_answer h p v).1 (serve_http h p v)
unfolding serve_http
serve_http-Recorded h p v =
    let ip = client_ip p.routing.trusted v.request in
    Recorded-both ip (pull_answer h p v).1 (not (allows p.acl ip))
      (refuse p (codes "denied") status_forbidden (codes "access denied"))
      (within_limit h p v ip (allow p.limiter ip v.nanos)) refl
      (within_limit-Recorded h p v ip (allow p.limiter ip v.nanos))
