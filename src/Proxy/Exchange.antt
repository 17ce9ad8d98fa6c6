-- ===== src/Proxy/Exchange.antt =====
-- internal/proxy/proxy.go: `proxyRequest` and `doUpstream`.
--
-- What lies outside is an argument: the parser of upstream URLs, the encoder of base64, what the
-- upstream answers to the first and to the second request, which realms `CheckTokenRealm` takes and
-- what a realm replies, the clock, and how many writes the client takes. A body is the pieces, none
-- of them empty, that its reads return.
pub mod Requests
pub mod Replies
pub mod Reached
use easy_docker_proxy.Base.{
  ℕ, zero, suc, ◌+◌, Bool, true, false, not, ◌&&◌, List, [], ◌∷◌, ◌++◌, Option, none, some, ◌==◌,
  if◌then◌else◌, Str, codes, is_empty, str_eq, length,
}
use easy_docker_proxy.Config.{RegistryConfig}
use easy_docker_proxy.Proxy.Request.{Request, Header, get, delete}
use easy_docker_proxy.Proxy.Path.{strip_repo_path_prefix, single_joining_slash, extract_repo}
use easy_docker_proxy.Proxy.Headers.{
  set, copy_headers, remove_hop_by_hop, is_anonymous, upstream_header,
}
use easy_docker_proxy.Upstream.Challenge.{Challenge, parse_bearer_challenge}
use easy_docker_proxy.Upstream.Tokens
use easy_docker_proxy.Upstream.Tokens.{Cache, peek, invalidate_scope, get_token}
use easy_docker_proxy.Http.{is_method, status_unauthorized, status_bad_gateway}

-- A parsed URL; `authority` is all that stands before the path.
pub record Target : Type 0 where
  pub authority : Str
  pub path : Str
  pub raw_query : Str

pub record Sent : Type 0 where
  pub method : Str
  pub target : Target
  pub header : Header

-- `complete`: the reads end with io.EOF, not with an error.
pub record Response : Type 0 where
  pub status_code : ℕ
  pub header : Header
  pub body : List Str
  pub complete : Bool

pub record World : Type 0 where
  pub parse : Str → Option Target
  pub encode : Str → Str
  pub first : Sent → Option Response
  pub second : Sent → Option Response
  pub takes_realm : Str → Bool
  pub reply : Challenge → Str → Option Tokens.Reply
  pub peeked_at : ℕ
  pub now : ℕ
  pub later : ℕ
  pub writes : ℕ

-- What the client gets: an error, or a status with its header.
pub data Answer : Type 0 where
  failed : ℕ → Str → Answer
  passed : ℕ → Header → Answer

-- The three results, with the requests sent upstream in order.
pub record Outcome : Type 0 where
  pub status : ℕ
  pub written : ℕ
  pub err_msg : Str
  pub answer : Answer
  pub sent : List Sent

abbrev pub bad_gateway : List Sent → Str → Outcome
bad_gateway sent msg = record {
  status = status_bad_gateway;
  written = 0;
  err_msg = msg;
  answer = failed status_bad_gateway msg;
  sent = sent;
}

-- The loop that copies the body: `n` bytes are written, the client takes `writes` pieces more.
abbrev pub stream : ℕ → ℕ → List Str → Bool → ℕ × Str
stream n writes [] complete = (n, if complete then [] else codes "upstream read error")
stream n zero (c ∷ cs) complete = (n, codes "client write error")
stream n (suc writes) (c ∷ cs) complete = stream (n + length c) writes cs complete

abbrev pub client_header : Header → Header
client_header h =
    set (delete (copy_headers [] (remove_hop_by_hop h)) (codes "WWW-Authenticate"))
      (codes "Docker-Distribution-Api-Version") (codes "registry/2.0")

abbrev pub copy_body : World → Request → Response → ℕ × Str
copy_body w r resp =
    if is_method r (codes "HEAD") then (0, []) else stream 0 w.writes resp.body resp.complete

unfoldable pub pass_on : World → Request → List Sent → Response → Outcome
pass_on w r sent resp =
    let b = copy_body w r resp in
    record {
      status = resp.status_code;
      written = b.0;
      err_msg = b.1;
      answer = passed resp.status_code (client_header resp.header);
      sent = sent;
    }

abbrev pub sent_with : World → Request → Target → RegistryConfig → Str → Sent
sent_with w r target reg token = record {
  method = r.method;
  target = target;
  header = upstream_header w.encode token reg r.header;
}

abbrev pub after_retry : World → Request → List Sent → Option Response → Outcome
after_retry w r sent none = bad_gateway sent (codes "upstream error")
after_retry w r sent (some resp) = pass_on w r sent resp

-- The retry, with the token that the realm has given.
abbrev pub retry :
    World → Request → Target → RegistryConfig → Sent → Cache × Option Str → Cache × Outcome
retry w r target reg s1 (c, none) = (c, bad_gateway (s1 ∷ []) (codes "token error"))
retry w r target reg s1 (c, some token) =
    let s2 = sent_with w r target reg token in
    if is_empty token
    then (c, bad_gateway (s1 ∷ []) (codes "unauthorized upstream"))
    else (c, after_retry w r (s1 ∷ s2 ∷ []) (w.second s2))

abbrev pub challenged :
    World → Request → Target → RegistryConfig → Str → Cache → Sent → Challenge → Cache × Outcome
challenged w r target reg scope c s1 ch =
    if is_empty ch.realm
    then (c, bad_gateway (s1 ∷ []) (codes "unauthorized upstream"))
    else retry w r target reg s1 (
        get_token c (w.takes_realm ch.realm) w.now w.later ch.realm ch.service scope reg
          (w.reply ch scope))

abbrev pub after_first :
    World
    → Request
    → Target
    → RegistryConfig
    → Str
    → Str
    → Cache
    → Sent
    → Option Response
    → Cache × Outcome
after_first w r target reg scope token c s1 none =
    (c, bad_gateway (s1 ∷ []) (codes "upstream error"))
after_first w r target reg scope token c s1 (some resp) =
    if resp.status_code == status_unauthorized && not (is_anonymous reg.auth.type)
    then challenged w r target reg scope
        (if is_empty token then c else invalidate_scope c reg.name scope) s1
        (parse_bearer_challenge (get resp.header (codes "WWW-Authenticate")))
    else (c, pass_on w r (s1 ∷ []) resp)

abbrev pub scope_of : Str → Str
scope_of repo = if is_empty repo then [] else codes "repository:" ++ repo ++ codes ":pull"

abbrev pub forward :
    World → Request → RegistryConfig → Str → Cache → Option Target → Cache × Outcome
forward w r reg strip c none = (c, bad_gateway [] (codes "bad upstream url"))
forward w r reg strip c (some base) =
    let fwd_path = strip_repo_path_prefix r.path strip in
    let target : Target = record {
      authority = base.authority;
      path = single_joining_slash base.path fwd_path;
      raw_query = r.raw_query;
    } in
    let scope = scope_of (extract_repo fwd_path) in
    let token = if is_anonymous reg.auth.type then [] else peek c w.peeked_at reg.name scope in
    let s1 = sent_with w r target reg token in
    after_first w r target reg scope token c s1 (w.first s1)

unfoldable pub proxy_request : World → Request → RegistryConfig → Str → Cache → Cache × Outcome
proxy_request w r reg strip c = forward w r reg strip c (w.parse reg.upstream)
