-- ===== src/Proxy/Request.antt =====
-- The parts of an `*http.Request` that internal/proxy/proxy.go reads, and the helpers that read
-- them. A header is a list of fields in canonical spelling; `Get` is the first one of its name.
use mathlib.Core.List.{reverse}
use easy_docker_proxy.Base.{
  ℕ, Bool, false, not, ◌&&◌, ◌||◌, List, [], ◌∷◌, Option, none, some, ◌==◌, any, drop,
  if◌then◌else◌, Str, to_lower, before, cut, equal_fold, select,
}
use easy_docker_proxy.Net.{Ip, IpNet}
use easy_docker_proxy.Net.Parse.{parse_ip}
use easy_docker_proxy.Acl.{in_nets}

abbrev pub Header : Type 0
Header = List (Str × Str)

abbrev pub get : Header → Str → Str
get [] name = []
get ((k, v) ∷ h) name = if equal_fold k name then v else get h name

-- `Del`; a name is canonical in any spelling.
abbrev pub delete : Header → Str → Header
delete h name = select (λ f. not (equal_fold f.0 name)) h

pub record Request : Type 0 where
  pub method : Str
  pub path : Str
  pub raw_query : Str
  pub host : Str
  pub remote_addr : Str
  pub header : Header

abbrev has_byte : ℕ → Str → Bool
has_byte b s = any (λ c. c == b) s

-- `net.SplitHostPort` on a text that begins with a bracket; the arguments are what stands before
-- and after the closing one.
abbrev bracketed : Str → Option Str → Option Str
bracketed front (some (c ∷ port)) =
    if c == b':'
      && not (
          has_byte b':' port
          || has_byte b'[' (drop 1 front)
          || has_byte b'[' port
          || has_byte b']' port)
    then some (drop 1 front)
    else none
bracketed front _ = none

-- The same on any other text; `host` is what stands before the last colon, reversed.
abbrev unbracketed : Str → Option Str → Option Str
unbracketed s none = none
unbracketed s (some host) =
    if has_byte b':' host || has_byte b'[' s || has_byte b']' s then none else some (reverse host)

-- The host of `net.SplitHostPort`.
unfoldable pub split_host_port : Str → Option Str
split_host_port [] = none
split_host_port (c ∷ s) =
    if c == b'['
    then bracketed (cut b']' (c ∷ s)).0 (cut b']' (c ∷ s)).1
    else unbracketed (c ∷ s) (cut b':' (reverse (c ∷ s))).1

abbrev or_whole : Str → Option Str → Str
or_whole s none = s
or_whole s (some host) = host

unfoldable pub remote_ip : Request → Str
unfolding split_host_port
remote_ip r = or_whole r.remote_addr (split_host_port r.remote_addr)

unfoldable pub request_host : Request → Str
request_host r = to_lower (before b':' r.host)

abbrev pub parsed_in : Option Ip → List IpNet → Bool
parsed_in none nets = false
parsed_in (some ip) nets = in_nets ip nets

unfoldable pub ip_in_nets : Str → List IpNet → Bool
ip_in_nets ip_str nets = parsed_in (parse_ip ip_str) nets
