-- ===== src/Proxy/Headers.antt =====
-- internal/proxy/proxy.go: the header fields that are sent on. `encode` is the encoder of
-- encoding/base64.
pub mod Auth
pub mod Hop
mod Tests
use easy_docker_proxy.Base.{
  Bool, true, false, not, ◌&&◌, ◌||◌, List, [], ◌∷◌, ◌++◌, map, if◌then◌else◌, Str, codes, is_empty,
  equal_fold, any, split, trim_space,
}
use easy_docker_proxy.Config.{AuthType, anonymous, basic, RegistryConfig}
use easy_docker_proxy.Proxy.Request.{Header, get, delete}

-- `Set`
abbrev pub set : Header → Str → Str → Header
set h k v = delete h k ++ (k, v) ∷ []

-- `dst.Add` for each field of `src`
abbrev pub copy_headers : Header → Header → Header
copy_headers dst src = dst ++ src

abbrev pub hop_headers : List Str
hop_headers =
    codes "Connection"
    ∷ codes "Proxy-Connection"
    ∷ codes "Keep-Alive"
    ∷ codes "Proxy-Authenticate"
    ∷ codes "Proxy-Authorization"
    ∷ codes "Te"
    ∷ codes "Trailer"
    ∷ codes "Transfer-Encoding"
    ∷ codes "Upgrade"
    ∷ []

abbrev pub delete_all : List Str → Header → Header
delete_all [] h = h
delete_all (k ∷ ks) h = delete_all ks (delete h k)

-- The fields that the first Connection field names.
abbrev pub connection_names : Str → List Str
connection_names c = if is_empty c then [] else map trim_space (split b',' c)

unfoldable pub remove_hop_by_hop : Header → Header
remove_hop_by_hop h =
    delete_all hop_headers (delete_all (connection_names (get h (codes "Connection"))) h)

abbrev pub is_basic : AuthType → Bool
is_basic basic = true
is_basic _ = false

abbrev pub is_anonymous : AuthType → Bool
is_anonymous anonymous = true
is_anonymous _ = false

-- The header that `doUpstream` sends.
unfoldable pub upstream_header : (Str → Str) → Str → RegistryConfig → Header → Header
upstream_header encode token reg header =
    let h = remove_hop_by_hop (delete (copy_headers [] header) (codes "Authorization")) in
    let a = reg.auth in
    if not (is_empty token)
    then set h (codes "Authorization") (codes "Bearer " ++ token)
    else if is_basic a.type && (not (is_empty a.username) || not (is_empty a.password))
    then set h (codes "Authorization") (codes "Basic " ++ encode (a.username ++ b':' ∷ a.password))
    else h
