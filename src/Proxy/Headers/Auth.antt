-- ===== src/Proxy/Headers/Auth.antt =====
-- The credentials that reach an upstream.
use easy_docker_proxy.Base.{
  ◌≡◌, refl, ◌∙◌, Bool, true, false, not, ◌&&◌, ◌||◌, [], ◌∷◌, ◌++◌, if◌then◌else◌, Str, codes,
  is_empty, equal_fold,
}
use easy_docker_proxy.Config.{RegistryConfig, AuthConfig}
use easy_docker_proxy.Proxy.Request.{Header, get, delete}
use easy_docker_proxy.Proxy.Headers.{
  set, copy_headers, remove_hop_by_hop, is_basic, upstream_header,
}
use easy_docker_proxy.Proxy.Headers.Hop.{
  has, has-remove_hop_by_hop, get-append, get_lacks, lacks-delete,
}

-- What the token and the account of a registry call for.
abbrev pub credentials : (Str → Str) → Str → AuthConfig → Str
credentials encode token a =
    if not (is_empty token)
    then codes "Bearer " ++ token
    else if is_basic a.type && (not (is_empty a.username) || not (is_empty a.password))
    then codes "Basic " ++ encode (a.username ++ b':' ∷ a.password)
    else []

pub get-set : (h : Header) (k v : Str) → equal_fold k k ≡ true → get (set h k v) k ≡ v
get-set h k v e = get-append (delete h k) ((k, v) ∷ []) k (lacks-delete h k) ∙ rw e refl

pub and_false : (b c : Bool) → b ≡ false → (b && c) ≡ false
and_false true c e = cc
and_false false c e = refl

stripped :
    (header : Header)
    → has
        (remove_hop_by_hop (delete (copy_headers [] header) (codes "Authorization")))
        (codes "Authorization")
      ≡ false
stripped header =
    has-remove_hop_by_hop (delete (copy_headers [] header) (codes "Authorization"))
      (codes "Authorization")
    ∙ and_false _ _ (lacks-delete header (codes "Authorization"))

by_test :
    (b c : Bool) (x y z : Header) (u v w : Str)
    → get x (codes "Authorization") ≡ u
    → get y (codes "Authorization") ≡ v
    → get z (codes "Authorization") ≡ w
    → get (if b then x else if c then y else z) (codes "Authorization")
      ≡ (if b then u else if c then v else w)
by_test true c x y z u v w p q r = p
by_test false true x y z u v w p q r = q
by_test false false x y z u v w p q r = r

-- Whatever Authorization a client sends, the upstream gets the credentials that the token and the
-- registry's own account call for, and none if they call for none.
pub get-upstream_header :
    (encode : Str → Str) (token : Str) (reg : RegistryConfig) (header : Header)
    → get (upstream_header encode token reg header) (codes "Authorization")
      ≡ credentials encode token reg.auth
unfolding upstream_header
get-upstream_header encode token reg header =
    let h = remove_hop_by_hop (delete (copy_headers [] header) (codes "Authorization")) in
    let k = codes "Authorization" in
    let a = reg.auth in
    let bearer = codes "Bearer " ++ token in
    let account = codes "Basic " ++ encode (a.username ++ b':' ∷ a.password) in
    by_test (not (is_empty token))
      (is_basic a.type && (not (is_empty a.username) || not (is_empty a.password))) (set h k bearer)
      (set h k account) h bearer account [] (get-set h k bearer refl) (get-set h k account refl)
      (get_lacks h k (stripped header))
