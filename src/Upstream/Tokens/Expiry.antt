-- ===== src/Upstream/Tokens/Expiry.antt =====
-- How long a fetched token is handed out.
use easy_docker_proxy.Base.{
  ℕ, ◌+◌, ◌-◌, ◌*◌, ◌≡◌, refl, true, false, some, if◌then◌else◌, ltb, Str, is_empty, str_eq_refl,
  [], ◌++◌, ◌∷◌,
}
use easy_docker_proxy.Config.{RegistryConfig}
use easy_docker_proxy.Upstream.Tokens.{
  Cache, Reply, scope_index_key, peek, is_valid, reply_token, lifetime, skew, second, get_token,
}

-- A realm's token is in the cache until `skew` seconds before the end of its lifetime: up to then
-- `Peek` hands it out, and from then on nothing. `GetToken` has to be allowed to ask the realm, to
-- find no valid entry, and to get a token in the reply.
pub peek-get_token :
    (c : Cache) (now later t : ℕ) (realm service scope : Str) (reg : RegistryConfig) (r : Reply)
    → is_valid now (c.items (reg.name ++ b'|' ∷ realm ++ b'|' ∷ service ++ b'|' ∷ scope)) ≡ false
    → is_empty (reply_token r) ≡ false
    → let x = get_token c true now later realm service scope reg (some r) in
      (x.1 ≡ some (reply_token r))
      × (peek x.0 t reg.name scope ≡ (
          if ltb t (later + (lifetime reg r - skew (lifetime reg r)) * second)
          then reply_token r
          else []))
unfolding get_token peek
peek-get_token c now later t realm service scope reg r miss given =
    rw (miss, given) (refl, rw (str_eq_refl (scope_index_key reg.name scope)) refl)
