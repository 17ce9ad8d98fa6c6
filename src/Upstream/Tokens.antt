-- ===== src/Upstream/Tokens.antt =====
-- internal/auth/upstream/token.go: the token cache.
--
-- Times are nanoseconds. `GetToken` asks the realm over HTTP; whether the realm is allowed and what
-- it replies are arguments of `get_token` here, and Upstream/Fetch supplies them. An error of any
-- kind is `none`.
pub mod Expiry
mod Tests
use easy_docker_proxy.Base.{
  ℕ, ◌+◌, ◌-◌, ◌*◌, ◌/◌, Bool, true, false, not, ◌&&◌, Option, none, some, if◌then◌else◌, ltb, leb,
  [], ◌++◌, ◌∷◌, Str, is_empty, has_prefix, has_suffix, Dict, empty, insert, remove, keep,
}
use easy_docker_proxy.Base.Int.{ℤ, pos, pos_part, ltb_ℤ}
use easy_docker_proxy.Config.{RegistryConfig}

pub record Entry : Type 0 where
  pub token : Str
  pub expires_at : ℕ

pub record Cache : Type 0 where
  pub items : Dict Entry
  pub last : Dict Entry

abbrev pub new_cache : Cache
new_cache = record { items = empty; last = empty }

unfoldable pub clear : Cache → Cache
clear c = new_cache

abbrev pub scope_index_key : Str → Str → Str
scope_index_key reg_name scope = reg_name ++ b'|' ∷ scope

-- The token of an entry that is there and not expired, or "".
abbrev pub valid_token : ℕ → Option Entry → Str
valid_token now none = []
valid_token now (some e) = if ltb now e.expires_at then e.token else []

unfoldable pub peek : Cache → ℕ → Str → Str → Str
peek c now reg_name scope = valid_token now (c.last (scope_index_key reg_name scope))

unfoldable pub invalidate_scope : Cache → Str → Str → Cache
invalidate_scope c reg_name scope = record {
  items =
      keep (λ k e. not (has_prefix k (reg_name ++ b'|' ∷ []) && has_suffix k (b'|' ∷ scope)))
        c.items;
  last = remove (scope_index_key reg_name scope) c.last;
}

-- The fields of the JSON that a realm replies with.
pub record Reply : Type 0 where
  pub token : Str
  pub access_token : Str
  pub expires_in : ℤ

abbrev pub reply_token : Reply → Str
reply_token r = if is_empty r.token then r.access_token else r.token

abbrev pub lifetime : RegistryConfig → Reply → ℕ
lifetime reg r =
    if ltb_ℤ (pos 0) r.expires_in
    then pos_part r.expires_in
    else if ltb_ℤ (pos 0) reg.token_cache_ttl
    then pos_part reg.token_cache_ttl
    else 3600

-- The seconds that are taken off a lifetime.
abbrev pub skew : ℕ → ℕ
skew ttl = if leb ttl 60 then (if ltb (ttl / 2) 1 then 1 else ttl / 2) else 60

abbrev pub second : ℕ
second = 1000000000

-- Both maps get the token that a realm has replied with at `later`.
abbrev pub store_reply : Cache → RegistryConfig → Str → Str → ℕ → Option Reply → Cache × Option Str
store_reply c reg key scope later none = (c, none)
store_reply c reg key scope later (some r) =
    let tok = reply_token r in
    let ttl = lifetime reg r in
    let e : Entry = record { token = tok; expires_at = later + (ttl - skew ttl) * second } in
    if is_empty tok then (c, none) else (
      record {
        items = insert key e c.items;
        last = insert (scope_index_key reg.name scope) e c.last;
      },
      some tok,
    )

abbrev pub is_valid : ℕ → Option Entry → Bool
is_valid now none = false
is_valid now (some e) = ltb now e.expires_at

abbrev pub token_key : RegistryConfig → Str → Str → Str → Str
token_key reg realm service scope = reg.name ++ b'|' ∷ realm ++ b'|' ∷ service ++ b'|' ∷ scope

-- The clock is read at `now` for the lookup, and at `later` once the reply is there.
unfoldable pub get_token :
    Cache → Bool → ℕ → ℕ → Str → Str → Str → RegistryConfig → Option Reply → Cache × Option Str
get_token c allowed now later realm service scope reg reply =
    let key = token_key reg realm service scope in
    if not allowed
    then (c, none)
    else if is_valid now (c.items key)
    then (c, some (valid_token now (c.items key)))
    else store_reply c reg key scope later reply
