-- ===== src/Config/Copy.antt =====
-- internal/config/config.go: `MaskedCopy`. What `Clone` copies is the same value; only the sharing
-- of slices, which values do not have, is different.
mod Tests
use easy_docker_proxy.Base.{
  ◌≡◌, refl, ap, ◌∙◌, List, [], ◌∷◌, Option, none, some, map, if◌then◌else◌, Bool, true, false, not,
  Str, codes, is_empty, trim_space, Bool-cases, inl, inr,
}
use easy_docker_proxy.Config.{AuthConfig, RegistryConfig, Config}

unfoldable pub clone : Config → Config
clone cfg = cfg

abbrev pub stars : Str
stars = codes "********"

abbrev pub with_password : RegistryConfig → Str → RegistryConfig
with_password r password = record r {
  auth = record { type = r.auth.type; username = r.auth.username; password = password };
}

abbrev pub masked : Str → Str
masked password = if not (is_empty password) then stars else password

abbrev pub mask : RegistryConfig → RegistryConfig
mask r = with_password r (masked r.auth.password)

unfoldable pub masked_copy : Config → Config
unfolding clone
masked_copy cfg = let cp = clone cfg in record cp { registries = map mask cp.registries }

-- `env` is the value of an environment variable, "" if it is unset.
abbrev pub or_token_env : Str → Str
or_token_env s = if not (is_empty s) then s else codes "PROXY_ADMIN_TOKEN"

unfoldable pub admin_token : (Str → Str) → Config → Str
admin_token env cfg = trim_space (env (or_token_env cfg.token_env))

-- The same registry but for its password, which is empty where the other's is.
abbrev pub SameButPassword : RegistryConfig → RegistryConfig → Type 0
SameButPassword r s =
    (password : Str) × (s ≡ with_password r password)
    × (is_empty password ≡ is_empty r.auth.password)

abbrev pub AllSame : List RegistryConfig → List RegistryConfig → Type 0
AllSame [] [] = Unit
AllSame (r ∷ rs) (s ∷ ss) = SameButPassword r s × AllSame rs ss
AllSame _ _ = ⊥

masked_lem : (p q : Str) → is_empty p ≡ is_empty q → masked p ≡ masked q
masked_lem [] [] h = refl
masked_lem [] (c ∷ q) h = cc
masked_lem (c ∷ p) [] h = cc
masked_lem (c ∷ p) (d ∷ q) h = refl

mask-SameButPassword : (r s : RegistryConfig) → SameButPassword r s → mask s ≡ mask r
mask-SameButPassword r s h = ap mask h.1 ∙ ap (with_password r) (masked_lem h.0 r.auth.password h.2)

masks : (rs ss : List RegistryConfig) → AllSame rs ss → map mask ss ≡ map mask rs
masks [] [] h = refl
masks [] (s ∷ ss) h = elim h [ ]
masks (r ∷ rs) [] h = elim h [ ]
masks (r ∷ rs) (s ∷ ss) h = rw (mask-SameButPassword r s h.0) (ap (◌∷◌ (mask r)) (masks rs ss h.1))

-- What is shown of a configuration does not depend on its passwords: two configurations that
-- differ in passwords only, each empty where the other's is, have the same masked copy.
pub masked_copy-SameButPassword :
    (cfg : Config) (others : List RegistryConfig)
    → AllSame cfg.registries others
    → masked_copy (record cfg { registries = others }) ≡ masked_copy cfg
unfolding masked_copy
masked_copy-SameButPassword cfg others h =
    ap (λ regs. record cfg { registries = regs }) (masks cfg.registries others h)
