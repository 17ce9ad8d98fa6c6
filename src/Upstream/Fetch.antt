-- ===== src/Upstream/Fetch.antt =====
-- internal/auth/upstream/token.go: `GetToken` with its ask_realm over HTTP, and `tokenHTTPClient`.
--
-- The transport is a parameter: what the server at a URL answers. `with_query` is the URL that the
-- realm and the two parameters make, of package net/url. The client of package net/http follows a
-- redirect when `CheckRedirect` has nothing against it; the requests that it makes are kept.
pub mod Asked
mod Tests
use easy_docker_proxy.Base.{
  ℕ, zero, suc, Bool, true, false, not, ◌&&◌, List, [], ◌∷◌, ◌++◌, Option, none, some,
  if◌then◌else◌, ltb, ◌==◌, Str, is_empty, length,
}
use easy_docker_proxy.Config.{RegistryConfig, Config}
use easy_docker_proxy.Config.Validate.{Url, Error}
use easy_docker_proxy.Config.Realm.{check_token_realm}
use easy_docker_proxy.Upstream.Tokens.{Cache, Reply, get_token, token_key, is_valid}

-- What a server answers: a status with the body that decodes, a redirect to a URL, or nothing.
pub data Answer : Type 0 where
  replied : ℕ → Option Reply → Answer
  moved : Str → Answer
  failed : Answer

pub record Web : Type 0 where
  pub parse : Str → Option Url
  pub with_query : Str → Str → Str → Str
  pub answer : Str → Answer

abbrev pub is_none {ℓ} : {A : Type ℓ} → Option A → Bool
is_none none = true
is_none (some _) = false

abbrev pub accepts : Web → Option Config → Str → Str → Bool
accepts w cfg upstream url = is_none (check_token_realm w.parse cfg url upstream)

-- `CheckRedirect`, where `via` are the URLs asked so far.
abbrev pub check_redirect : Web → Option Config → Str → List Str → Str → Bool
check_redirect w cfg upstream via url = ltb (length via) 3 && accepts w cfg upstream url

abbrev pub reply_of : ℕ → Option Reply → Option Reply
reply_of status r = if status == 200 then r else none

-- What is asked from a URL on, and what it comes to; `rest` goes on from the target of a redirect.
abbrev pub answered :
    Web
    → Option Config
    → Str
    → List Str
    → Str
    → (Str → List Str × Option Reply)
    → Answer
    → List Str × Option Reply
answered w cfg upstream via url rest (replied status r) = (url ∷ [], reply_of status r)
answered w cfg upstream via url rest failed = (url ∷ [], none)
answered w cfg upstream via url rest (moved target) =
    let later : List Str × Option Reply = rest target in
    if check_redirect w cfg upstream (via ++ (url ∷ [])) target
    then (url ∷ later.0, later.1)
    else (url ∷ [], none)

-- `Client.Do` from a URL that may be asked. Any fuel from three rounds on gives the same, since
-- `CheckRedirect` stops it then.
unfoldable pub follow : Web → Option Config → Str → ℕ → List Str → Str → List Str × Option Reply
follow w cfg upstream zero via url = ([], none)
follow w cfg upstream (suc fuel) via url =
    answered w cfg upstream via url
      (λ target. follow w cfg upstream fuel (via ++ (url ∷ [])) target) (w.answer url)

-- The URLs that are asked for a token, and the reply.
abbrev pub ask_realm :
    Web → ℕ → Option Config → RegistryConfig → Bool → Str → Str → Str → List Str × Option Reply
ask_realm w rounds cfg reg asks realm service scope =
    if asks
    then follow w cfg reg.upstream rounds [] (w.with_query realm service scope)
    else ([], none)

-- `GetToken`: the realm is checked, a token that is still valid is used, and else the realm is
-- asked.
unfoldable pub fetch_token :
    Web
    → ℕ
    → Cache
    → ℕ
    → ℕ
    → Str
    → Str
    → Str
    → RegistryConfig
    → Option Config
    → (Cache × Option Str) × List Str
fetch_token w rounds c now later realm service scope reg cfg =
    let allowed = accepts w cfg reg.upstream realm in
    let cached = is_valid now (c.items (token_key reg realm service scope)) in
    let got = ask_realm w rounds cfg reg (allowed && not cached) realm service scope in
    (get_token c allowed now later realm service scope reg got.1, got.0)
