-- ===== src/Upstream/Fetch/Asked.antt =====
-- Which URLs are asked for a token.
use easy_docker_proxy.Base.{
  ℕ, zero, suc, ◌+◌, ◌≤◌, ◌≡◌, refl, ◌⊎◌, Bool, true, false, not, ◌&&◌, List, [], ◌∷◌, ◌++◌, Option,
  none, some, if◌then◌else◌, All, ltb, length, length-append, Str, inl, inr, arith,
}
use easy_docker_proxy.Config.{RegistryConfig, Config}
use easy_docker_proxy.Config.Validate.{Url, Error}
use easy_docker_proxy.Config.Realm.{check_token_realm}
use easy_docker_proxy.Config.Realm.Accepted.{IsAccepted, check_token_realm-IsAccepted}
use easy_docker_proxy.Upstream.Tokens.{Cache, Reply, token_key, is_valid}
use easy_docker_proxy.Upstream.Fetch.{
  Web, Answer, replied, moved, failed, is_none, accepts, check_redirect, answered, follow,
  ask_realm, fetch_token,
}

-- The URL may be asked for a token of a registry with this upstream.
abbrev pub MayAsk : Web → Option Config → Str → Str → Type 0
MayAsk w cfg upstream url = (u : Url) × (w.parse url ≡ some u) × IsAccepted w.parse cfg upstream u

-- The query does not change what `CheckTokenRealm` looks at.
abbrev pub KeepsHost : Web → Type 0
KeepsHost w =
    (realm service scope : Str) → w.parse (w.with_query realm service scope) ≡ w.parse realm

accepts-MayAsk :
    (w : Web) (cfg : Option Config) (upstream url : Str)
    → accepts w cfg upstream url ≡ true
    → MayAsk w cfg upstream url
accepts-MayAsk w cfg upstream url h =
    check_token_realm-IsAccepted w.parse cfg url upstream
      (nothing (check_token_realm w.parse cfg url upstream) h)
  where
    nothing : (o : Option Error) → is_none o ≡ true → o ≡ none
    nothing none e = refl
    nothing (some x) e = cc

module _ (w : Web) (cfg : Option Config) (upstream : Str) where
  -- The requests from one on, after `n` others.
  abbrev Fine : ℕ → List Str × Option Reply → Type 0
  Fine n x = All (MayAsk w cfg upstream) x.0 × (n + length x.0 ≤ 3)

  redirected :
      (n : ℕ) (url target : Str) (b : Bool) (later : List Str × Option Reply)
      → n + 1 ≤ 3
      → MayAsk w cfg upstream url
      → (b ≡ true → Fine (suc n) later)
      → Fine n (if b then (url ∷ later.0, later.1) else (url ∷ [], none))
  redirected n url target true later le m k =
      let rest = k refl in ((m, rest.0), omega (arith, rest.1))
  redirected n url target false later le m k = ((m, _), omega (arith, le))

  follow-Fine :
      (fuel : ℕ) (via : List Str) (url : Str)
      → length via + 1 ≤ 3
      → MayAsk w cfg upstream url
      → Fine (length via) (follow w cfg upstream fuel via url)
  unfolding follow
  follow-Fine zero via url le m = (_, omega (arith, le))
  follow-Fine (suc fuel) via url le m = at (w.answer url) (λ target small ok.
      follow-Fine fuel (via ++ (url ∷ [])) target small (accepts-MayAsk w cfg upstream target ok))
    where
      both : (b c : Bool) → (b && c) ≡ true → (b ≡ true) × (c ≡ true)
      both true c h = (refl, h)
      both false c h = cc

      at :
          (a : Answer)
          → ((target : Str)
              → length (via ++ (url ∷ [])) + 1 ≤ 3
              → accepts w cfg upstream target ≡ true
              → Fine
                  (length (via ++ (url ∷ [])))
                  (follow w cfg upstream fuel (via ++ (url ∷ [])) target))
          → Fine (length via) (
              answered w cfg upstream via url
                (λ target. follow w cfg upstream fuel (via ++ (url ∷ [])) target)
                a)
      at (replied status r) k = ((m, _), omega (arith, le))
      at failed k = ((m, _), omega (arith, le))
      at (moved target) k =
          let visited = via ++ (url ∷ []) in
          let one = length-append via (url ∷ []) in
          redirected (length via) url target (check_redirect w cfg upstream visited target) _ le m
            (λ y.
              let parts = both (ltb (length visited) 3) (accepts w cfg upstream target) y in
              let small : length visited + 1 ≤ 3 = ground (arith, parts.0) in
              let rest = k target small (parts.1) in (rest.0, omega (arith, rest.1, one)))

  -- More fuel changes nothing.
  follow_enough :
      (fuel : ℕ) (via : List Str) (url : Str)
      → 1 ≤ fuel
      → 3 ≤ length via + fuel
      → follow w cfg upstream (suc fuel) via url ≡ follow w cfg upstream fuel via url
  unfolding follow
  follow_enough zero via url some_left enough = absurd (omega (arith, some_left))
  follow_enough (suc fuel) via url some_left enough = at (w.answer url) (λ target small.
      follow_enough fuel (via ++ (url ∷ [])) target
        (omega (arith, enough, small, length-append via (url ∷ [])))
        (omega (arith, enough, length-append via (url ∷ []))))
    where
      visited : List Str
      visited = via ++ (url ∷ [])

      later : ℕ → Str → List Str × Option Reply
      later n target = follow w cfg upstream n visited target

      chosen :
          (b c : Bool) (x y : List Str × Option Reply)
          → (b ≡ true → x ≡ y)
          → ◌≡◌ {A = List Str × Option Reply}
              (if b && c then (url ∷ x.0, x.1) else (url ∷ [], none))
              (if b && c then (url ∷ y.0, y.1) else (url ∷ [], none))
      chosen true c x y k = rw (k refl) refl
      chosen false c x y k = refl

      at :
          (a : Answer)
          → ((target : Str) → length visited + 1 ≤ 3 → later (suc fuel) target ≡ later fuel target)
          → answered w cfg upstream via url (later (suc fuel)) a
            ≡ answered w cfg upstream via url (later fuel) a
      at (replied status r) k = refl
      at failed k = refl
      at (moved target) k =
          chosen (ltb (length visited) 3) (accepts w cfg upstream target) (later (suc fuel) target)
            (later fuel target) (λ y. k target (ground (arith, y)))

-- `GetToken` asks three URLs at most, the realm and where it redirects to, each of them one that
-- may be asked for a token; and it asks none while a valid token is in the cache. The URL that is
-- made of the realm and the query has the scheme and the host of the realm. The bound is that of
-- `CheckRedirect`: it holds for any fuel from three on, and one more round would change nothing.
pub fetch_token-MayAsk :
    (w : Web) (rounds : ℕ) (c : Cache) (now later : ℕ) (realm service scope : Str)
    (reg : RegistryConfig) (cfg : Option Config)
    → KeepsHost w
    → 3 ≤ rounds
    → All
        (MayAsk w cfg reg.upstream)
        (fetch_token w rounds c now later realm service scope reg cfg).1
      × (length (fetch_token w rounds c now later realm service scope reg cfg).1 ≤ 3)
      × ((is_valid now (c.items (token_key reg realm service scope)) ≡ false)
          ⊎ ((fetch_token w rounds c now later realm service scope reg cfg).1 ≡ []))
      × (fetch_token w (suc rounds) c now later realm service scope reg cfg
          ≡ fetch_token w rounds c now later realm service scope reg cfg)
unfolding fetch_token check_token_realm
fetch_token-MayAsk w rounds c now later realm service scope reg cfg keeps enough =
    let k =
      asked (accepts w cfg reg.upstream realm)
        (is_valid now (c.items (token_key reg realm service scope)))
        (λ y.
          accepts-MayAsk w cfg reg.upstream (w.with_query realm service scope)
            (rw (keeps realm service scope) y)) in
    (
      k.0,
      k.1,
      k.2,
      rw
          (more (
            accepts w cfg reg.upstream realm
            && not (is_valid now (c.items (token_key reg realm service scope)))))
          refl,
    )
  where
    more :
        (b : Bool)
        → ask_realm w (suc rounds) cfg reg b realm service scope
          ≡ ask_realm w rounds cfg reg b realm service scope
    more true =
        follow_enough w cfg reg.upstream rounds [] (w.with_query realm service scope)
          (omega (arith, enough)) (omega (arith, enough))
    more false = refl

    asked :
        (b v : Bool)
        → (b ≡ true → MayAsk w cfg reg.upstream (w.with_query realm service scope))
        → All
            (MayAsk w cfg reg.upstream)
            (ask_realm w rounds cfg reg (b && not v) realm service scope).0
          × (length (ask_realm w rounds cfg reg (b && not v) realm service scope).0 ≤ 3)
          × ((v ≡ false) ⊎ ((ask_realm w rounds cfg reg (b && not v) realm service scope).0 ≡ []))
    asked true false k =
        let f =
          follow-Fine w cfg reg.upstream rounds [] (w.with_query realm service scope) (omega arith)
            (k refl) in
        (f.0, omega (arith, f.1), inl refl)
    asked true true k = (_, omega arith, inr refl)
    asked false v k = (_, omega arith, inr refl)
