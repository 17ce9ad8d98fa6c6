-- ===== src/Proxy/PullAuth/Required.antt =====
-- Who gets in, by the mode of pull authentication.
use easy_docker_proxy.Base.{
  ◌≡◌, ◌≢◌, refl, sym, ap, ◌∙◌, ◌↔◌, ◌⊎◌, Bool, true, false, Option, none, some, inl, inr, Str,
  codes, is_empty, is_empty_iff, trim_space, [],
}
use easy_docker_proxy.Config.{PullAuthMode, PullAuthConfig, unset, off, optional, required, invalid}
use easy_docker_proxy.Store.{Result, ok, err}
use easy_docker_proxy.Proxy.Request.{Header, get}
use easy_docker_proxy.Proxy.PullAuth.{
  allowed, verdict, on_basic, without_basic, is_required, is_off, realm_or, check_pull_auth,
  parse_basic_auth,
}
use easy_docker_proxy.Proxy.PullAuth.Basic.{IsBasic, IsBasic-visible, parse_basic_auth_iff}

abbrev pub IsOff : PullAuthMode → Type 0
IsOff mode = (mode ≡ unset) ⊎ (mode ≡ off)

abbrev pub IsOn : PullAuthMode → Type 0
IsOn mode = (mode ≢ unset) × (mode ≢ off)

-- The field has no credentials at all, and none are required.
abbrev pub Anonymous : PullAuthMode → Str → Str → Type 0
Anonymous mode field name = (mode ≢ required) × ((trim_space field ≡ []) × (name ≡ []))

mode_cases : (m : PullAuthMode) → ((is_off m ≡ true) × IsOff m) ⊎ ((is_off m ≡ false) × IsOn m)
mode_cases unset = inl (refl, inl refl)
mode_cases off = inl (refl, inr refl)
mode_cases optional = inr (refl, (λ e. cc, λ e. cc))
mode_cases required = inr (refl, (λ e. cc, λ e. cc))
mode_cases (invalid s) = inr (refl, (λ e. cc, λ e. cc))

is_required_iff : (m : PullAuthMode) → (is_required m ≡ false) ↔ (m ≢ required)
is_required_iff required = (λ e. cc, λ n. absurd (n refl))
is_required_iff unset = (λ e n. cc, λ n. refl)
is_required_iff off = (λ e n. cc, λ n. refl)
is_required_iff optional = (λ e n. cc, λ n. refl)
is_required_iff (invalid s) = (λ e n. cc, λ n. refl)

not_off : (m : PullAuthMode) → IsOff m → IsOn m → ⊥
not_off m (inl e) n = n.0 e
not_off m (inr e) n = n.1 e

module _ {S : Type 0} where
  -- The authenticator takes Basic credentials of the field for those of `name`.
  abbrev pub Accepted :
      Option (S → Str → Str → S × Result Str) → (Str → Option Str) → S → Str → Str → Type 0
  Accepted authn decode s field name =
      (f : S → Str → Str → S × Result Str) × (user : Str) × (pass : Str) × (authn ≡ some f)
      × IsBasic decode field user pass
      × ((f s user pass).1 ≡ ok name)

  -- Who is let in under which name.
  abbrev pub LetsIn :
      Option (S → Str → Str → S × Result Str)
      → (Str → Option Str)
      → PullAuthMode
      → S
      → Str
      → Str
      → Type 0
  LetsIn authn decode mode s field name =
      (IsOff mode × (name ≡ []))
      ⊎ (IsOn mode × (Accepted authn decode s field name ⊎ Anonymous mode field name))

  verdict_iff :
      (realm name : Str) (x : S × Result Str)
      → ((verdict realm x).1 ≡ allowed name) ↔ (x.1 ≡ ok name)
  verdict_iff realm name (s, ok n) = (λ e. cc, λ e. cc)
  verdict_iff realm name (s, err e) = (λ e. cc, λ e. cc)

  anonymous_iff :
      (realm name : Str) (s : S) (blank must : Bool)
      → ((without_basic must realm s blank).1 ≡ allowed name)
        ↔ ((must ≡ false) × ((blank ≡ true) × (name ≡ [])))
  anonymous_iff realm name s false must = (λ e. cc, λ w. cc)
  anonymous_iff realm name s true true = (λ e. cc, λ w. cc)
  anonymous_iff realm name s true false = (λ e. (refl, (refl, cc)), λ w. cc (w.1.1))

  module _ (authn : Option (S → Str → Str → S × Result Str)) (decode : Str → Option Str)
      (mode : PullAuthMode) (realm name : Str) (s : S) (header : Header) where
    abbrev field : Str
    field = get header (codes "Authorization")

    abbrev Goal : Type 0
    Goal = Accepted authn decode s field name ⊎ Anonymous mode field name

    without_iff :
        parse_basic_auth decode header ≡ none
        → ((on_basic authn mode realm s (is_empty (trim_space field)) none).1 ≡ allowed name) ↔ Goal
    without_iff p =
        let v = anonymous_iff realm name s (is_empty (trim_space field)) (is_required mode) in
        (
          λ e.
              let w = v.0 e in
              inr (
                (is_required_iff mode).0 (w.0),
                ((is_empty_iff (trim_space field)).0 (w.1.0), w.1.1),
              ),
          λ w. elim w [
            | inl (f, user, pass, a, b, k) ↦
                let q = (parse_basic_auth_iff decode header user pass).1 b in cc (sym p ∙ q)
            | inr k ↦ v.1 (
              (is_required_iff mode).1 (k.0),
              ((is_empty_iff (trim_space field)).1 (k.1.0), k.1.1),
            )
          ],
        )

    with_iff :
        (user pass : Str)
        → parse_basic_auth decode header ≡ some (user, pass)
        → ((on_basic authn mode realm s (is_empty (trim_space field)) (some (user, pass))).1
            ≡ allowed name)
          ↔ Goal
    with_iff user pass p = by authn refl
      where
        given : IsBasic decode field user pass
        given = (parse_basic_auth_iff decode header user pass).0 p

        by :
            (o : Option (S → Str → Str → S × Result Str))
            → authn ≡ o
            → ((on_basic o mode realm s (is_empty (trim_space field)) (some (user, pass))).1
                ≡ allowed name)
              ↔ Goal
        by none a = (
          λ e. cc,
          λ w. elim w [
            | inl (f, u, q, b, c, k) ↦ cc (sym a ∙ b)
            | inr k ↦ absurd (IsBasic-visible decode field user pass given (k.1.0))
          ],
        )
        by (some f) a =
            let v = verdict_iff realm name (f s user pass) in
            (
              λ e. inl (f, user, pass, a, given, v.0 e),
              λ w. elim w [
                | inl (g, u, q, b, c, k) ↦
                    let same_user : ◌≡◌ {A = Option (Str × Str)} (some (u, q)) (some (user, pass)) =
                      sym ((parse_basic_auth_iff decode header u q).1 c) ∙ p in
                    let both : some f ≡ some g = sym a ∙ b in
                    let same : f ≡ g = cc in
                    let at_user : u ≡ user = cc in
                    let at_pass : q ≡ pass = cc in
                    v.1 (
                      ap (λ h. (h s user pass).1) same
                      ∙ (ap (λ x. (g s x pass).1) (sym at_user)
                          ∙ (ap (λ x. (g s u x).1) (sym at_pass) ∙ k)))
                | inr k ↦ absurd (IsBasic-visible decode field user pass given (k.1.0))
              ],
            )

    answered_iff :
        (c : Option (Str × Str))
        → parse_basic_auth decode header ≡ c
        → ((on_basic authn mode realm s (is_empty (trim_space field)) c).1 ≡ allowed name) ↔ Goal
    answered_iff none p = without_iff p
    answered_iff (some (user, pass)) p = with_iff user pass p

-- With pull authentication off or unset, every client is let in, under the empty name. Else a
-- client is let in under a name exactly when there is an authenticator that takes the Basic
-- credentials of the request for that name, or, unless the mode is `required`, when the request has
-- no Authorization at all, under the empty name.
pub check_pull_auth_iff :
    {S : Type 0} (authn : Option (S → Str → Str → S × Result Str)) (decode : Str → Option Str)
    (cfg : PullAuthConfig) (s : S) (header : Header) (name : Str)
    → ((check_pull_auth decode authn cfg s header).1 ≡ allowed name)
      ↔ LetsIn authn decode cfg.mode s (get header (codes "Authorization")) name
unfolding check_pull_auth
check_pull_auth_iff authn decode cfg s header name = elim (mode_cases cfg.mode) [
  | inl (o, is_off') ↦ rw o (
    λ e. inl (is_off', cc),
    λ w. elim w [
      | inl k ↦ ap allowed (sym (k.1))
      | inr k ↦ absurd (not_off cfg.mode is_off' (k.0))
    ],
  )
  | inr (o, is_on) ↦
      let v =
        answered_iff authn decode cfg.mode (realm_or cfg.realm) name s header
          (parse_basic_auth decode header) refl in
      rw o (
        λ e. inr (is_on, v.0 e),
        λ w. elim w [ inl k ↦ absurd (not_off cfg.mode (k.0) is_on) | inr k ↦ v.1 (k.1) ],
      )
]
