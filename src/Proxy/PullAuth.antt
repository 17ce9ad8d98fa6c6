-- ===== src/Proxy/PullAuth.antt =====
-- internal/proxy/proxy.go: `checkPullAuth` and `parseBasicAuth`. `decode` is the decoder of
-- encoding/base64, `authn` what `SetPullAuthenticator` has set: a function on the state `S` of the
-- accounts, which is `AuthenticatePull` of the store in the program.
pub mod Basic
pub mod Required
mod Tests
use easy_docker_proxy.Base.{
  ℕ, [], Bool, true, false, not, ◌||◌, Option, none, some, if◌then◌else◌, Str, codes, is_empty,
  equal_fold, ltb, length, take, drop, trim_space, cut,
}
use easy_docker_proxy.Config.{PullAuthMode, PullAuthConfig, unset, off, optional, required}
use easy_docker_proxy.Store.{Result, ok, err}
use easy_docker_proxy.Proxy.Request.{Header, get}

-- Who is let in, under which name, or the realm of the challenge.
pub data PullAnswer : Type 0 where
  allowed : Str → PullAnswer
  challenge : Str → PullAnswer

abbrev pub user_pass : Str × Option Str → Option (Str × Str)
user_pass (user, none) = none
user_pass (user, some pass) = some (user, pass)

abbrev pub decoded : Option Str → Option (Str × Str)
decoded none = none
decoded (some raw) = user_pass (cut b':' raw)

unfoldable pub parse_basic_auth : (Str → Option Str) → Header → Option (Str × Str)
parse_basic_auth decode header =
    let h = get header (codes "Authorization") in
    if is_empty h
    then none
    else if ltb (length h) 6 || not (equal_fold (take 6 h) (codes "basic "))
    then none
    else decoded (decode (trim_space (drop 6 h)))

abbrev pub realm_or : Str → Str
realm_or realm = if not (is_empty realm) then realm else codes "easy-docker-proxy"

abbrev pub is_required : PullAuthMode → Bool
is_required required = true
is_required _ = false

abbrev pub is_off : PullAuthMode → Bool
is_off unset = true
is_off off = true
is_off _ = false

module _ {S : Type 0} where
  abbrev pub verdict : Str → S × Result Str → S × PullAnswer
  verdict realm (s, ok name) = (s, allowed name)
  verdict realm (s, err e) = (s, challenge realm)

  abbrev pub with_basic :
      Option (S → Str → Str → S × Result Str) → Str → S → Str × Str → S × PullAnswer
  with_basic none realm s (user, pass) = (s, challenge realm)
  with_basic (some authn) realm s (user, pass) = verdict realm (authn s user pass)

  -- `blank`: no Authorization at all.
  abbrev pub without_basic : Bool → Str → S → Bool → S × PullAnswer
  without_basic must realm s blank =
      if not blank
      then (s, challenge realm)
      else if must
      then (s, challenge realm)
      else (s, allowed [])

  abbrev pub on_basic :
      Option (S → Str → Str → S × Result Str)
      → PullAuthMode
      → Str
      → S
      → Bool
      → Option (Str × Str)
      → S × PullAnswer
  on_basic authn mode realm s blank (some c) = with_basic authn realm s c
  on_basic authn mode realm s blank none = without_basic (is_required mode) realm s blank

  unfoldable pub check_pull_auth :
      (Str → Option Str)
      → Option (S → Str → Str → S × Result Str)
      → PullAuthConfig
      → S
      → Header
      → S × PullAnswer
  check_pull_auth decode authn cfg s header =
      if is_off cfg.mode
      then (s, allowed [])
      else on_basic authn cfg.mode (realm_or cfg.realm) s
          (is_empty (trim_space (get header (codes "Authorization"))))
          (parse_basic_auth decode header)
