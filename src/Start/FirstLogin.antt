-- ===== src/Start/FirstLogin.antt =====
-- The first start makes an account that can log in.
use easy_docker_proxy.Base.{ℕ, ◌≡◌, refl, Bool, true, false, [], ◌∷◌, some, Str, codes, trim_space}
use easy_docker_proxy.Store.{Hashes, Result, ok, err, is_weak}
use easy_docker_proxy.Store.Users.{
  UserStore, UserRow, SessionInfo, admin, bootstrap_admin, create_user, authenticate,
  create_session, purge_expired_sessions,
}
use easy_docker_proxy.Store.Users.LastAdmin.{no_users}
use easy_docker_proxy.Store.PullUsers.{PullStore}
use easy_docker_proxy.Store.PullUsers.Login.{TakesOwn}
use easy_docker_proxy.Start.{Conditions, make_accounts}

-- A log in as an administrator of this name.
abbrev pub IsAdminLogin : Str → Result SessionInfo → Type 0
IsAdminLogin name (ok s) = (s.user.username ≡ name) × (s.user.role ≡ admin)
IsAdminLogin name (err e) = ⊥

-- The row that the first start makes.
abbrev first_row : Str → ℕ → UserRow
first_row hash now = record {
  id = no_users.next_id;
  username = codes "admin";
  password_hash = hash;
  role = admin;
  created_at = now;
  updated_at = now;
}

abbrev first_store : Str → ℕ → UserStore
first_store hash now = record { users = first_row hash now ∷ []; next_id = 2; sessions = [] }

bootstrap_admin-first :
    (h : Hashes) (salt now : ℕ) (password hash : Str)
    → is_weak password ≡ false
    → h.generate salt password ≡ some hash
    → (bootstrap_admin h no_users true true salt now (codes "admin") password).0
      ≡ first_store hash now
unfolding bootstrap_admin create_user trim_space
bootstrap_admin-first h salt now password hash strong made = rw (strong, made) refl

purged :
    (hash : Str) (up : Bool) (made now : ℕ)
    → (purge_expired_sessions (first_store hash made) up now).0 ≡ first_store hash made
unfolding purge_expired_sessions
purged hash true made now = refl
purged hash false made now = refl

login :
    (h : Hashes) (now later : ℕ) (token password hash : Str)
    → h.compare hash password ≡ true
    → IsAdminLogin
        (codes "admin")
        (authenticate h (first_store hash now) true true later token (codes "admin") password).1
unfolding authenticate create_session trim_space
login h now later token password hash y = rw y (refl, refl)

-- On an empty database that works, a start with a password of eight bytes or more in
-- PROXY_WEB_PASSWORD and without PROXY_WEB_USER makes an administrator "admin", who can then log in
-- with the password, whatever else fails at the start; bcrypt has made a hash of the password, and
-- takes it back.
pub make_accounts-IsAdminLogin :
    (h : Hashes) (env : Str → Str) (w : Conditions) (pulls : PullStore) (hash token : Str)
    (later : ℕ)
    → TakesOwn h
    → h.generate w.salt (env (codes "PROXY_WEB_PASSWORD")) ≡ some hash
    → is_weak (env (codes "PROXY_WEB_PASSWORD")) ≡ false
    → env (codes "PROXY_WEB_USER") ≡ []
    → w.counts ≡ true
    → w.up ≡ true
    → IsAdminLogin
        (codes "admin")
        (authenticate h
          (make_accounts h env w no_users pulls).0
          true
          true
          later
          token
          (codes "admin")
          (env (codes "PROXY_WEB_PASSWORD"))).1
unfolding make_accounts
make_accounts-IsAdminLogin h env w pulls hash token later law made strong unset counts up =
    let password = env (codes "PROXY_WEB_PASSWORD") in
    let first = bootstrap_admin-first h w.salt w.now password hash strong made in
    rw (unset, counts, up, first, purged hash w.purges w.now w.now)
      (login h w.now later token password hash (law w.salt password hash made))
