-- ===== src/Admin/Viewer.antt =====
-- What a viewer can change over the console.
use easy_docker_proxy.Base.{
  ℕ, ◌≡◌, refl, ap, ap₂, ◌≢◌, Bool, true, false, not, ◌&&◌, List, [], ◌∷◌, map, Option, none, some,
  ◌==◌, ==_iff, if◌then◌else◌, Bool-cases, inl, inr, Str, codes, is_empty, arith, has_prefix,
  str_eq,
}
use easy_docker_proxy.Base.Int.{ℤ}
use easy_docker_proxy.Config.{Config}
use easy_docker_proxy.Store.{Hashes, Result, is_weak}
use easy_docker_proxy.Store.Users.{
  UserStore, UserRow, User, Role, is_admin, is_found, find_id, set_hash_id, set_password,
  change_hash,
}
use easy_docker_proxy.Http.{is_method, is_clean, parse_int}
use easy_docker_proxy.Api.{Api, Fields, Call, Reply, handle_login, handle_logout, row_id}
use easy_docker_proxy.Api.Users.{
  handle_users, handle_user_by_id, on_parts, with_id, change_user, put_password, is_password_path,
  is_end,
}
use easy_docker_proxy.Api.PullUsers.{handle_pull_users, handle_pull_user_by_id}
use easy_docker_proxy.Admin.{
  Console, Answer, Route, handle, handle_reload, dispatch, serve, authenticate_request, in_api,
  is_healthz, is_read, is_machine_path, is_static, healthz, config_route, reload_route, login_route,
  logout_route, me_route, users_route, user_route, pull_users_route, pull_user_route,
  statistics_route, metrics_route, static_route, no_route,
}
use easy_docker_proxy.Admin.Access.{
  Same, Kept, handle_login-Kept, handle_logout-Kept, dispatch-Same,
}

-- An account without its password and its times.
abbrev pub account : UserRow → ℕ × Str × Role
account r = (r.id, r.username, r.role)

-- No account comes, goes or gets another name or role, and the rows of others than `me`, no pull
-- user and the configuration are as before.
pub record Confined (me : ℕ) (s t : Console) : Type 0 where
  pub accounts : map account t.api.users.users ≡ map account s.api.users.users
  pub others : (i : ℕ) → i ≢ me → find_id i t.api.users.users ≡ find_id i s.api.users.users
  pub pulls : t.api.pulls ≡ s.api.pulls
  pub config : t.config ≡ s.config

record Own (me : ℕ) (a b : Api) : Type 0 where
  accounts : map account b.users.users ≡ map account a.users.users
  others : (i : ℕ) → i ≢ me → find_id i b.users.users ≡ find_id i a.users.users
  pulls : b.pulls ≡ a.pulls

own : (me : ℕ) (a : Api) → Own me a a
own me a = record { accounts = refl; others = λ i n. refl; pulls = refl }

Own-both :
    (me : ℕ) (a : Api) (b : Bool) (x y : Api × Reply)
    → Own me a x.0
    → Own me a y.0
    → Own me a (if b then x else y).0
Own-both me a true x y p q = p
Own-both me a false x y p q = q

map-account-set_hash_id :
    (i : ℕ) (hash : Str) (now : ℕ) (rows : List UserRow)
    → map account (set_hash_id i hash now rows) ≡ map account rows
map-account-set_hash_id i hash now [] = refl
map-account-set_hash_id i hash now (r ∷ rows) =
    ap₂ (λ x xs. x ∷ xs) (unchanged (r.id == i)) (map-account-set_hash_id i hash now rows)
  where
    unchanged :
        (b : Bool)
        → account (if b then record r { password_hash = hash; updated_at = now } else r) ≡ account r
    unchanged true = refl
    unchanged false = refl

find_id-set_hash_id :
    (i j : ℕ) (hash : Str) (now : ℕ) (rows : List UserRow)
    → j ≢ i
    → find_id j (set_hash_id i hash now rows) ≡ find_id j rows
find_id-set_hash_id i j hash now [] n = refl
find_id-set_hash_id i j hash now (r ∷ rows) n = elim (Bool-cases (r.id == i)) [
  | inl y ↦
      let ih = find_id-set_hash_id i j hash now rows n in
      let e = (==_iff r.id i).0 y in
      let m : (r.id == j) ≡ false = ground (arith, n, e) in rw (y, m, ih) refl
  | inr m ↦ let ih = find_id-set_hash_id i j hash now rows n in rw m (rw ih refl)
]

Own-store :
    (me : ℕ) (a : Api) (b : Bool) (x y : UserStore × Result Unit)
    → Own me a (record a { users = x.0 })
    → Own me a (record a { users = y.0 })
    → Own me a (record a { users = (if b then x else y).0 })
Own-store me a true x y p q = p
Own-store me a false x y p q = q

change_hash-Own :
    (a : Api) (up revokes : Bool) (now i : ℕ) (hash : Option Str)
    → Own i a (record a { users = (change_hash a.users up revokes now i hash).0 })
change_hash-Own a up revokes now i none = own i a
change_hash-Own a up revokes now i (some hash) = Own-store i a (not up) _ _ (own i a) (
    Own-store i a (not (is_found (find_id i a.users.users))) _ _ (own i a) (record {
      accounts = map-account-set_hash_id i hash now a.users.users;
      others = λ j n. find_id-set_hash_id i j hash now a.users.users n;
      pulls = refl;
    }))

put_password-Own :
    (h : Hashes) (a : Api) (c : Call) (i : ℕ) (f : Option Fields)
    → Own i a (put_password h a c i f).0
unfolding set_password
put_password-Own h a c i none = own i a
put_password-Own h a c i (some f) =
    Own-store i a (is_weak f.password) _ _ (own i a)
      (change_hash-Own a c.up c.second_up c.seconds i (h.generate c.salt f.password))

-- The password of another account is refused, that of the own one is not.
put_guarded-Own :
    (h : Hashes) (a : Api) (u : User) (c : Call) (i : ℕ) (refused : Reply)
    → Own u.id a (if true && not (u.id == i) then (a, refused) else put_password h a c i c.body).0
put_guarded-Own h a u c i refused = elim (Bool-cases (u.id == i)) [
  | inl y ↦ rw y (rw ((==_iff u.id i).0 y) (put_password-Own h a c i c.body))
  | inr n ↦ rw n (own u.id a)
]

change_user-Own :
    (h : Hashes) (a : Api) (u : User) (c : Call) (i : ℕ) (rest : List Str)
    → is_admin u.role ≡ false
    → Own u.id a (change_user h a u c i rest).0
change_user-Own h a u c i rest v = rw v (
    Own-both u.id a (is_password_path rest && is_method c.request (codes "PUT")) _ _
      (put_guarded-Own h a u c i _)
      (Own-both u.id a (is_end rest && is_method c.request (codes "DELETE")) _ _ (own u.id a)
        (own u.id a)))

with_id-Own :
    (h : Hashes) (a : Api) (u : User) (c : Call) (id : Option ℤ) (rest : List Str)
    → is_admin u.role ≡ false
    → Own u.id a (with_id h a u c id rest).0
with_id-Own h a u c none rest v = own u.id a
with_id-Own h a u c (some id) rest v = change_user-Own h a u c (row_id id) rest v

on_parts-Own :
    (h : Hashes) (a : Api) (u : User) (c : Call) (parts : List Str)
    → is_admin u.role ≡ false
    → Own u.id a (on_parts h a u c parts).0
on_parts-Own h a u c [] v = own u.id a
on_parts-Own h a u c (p ∷ rest) v =
    Own-both u.id a (is_empty p) _ _ (own u.id a) (with_id-Own h a u c (parse_int p) rest v)

in-Own : (me : ℕ) (s : Console) (x : Api × Reply) → Own me s.api x.0 → Confined me s (in_api s x).0
in-Own me s (a, reply) o = record {
  accounts = o.accounts;
  others = o.others;
  pulls = o.pulls;
  config = refl;
}

Kept-Own : (me : ℕ) (a b : Api) → Kept a b → Own me a b
Kept-Own me a b k = record {
  accounts = ap (map account) k.users;
  others = λ i n. ap (find_id i) k.users;
  pulls = k.pulls;
}

Same-Confined : (me : ℕ) (s t : Console) → Same s t → Confined me s t
Same-Confined me s t k = record {
  accounts = ap (map account) k.users;
  others = λ i n. ap (find_id i) k.users;
  pulls = k.pulls;
  config = k.config;
}

confined : (me : ℕ) (s : Console) → Confined me s s
confined me s = record { accounts = refl; others = λ i n. refl; pulls = refl; config = refl }

Confined-both :
    (me : ℕ) (s : Console) (b : Bool) (x y : Console × Answer)
    → Confined me s x.0
    → Confined me s y.0
    → Confined me s (if b then x else y).0
Confined-both me s true x y p q = p
Confined-both me s false x y p q = q

handle-Confined :
    (h : Hashes) (s : Console) (u : User) (c : Call) (loaded : Option Config) (r : Route)
    → is_admin u.role ≡ false
    → Confined u.id s (handle h s (some u) c loaded r).0
unfolding handle handle_reload handle_users handle_user_by_id handle_pull_users
    handle_pull_user_by_id
handle-Confined h s u c loaded reload_route v = rw v (
    Confined-both u.id s (not (is_method c.request (codes "POST"))) _ _ (confined u.id s)
      (confined u.id s))
handle-Confined h s u c loaded login_route v =
    in-Own u.id s (handle_login h s.api c) (Kept-Own u.id s.api _ (handle_login-Kept h s.api c))
handle-Confined h s u c loaded logout_route v =
    in-Own u.id s (handle_logout h s.api c) (Kept-Own u.id s.api _ (handle_logout-Kept h s.api c))
handle-Confined h s u c loaded users_route v = rw v (confined u.id s)
handle-Confined h s u c loaded user_route v =
    in-Own u.id s (handle_user_by_id h s.api (some u) c) (on_parts-Own h s.api u c _ v)
handle-Confined h s u c loaded pull_users_route v = rw v (confined u.id s)
handle-Confined h s u c loaded pull_user_route v = rw v (confined u.id s)
handle-Confined h s u c loaded healthz v = confined u.id s
handle-Confined h s u c loaded config_route v = confined u.id s
handle-Confined h s u c loaded me_route v = confined u.id s
handle-Confined h s u c loaded statistics_route v = confined u.id s
handle-Confined h s u c loaded metrics_route v = confined u.id s
handle-Confined h s u c loaded static_route v = confined u.id s
handle-Confined h s u c loaded no_route v = confined u.id s

dispatch-Confined :
    (h : Hashes) (s : Console) (u : User) (c : Call) (loaded : Option Config)
    → is_admin u.role ≡ false
    → Confined u.id s (dispatch h s (some u) c loaded).0
unfolding dispatch
dispatch-Confined h s u c loaded v =
    Confined-both u.id s (is_clean c.request.path) _ _ (handle-Confined h s u c loaded _ v)
      (confined u.id s)

-- A request with the session of a user who is no administrator changes no other account, no name,
-- role or id of any account, no pull user and not the configuration; the own password is all that
-- it can change of these.
pub serve-Confined :
    (h : Hashes) (env : Str → Str) (s : Console) (c : Call) (loaded : Option Config) (u : User)
    → authenticate_request h env s c ≡ some u
    → is_admin u.role ≡ false
    → Confined u.id s (serve h env s c loaded).0
unfolding serve
serve-Confined h env s c loaded u e v =
    let public = Same-Confined u.id s _ (dispatch-Same h s c loaded) in
    let p = c.request.path in
    Confined-both u.id s (is_healthz p) _ _ public (
      Confined-both u.id s
        (is_read c && not (is_machine_path p) && not (has_prefix p (codes "/stats"))) _ _
        (confined u.id s)
        (Confined-both u.id s (str_eq p (codes "/api/v1/auth/login")) _ _ public (
          Confined-both u.id s (is_static p) _ _ public
            (rw e (dispatch-Confined h s u c loaded v)))))
