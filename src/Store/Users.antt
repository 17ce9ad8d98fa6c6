-- ===== src/Store/Users.antt =====
-- internal/store/users.go: the accounts of the web console and their sessions.
--
-- As in PullUsers, a table is the list of its rows and `up` says whether the database carries a
-- statement out. A session is deleted with its user (`ON DELETE CASCADE`). The 32 random bytes of a
-- session token come in as the text of the token.
pub mod LastAdmin
pub mod Sessions
mod Tests
use easy_docker_proxy.Base.{
  ℕ, suc, ◌+◌, Bool, true, false, not, ◌&&◌, ◌||◌, List, [], ◌∷◌, ◌++◌, Option, none, some, ltb,
  leb, ◌==◌, if◌then◌else◌, length, any, map, Str, codes, is_empty, str_eq, trim_space,
}
use easy_docker_proxy.Store.{
  Hashes, Error, Result, ok, err, is_weak, username_required, weak_password, user_exists,
  user_not_found, auth_invalid, session_invalid, last_admin, hash_failed, database_failed,
}

pub data Role : Type 0 where
  admin viewer : Role

pub record UserRow : Type 0 where
  pub id : ℕ
  pub username : Str
  pub password_hash : Str
  pub role : Role
  pub created_at : ℕ
  pub updated_at : ℕ

pub record Session : Type 0 where
  pub token : Str
  pub user_id : ℕ
  pub expires_at : ℕ
  pub created_at : ℕ

-- `next_id` is the counter of AUTOINCREMENT.
pub record UserStore : Type 0 where
  pub users : List UserRow
  pub next_id : ℕ
  pub sessions : List Session

-- `User` and `SessionInfo`, which leave the hash out.
pub record User : Type 0 where
  pub id : ℕ
  pub username : Str
  pub role : Role
  pub created_at : ℕ
  pub updated_at : ℕ

pub record SessionInfo : Type 0 where
  pub token : Str
  pub expires_at : ℕ
  pub user : User

abbrev pub view : UserRow → User
view r = record {
  id = r.id;
  username = r.username;
  role = r.role;
  created_at = r.created_at;
  updated_at = r.updated_at;
}

-- Any role but "admin" is taken for "viewer".
abbrev pub role_of : Str → Role
role_of s = if str_eq s (codes "admin") then admin else viewer

abbrev pub is_admin : Role → Bool
is_admin admin = true
is_admin viewer = false

abbrev pub find_name : Str → List UserRow → Option UserRow
find_name u [] = none
find_name u (r ∷ rows) = let rest = find_name u rows in if str_eq r.username u then some r else rest

abbrev pub find_id : ℕ → List UserRow → Option UserRow
find_id i [] = none
find_id i (r ∷ rows) = let rest = find_id i rows in if r.id == i then some r else rest

abbrev pub is_found : Option UserRow → Bool
is_found none = false
is_found (some r) = true

-- `SELECT COUNT(*) FROM web_users WHERE role = 'admin'`
abbrev pub count_admins : List UserRow → ℕ
count_admins [] = 0
count_admins (r ∷ rows) = if is_admin r.role then suc (count_admins rows) else count_admins rows

abbrev pub delete_id : ℕ → List UserRow → List UserRow
delete_id i [] = []
delete_id i (r ∷ rows) = let rest = delete_id i rows in if r.id == i then rest else r ∷ rest

abbrev pub set_hash_id : ℕ → Str → ℕ → List UserRow → List UserRow
set_hash_id i hash now [] = []
set_hash_id i hash now (r ∷ rows) =
    (if r.id == i then record r { password_hash = hash; updated_at = now } else r)
    ∷ set_hash_id i hash now rows

-- The sessions that a DELETE leaves.
abbrev pub keep_sessions : (Session → Bool) → List Session → List Session
keep_sessions p [] = []
keep_sessions p (x ∷ xs) = let rest = keep_sessions p xs in if p x then x ∷ rest else rest

abbrev pub not_of : ℕ → Session → Bool
not_of i x = not (x.user_id == i)

-- INSERT, with the UNIQUE constraint of the column.
abbrev pub insert_user : UserStore → Bool → Str → Role → ℕ → Option Str → UserStore × Result User
insert_user s up u role now none = (s, err hash_failed)
insert_user s up u role now (some hash) =
    let row : UserRow = record {
      id = s.next_id;
      username = u;
      password_hash = hash;
      role = role;
      created_at = now;
      updated_at = now;
    } in
    if not up
    then (s, err database_failed)
    else if is_found (find_name u s.users)
    then (s, err user_exists)
    else (record s { users = s.users ++ row ∷ []; next_id = suc s.next_id }, ok (view row))

-- 24 hours, in seconds.
abbrev pub session_life : ℕ
session_life = 86400

abbrev pub change_hash : UserStore → Bool → Bool → ℕ → ℕ → Option Str → UserStore × Result Unit
change_hash s up revokes now i none = (s, err hash_failed)
change_hash s up revokes now i (some hash) =
    if not up
    then (s, err database_failed)
    else if not (is_found (find_id i s.users))
    then (s, err user_not_found)
    else (
      record s {
        users = set_hash_id i hash now s.users;
        sessions = if revokes then keep_sessions (not_of i) s.sessions else s.sessions;
      },
      ok _,
    )

abbrev pub drop_user : UserStore → ℕ → UserStore
drop_user s i = record s {
  users = delete_id i s.users;
  sessions = keep_sessions (not_of i) s.sessions;
}

-- The transaction of `DeleteUser` on the row that its query returns.
abbrev pub delete_row : UserStore → ℕ → Option UserRow → UserStore × Result Unit
delete_row s i none = (s, err user_not_found)
delete_row s i (some r) =
    if is_admin r.role && not (ltb 1 (count_admins s.users))
    then (s, err last_admin)
    else (drop_user s i, ok _)

unfoldable pub delete_user : UserStore → Bool → ℕ → UserStore × Result Unit
delete_user s up i = if not up then (s, err database_failed) else delete_row s i (find_id i s.users)

abbrev pub created : UserStore × Result User → UserStore × Result Bool
created (s, ok user) = (s, ok true)
created (s, err e) = (s, err e)

abbrev pub found_user : Option UserRow → Result User
found_user none = err session_invalid
found_user (some r) = ok (view r)

-- The user of the first session that the query of `SessionUser` finds; `users` is joined by id.
abbrev pub joined : List UserRow → Option Session → Result User
joined users none = err session_invalid
joined users (some x) = found_user (find_id x.user_id users)

abbrev pub live : Str → ℕ → List Session → Option Session
live key now [] = none
live key now (x ∷ xs) =
    let rest = live key now xs in
    if str_eq x.token key && ltb now x.expires_at then some x else rest

module _ (h : Hashes) where
  unfoldable pub create_user : UserStore → Bool → ℕ → ℕ → Str → Str → Str → UserStore × Result User
  create_user s up salt now username password role =
      let u = trim_space username in
      if is_empty u
      then (s, err username_required)
      else if is_weak password
      then (s, err weak_password)
      else insert_user s up u (role_of role) now (h.generate salt password)

  -- `counts` and `up` are for its two statements.
  unfoldable pub bootstrap_admin :
      UserStore → Bool → Bool → ℕ → ℕ → Str → Str → UserStore × Result Bool
  bootstrap_admin s counts up salt now username password =
      let name = trim_space username in
      let u = if is_empty name then codes "admin" else name in
      if not counts
      then (s, err database_failed)
      else if ltb 0 (length s.users)
      then (s, ok false)
      else if is_weak password
      then (s, err weak_password)
      else created (create_user s up salt now u password (codes "admin"))

  -- The token's digest is the PRIMARY KEY of the table.
  unfoldable pub create_session :
      UserStore → Bool → ℕ → Str → UserRow → UserStore × Result SessionInfo
  create_session s up now token r =
      let x : Session = record {
        token = h.sha token;
        user_id = r.id;
        expires_at = now + session_life;
        created_at = now;
      } in
      if not up || any (λ (y : Session). str_eq y.token x.token) s.sessions
      then (s, err database_failed)
      else (
        record s { sessions = s.sessions ++ x ∷ [] },
        ok (record { token = token; expires_at = now + session_life; user = view r }),
      )

  abbrev pub check_user :
      UserStore → Bool → ℕ → Str → Str → Option UserRow → UserStore × Result SessionInfo
  check_user s up now token password none = (s, err auth_invalid)
  check_user s up now token password (some r) =
      if not (h.compare r.password_hash password)
      then (s, err auth_invalid)
      else create_session s up now token r

  unfoldable pub authenticate :
      UserStore → Bool → Bool → ℕ → Str → Str → Str → UserStore × Result SessionInfo
  authenticate s reads up now token username password =
      if not reads
      then (s, err database_failed)
      else check_user s up now token password (find_name (trim_space username) s.users)

  unfoldable pub session_user : UserStore → Bool → ℕ → Str → Result User
  session_user s up now token =
      let t = trim_space token in
      if is_empty t
      then err session_invalid
      else if not up
      then err database_failed
      else joined s.users (live (h.sha t) now s.sessions)

  unfoldable pub revoke_session : UserStore → Bool → Str → UserStore × Result Unit
  revoke_session s up token =
      let key = h.sha (trim_space token) in
      if not up
      then (s, err database_failed)
      else (record s { sessions = keep_sessions (λ x. not (str_eq x.token key)) s.sessions }, ok _)

  -- `revokes`: whether the second statement, whose error is dropped, is carried out.
  unfoldable pub set_password : UserStore → Bool → Bool → ℕ → ℕ → ℕ → Str → UserStore × Result Unit
  set_password s up revokes salt now i password =
      if is_weak password
      then (s, err weak_password)
      else change_hash s up revokes now i (h.generate salt password)

-- Rows are in the order of their ids: a new one has the next id, and stands last.
unfoldable pub list_users : UserStore → Bool → Result (List User)
list_users s up = if not up then err database_failed else ok (map view s.users)

unfoldable pub count_users : UserStore → Bool → Result ℕ
count_users s up = if not up then err database_failed else ok (length s.users)

unfoldable pub purge_expired_sessions : UserStore → Bool → ℕ → UserStore × Result Unit
purge_expired_sessions s up now =
    if not up
    then (s, err database_failed)
    else (record s { sessions = keep_sessions (λ x. leb now x.expires_at) s.sessions }, ok _)
