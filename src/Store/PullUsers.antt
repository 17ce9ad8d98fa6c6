-- ===== src/Store/PullUsers.antt =====
-- internal/store/pull_users.go: the accounts of `docker login`, and the cache in front of bcrypt.
--
-- A table is the list of its rows; a statement does to it what its SQL says. `up` says whether the
-- database carries the statement out: it may fail at any call. Clock readings and the salt are
-- arguments. Package bcrypt and SHA-256 are parameters.
pub mod Cache
pub mod Login
pub mod Tests
use easy_docker_proxy.Base.{
  ℕ, suc, ◌+◌, Bool, true, false, not, ◌&&◌, List, [], ◌∷◌, ◌++◌, Option, none, some, ltb, ◌==◌,
  if◌then◌else◌, length, any, map, select, Str, codes, is_empty, str_eq, trim_space, Dict, empty,
  insert,
}
use easy_docker_proxy.Store.{
  Error, Result, ok, err, is_weak, Hashes, username_required, weak_password, user_exists,
  user_not_found, auth_invalid, hash_failed, database_failed,
}

pub record PullRow : Type 0 where
  pub id : ℕ
  pub username : Str
  pub password_hash : Str
  pub enabled : Bool
  pub created_at : ℕ
  pub updated_at : ℕ

pub record CacheEntry : Type 0 where
  pub pass_sha : Str
  pub expires_at : ℕ

-- `next_id` is the counter of AUTOINCREMENT.
pub record PullStore : Type 0 where
  pub rows : List PullRow
  pub next_id : ℕ
  pub cache : Dict CacheEntry

-- `PullUser`, which leaves the hash out.
pub record PullUser : Type 0 where
  pub id : ℕ
  pub username : Str
  pub enabled : Bool
  pub created_at : ℕ
  pub updated_at : ℕ

abbrev pub view : PullRow → PullUser
view r = record {
  id = r.id;
  username = r.username;
  enabled = r.enabled;
  created_at = r.created_at;
  updated_at = r.updated_at;
}

-- Rows are in the order of their ids: a new one has the next id, and stands last.
unfoldable pub list_pull_users : PullStore → Bool → Result (List PullUser)
list_pull_users s up = if not up then err database_failed else ok (map view s.rows)

unfoldable pub count_pull_users : PullStore → Bool → Result ℕ
count_pull_users s up = if not up then err database_failed else ok (length s.rows)

-- Seconds are the unit of the table, nanoseconds that of the cache.
abbrev pub cache_ttl : ℕ
cache_ttl = 30000000000

-- `WHERE username = ?`
abbrev pub find_name : Str → List PullRow → Option PullRow
find_name u [] = none
find_name u (r ∷ rows) = let rest = find_name u rows in if str_eq r.username u then some r else rest

abbrev pub is_taken : Option PullRow → Bool
is_taken none = false
is_taken (some r) = true

-- `UPDATE ... WHERE id = ?`
abbrev pub update_id : ℕ → (PullRow → PullRow) → List PullRow → List PullRow
update_id i f [] = []
update_id i f (r ∷ rows) = (if r.id == i then f r else r) ∷ update_id i f rows

-- Whether a statement on `WHERE id = ?` affects a row.
abbrev pub has_id : ℕ → List PullRow → Bool
has_id i rows = any (λ r. r.id == i) rows

-- `DELETE ... WHERE id = ?`
abbrev pub delete_id : ℕ → List PullRow → List PullRow
delete_id i [] = []
delete_id i (r ∷ rows) = let rest = delete_id i rows in if r.id == i then rest else r ∷ rest

-- INSERT, with the UNIQUE constraint of the column.
abbrev pub insert_row : PullStore → Bool → Str → Bool → ℕ → Option Str → PullStore × Result PullRow
insert_row s up u en now none = (s, err hash_failed)
insert_row s up u en now (some hash) =
    let row : PullRow = record {
      id = s.next_id;
      username = u;
      password_hash = hash;
      enabled = en;
      created_at = now;
      updated_at = now;
    } in
    if not up
    then (s, err database_failed)
    else if is_taken (find_name u s.rows)
    then (s, err user_exists)
    else (record s { rows = s.rows ++ row ∷ []; next_id = suc s.next_id }, ok row)

-- The common end of the three changes: no row, no change; otherwise the cache is emptied.
abbrev pub affect : PullStore → Bool → ℕ → List PullRow → PullStore × Result Unit
affect s up i rows =
    if not up
    then (s, err database_failed)
    else if has_id i s.rows
    then (record s { rows = rows; cache = empty }, ok _)
    else (s, err user_not_found)

abbrev pub set_hash : PullStore → Bool → ℕ → ℕ → Option Str → PullStore × Result Unit
set_hash s up now i none = (s, err hash_failed)
set_hash s up now i (some hash) =
    affect s up i (update_id i (λ r. record r { password_hash = hash; updated_at = now }) s.rows)

abbrev pub hit : Hashes → ℕ → Str → Option CacheEntry → Bool
hit h now password none = false
hit h now password (some e) = ltb now e.expires_at && str_eq e.pass_sha (h.sha password)

module _ (h : Hashes) where
  unfoldable pub create_pull_user :
      PullStore → Bool → ℕ → ℕ → Str → Str → Bool → PullStore × Result PullRow
  create_pull_user s up salt now username password en =
      let u = trim_space username in
      if is_empty u
      then (s, err username_required)
      else if is_weak password
      then (s, err weak_password)
      else insert_row s up u en now (h.generate salt password)

  unfoldable pub pull_auth_cache_get : PullStore → ℕ → Str → Str → Bool
  pull_auth_cache_get s now username password = hit h now password (s.cache username)

  unfoldable pub pull_auth_cache_put : PullStore → ℕ → Str → Str → PullStore
  pull_auth_cache_put s now username password =
      let e : CacheEntry = record { pass_sha = h.sha password; expires_at = now + cache_ttl } in
      record s { cache = insert username e s.cache }

  -- The rest of `AuthenticatePull` on the row that the query returns.
  unfoldable pub check_row : PullStore → ℕ → Str → Str → Option PullRow → PullStore × Result Str
  check_row s put_now u password none = (s, err auth_invalid)
  check_row s put_now u password (some r) =
      if not r.enabled
      then (s, err auth_invalid)
      else if not (h.compare r.password_hash password)
      then (s, err auth_invalid)
      else (pull_auth_cache_put s put_now u password, ok u)

  -- The clock is read for the cache at `now` and again, later, at `put_now`.
  unfoldable pub authenticate_pull : PullStore → Bool → ℕ → ℕ → Str → Str → PullStore × Result Str
  authenticate_pull s up now put_now username password =
      let u = trim_space username in
      if not (is_empty u) && pull_auth_cache_get s now u password
      then (s, ok u)
      else if not up
      then (s, err database_failed)
      else check_row s put_now u password (find_name u s.rows)

  unfoldable pub set_pull_user_password :
      PullStore → Bool → ℕ → ℕ → ℕ → Str → PullStore × Result Unit
  set_pull_user_password s up salt now i password =
      if is_weak password
      then (s, err weak_password)
      else set_hash s up now i (h.generate salt password)

unfoldable pub set_pull_user_enabled : PullStore → Bool → ℕ → ℕ → Bool → PullStore × Result Unit
set_pull_user_enabled s up now i en =
    affect s up i (update_id i (λ r. record r { enabled = en; updated_at = now }) s.rows)

unfoldable pub delete_pull_user : PullStore → Bool → ℕ → PullStore × Result Unit
delete_pull_user s up i = affect s up i (delete_id i s.rows)

abbrev pub created : PullStore × Result PullRow → PullStore × Result Bool
created (s, ok row) = (s, ok true)
created (s, err e) = (s, err e)

module _ (h : Hashes) where
  -- `counts` and `up` are for its two statements.
  unfoldable pub bootstrap_pull_user :
      PullStore → Bool → Bool → ℕ → ℕ → Str → Str → PullStore × Result Bool
  bootstrap_pull_user s counts up salt now username password =
      let name = trim_space username in
      let u = if is_empty name then codes "puller" else name in
      if not counts
      then (s, err database_failed)
      else if ltb 0 (length s.rows)
      then (s, ok false)
      else if is_weak password
      then (s, err weak_password)
      else created (create_pull_user h s up salt now u password true)
