-- ===== src/Store/PullUsers/Cache.antt =====
-- The cache lets nobody in whom the table would not, as long as calls do not overlap: a change of
-- an account that takes effect empties it.
use easy_docker_proxy.Base.{
  ℕ, ◌≡◌, refl, ap, subst, Bool, true, false, not, ◌&&◌, List, [], ◌∷◌, ◌++◌, Option, none, some,
  if◌then◌else◌, Str, is_empty, str_eq, str_eq_iff, trim_space, empty, Bool-cases, inl, inr, arith,
  ltb, length,
}
use easy_docker_proxy.Store.{Hashes, Result, ok, err, is_weak, auth_invalid, database_failed}
use easy_docker_proxy.Store.PullUsers.{
  PullRow, CacheEntry, PullStore, find_name, is_taken, insert_row, affect, set_hash, hit,
  create_pull_user, pull_auth_cache_get, pull_auth_cache_put, check_row, authenticate_pull,
  set_pull_user_password, set_pull_user_enabled, delete_pull_user, created, has_id,
  bootstrap_pull_user,
}

-- One call on the accounts, with its clock readings, salt and database answers.
pub data Op : Type 0 where
  create_op : (up : Bool) (salt now : ℕ) (username password : Str) (en : Bool) → Op
  bootstrap_op : (counts up : Bool) (salt now : ℕ) (username password : Str) → Op
  authenticate_op : (up : Bool) (now put_now : ℕ) (username password : Str) → Op
  password_op : (up : Bool) (salt now id : ℕ) (password : Str) → Op
  enabled_op : (up : Bool) (now id : ℕ) (en : Bool) → Op
  delete_op : (up : Bool) (id : ℕ) → Op

abbrev pub apply : Hashes → PullStore → Op → PullStore
apply h s (create_op up salt now u p en) = (create_pull_user h s up salt now u p en).0
apply h s (bootstrap_op counts up salt now u p) = (bootstrap_pull_user h s counts up salt now u p).0
apply h s (authenticate_op up now put_now u p) = (authenticate_pull h s up now put_now u p).0
apply h s (password_op up salt now i p) = (set_pull_user_password h s up salt now i p).0
apply h s (enabled_op up now i en) = (set_pull_user_enabled s up now i en).0
apply h s (delete_op up i) = (delete_pull_user s up i).0

abbrev pub apply_all : Hashes → PullStore → List Op → PullStore
apply_all h s [] = s
apply_all h s (op ∷ ops) = apply_all h (apply h s op) ops

-- The table has an enabled account of that name, whose hash takes a password with the given digest.
pub record Backed (h : Hashes) (rows : List PullRow) (u digest : Str) : Type 0 where
  pub row : PullRow
  pub stored : find_name u rows ≡ some row
  pub enabled : row.enabled ≡ true
  pub password : Str
  pub same : h.sha password ≡ digest
  pub accepted : h.compare row.password_hash password ≡ true

abbrev pub CacheBacked : Hashes → PullStore → Type 0
CacheBacked h s = (u : Str) (e : CacheEntry) → s.cache u ≡ some e → Backed h s.rows u e.pass_sha

-- Whichever way a test goes.
branch :
    (h : Hashes) {A : Type 0} (b : Bool) (x y : PullStore × Result A)
    → CacheBacked h x.0
    → CacheBacked h y.0
    → CacheBacked h (if b then x else y).0
branch h true x y v w = v
branch h false x y v w = w

affect-CacheBacked :
    (h : Hashes) (s : PullStore) (up : Bool) (i : ℕ) (rows : List PullRow)
    → CacheBacked h s
    → CacheBacked h (affect s up i rows).0
affect-CacheBacked h s up i rows v =
    branch h (not up) _ _ v (branch h (has_id i s.rows) _ _ (λ u e absent. cc) v)

find_name-append :
    (u : Str) (rows more : List PullRow) (r : PullRow)
    → find_name u rows ≡ some r
    → find_name u (rows ++ more) ≡ some r
find_name-append u [] more r e = cc
find_name-append u (x ∷ rows) more r e = elim (Bool-cases (str_eq x.username u)) [
  | inl y ↦ rw y (rw y at e)
  | inr n ↦ rw n (find_name-append u rows more r (rw n at e))
]

-- More rows at the end of the table leave an account what it is.
Backed-append :
    (h : Hashes) (rows more : List PullRow) (u digest : Str)
    → Backed h rows u digest
    → Backed h (rows ++ more) u digest
Backed-append h rows more u digest b = record {
  row = b.row;
  stored = find_name-append u rows more b.row b.stored;
  enabled = b.enabled;
  password = b.password;
  same = b.same;
  accepted = b.accepted;
}

insert_row-CacheBacked :
    (h : Hashes) (s : PullStore) (up : Bool) (u : Str) (en : Bool) (now : ℕ) (hash : Option Str)
    → CacheBacked h s
    → CacheBacked h (insert_row s up u en now hash).0
insert_row-CacheBacked h s up u en now none v = v
insert_row-CacheBacked h s up u en now (some hash) v = branch h (not up) _ _ v (
    branch h (is_taken (find_name u s.rows)) _ _ v
      (λ u' e c. Backed-append h s.rows _ u' e.pass_sha (v u' e c)))

create-CacheBacked :
    (h : Hashes) (s : PullStore) (up : Bool) (salt now : ℕ) (username password : Str) (en : Bool)
    → CacheBacked h s
    → CacheBacked h (create_pull_user h s up salt now username password en).0
unfolding create_pull_user
create-CacheBacked h s up salt now username password en v =
    branch h (is_empty (trim_space username)) _ _ v
      (branch h (is_weak password) _ _ v (insert_row-CacheBacked h s up _ en now _ v))

created-CacheBacked :
    (h : Hashes) (x : PullStore × Result PullRow) → CacheBacked h x.0 → CacheBacked h (created x).0
created-CacheBacked h (s, ok row) v = v
created-CacheBacked h (s, err e) v = v

set_hash-CacheBacked :
    (h : Hashes) (s : PullStore) (up : Bool) (now i : ℕ) (hash : Option Str)
    → CacheBacked h s
    → CacheBacked h (set_hash s up now i hash).0
set_hash-CacheBacked h s up now i none v = v
set_hash-CacheBacked h s up now i (some hash) v = affect-CacheBacked h s up i _ v

digest : Hashes → Str → Option CacheEntry → Str
digest h password none = h.sha password
digest h password (some e) = e.pass_sha

-- An entry for an account that the table has just accepted.
put-CacheBacked :
    (h : Hashes) (s : PullStore) (now : ℕ) (u password : Str)
    → Backed h s.rows u (h.sha password)
    → CacheBacked h s
    → CacheBacked h (pull_auth_cache_put h s now u password)
unfolding pull_auth_cache_put digest
put-CacheBacked h s now u password b v u' e c = elim (Bool-cases (str_eq u u')) [
  | inl y ↦
      subst (λ n. Backed h s.rows n e.pass_sha) ((str_eq_iff u u').0 y)
        (subst (Backed h s.rows u) (ap (digest h password) (rw y at c)) b)
  | inr n ↦ v u' e (rw n at c)
]

row-Backed :
    (h : Hashes) (s : PullStore) (u password : Str) (r : PullRow)
    → find_name u s.rows ≡ some r
    → r.enabled ≡ true
    → h.compare r.password_hash password ≡ true
    → Backed h s.rows u (h.sha password)
row-Backed h s u password r f y z = record {
  row = r;
  stored = f;
  enabled = y;
  password = password;
  same = refl;
  accepted = z;
}

check_row-CacheBacked :
    (h : Hashes) (s : PullStore) (now : ℕ) (u password : Str) (o : Option PullRow)
    → find_name u s.rows ≡ o
    → CacheBacked h s
    → CacheBacked h (check_row h s now u password o).0
unfolding check_row
check_row-CacheBacked h s now u password none f v = v
check_row-CacheBacked h s now u password (some r) f v = elim (Bool-cases r.enabled) [
  | inl y ↦ elim (Bool-cases (h.compare r.password_hash password)) [
    | inl z ↦ rw (y, z) (put-CacheBacked h s now u password (row-Backed h s u password r f y z) v)
    | inr n ↦ rw (y, n) v
  ]
  | inr n ↦ rw n v
]

-- What an accepted answer of `check_row` says of the row.
check_row-ok :
    (h : Hashes) (s : PullStore) (now : ℕ) (u password name : Str) (o : Option PullRow)
    → find_name u s.rows ≡ o
    → (check_row h s now u password o).1 ≡ ok name
    → (u ≡ name) × Backed h s.rows u (h.sha password)
unfolding check_row
check_row-ok h s now u password name none f e = cc
check_row-ok h s now u password name (some r) f e = elim (Bool-cases r.enabled) [
  | inl y ↦ elim (Bool-cases (h.compare r.password_hash password)) [
    | inl z ↦ let k : ok u ≡ ok name = rw (y, z) at e in (cc, row-Backed h s u password r f y z)
    | inr n ↦ let k : err auth_invalid ≡ ok name = rw (y, n) at e in cc
  ]
  | inr n ↦ let k : err auth_invalid ≡ ok name = rw n at e in cc
]

hit-Backed :
    (h : Hashes) (s : PullStore) (now : ℕ) (u password : Str) (o : Option CacheEntry)
    → s.cache u ≡ o
    → hit h now password o ≡ true
    → CacheBacked h s
    → Backed h s.rows u (h.sha password)
hit-Backed h s now u password none c e v = cc
hit-Backed h s now u password (some entry) c e v =
    subst (Backed h s.rows u) ((str_eq_iff entry.pass_sha (h.sha password)).0 (ground (arith, e)))
      (v u entry c)

apply-CacheBacked :
    (h : Hashes) (s : PullStore) (op : Op) → CacheBacked h s → CacheBacked h (apply h s op)
unfolding bootstrap_pull_user authenticate_pull set_pull_user_password set_pull_user_enabled
    delete_pull_user
apply-CacheBacked h s (create_op up salt now u p en) v = create-CacheBacked h s up salt now u p en v
apply-CacheBacked h s (bootstrap_op counts up salt now u p) v = branch h (not counts) _ _ v (
    branch h (ltb 0 (length s.rows)) _ _ v (
      branch h (is_weak p) _ _ v
        (created-CacheBacked h _ (create-CacheBacked h s up salt now _ p true v))))
apply-CacheBacked h s (authenticate_op up now put_now u p) v =
    branch h _ _ _ v
      (branch h (not up) _ _ v (check_row-CacheBacked h s put_now (trim_space u) p _ refl v))
apply-CacheBacked h s (password_op up salt now i p) v =
    branch h (is_weak p) _ _ v (set_hash-CacheBacked h s up now i (h.generate salt p) v)
apply-CacheBacked h s (enabled_op up now i en) v = affect-CacheBacked h s up i _ v
apply-CacheBacked h s (delete_op up i) v = affect-CacheBacked h s up i _ v

apply_all-CacheBacked :
    (h : Hashes) (s : PullStore) (ops : List Op)
    → CacheBacked h s
    → CacheBacked h (apply_all h s ops)
apply_all-CacheBacked h s [] v = v
apply_all-CacheBacked h s (op ∷ ops) v =
    apply_all-CacheBacked h (apply h s op) ops (apply-CacheBacked h s op v)

-- The store as it is opened on a table: its cache is empty.
abbrev pub opened : List PullRow → ℕ → PullStore
opened rows next_id = record { rows = rows; next_id = next_id; cache = empty }

-- On a store that is opened and then used by any calls, one after the other: if a login is
-- accepted, by the cache or by the table, then the table holds an enabled account of the trimmed
-- name, and its present hash takes a password with the digest of the given one.
pub authenticate_pull-Backed :
    (h : Hashes) (rows : List PullRow) (next_id : ℕ) (ops : List Op) (up : Bool) (now put_now : ℕ)
    (username password name : Str)
    → (authenticate_pull h
        (apply_all h (opened rows next_id) ops)
        up
        now
        put_now
        username
        password).1
      ≡ ok name
    → (trim_space username ≡ name)
      × Backed h (apply_all h (opened rows next_id) ops).rows (trim_space username) (h.sha password)
unfolding authenticate_pull pull_auth_cache_get
authenticate_pull-Backed h rows next_id ops up now put_now username password name e =
    let s = apply_all h (opened rows next_id) ops in
    let u = trim_space username in
    let v : CacheBacked h s =
      apply_all-CacheBacked h (opened rows next_id) ops (λ u e absent. cc) in
    elim (Bool-cases (not (is_empty u) && hit h now password (s.cache u))) [
      | inl y ↦
          let k : ok u ≡ ok name = rw y at e in
          (cc, hit-Backed h s now u password (s.cache u) refl (ground (arith, y)) v)
      | inr n ↦ table up (rw n at e)
    ]
  where
    table :
        (up : Bool)
        → (if not up
            then (apply_all h (opened rows next_id) ops, err database_failed)
            else check_row h
                (apply_all h (opened rows next_id) ops)
                put_now
                (trim_space username)
                password
                (find_name (trim_space username) (apply_all h (opened rows next_id) ops).rows)).1
          ≡ ok name
        → (trim_space username ≡ name)
          × Backed h
              (apply_all h (opened rows next_id) ops).rows
              (trim_space username)
              (h.sha password)
    table false k = cc
    table true k =
        check_row-ok h (apply_all h (opened rows next_id) ops) put_now (trim_space username)
          password name _ refl k
