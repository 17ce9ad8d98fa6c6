-- ===== src/Store/Users/LastAdmin.antt =====
-- The console never loses its last administrator.
use easy_docker_proxy.Base.{
  ℕ, suc, ◌+◌, ◌≤◌, ◌<◌, ◌≡◌, refl, ap, subst, Bool, true, false, not, ◌&&◌, List, [], ◌∷◌, ◌++◌,
  Option, none, some, if◌then◌else◌, ltb, ◌==◌, ==_iff, Str, Bool-cases, inl, inr, arith, is_empty,
  trim_space, length,
}
use easy_docker_proxy.Store.{Hashes, Result, ok, err, is_weak}
use easy_docker_proxy.Store.Users.{
  Role, admin, viewer, UserRow, User, UserStore, is_admin, find_name, find_id, is_found,
  count_admins, delete_id, set_hash_id, insert_user, change_hash, delete_row, delete_user, created,
  create_user, bootstrap_admin, create_session, check_user, authenticate, revoke_session,
  set_password, purge_expired_sessions,
}

-- One call that changes accounts or sessions.
pub data Op : Type 0 where
  create_op : (up : Bool) (salt now : ℕ) (username password role : Str) → Op
  bootstrap_op : (counts up : Bool) (salt now : ℕ) (username password : Str) → Op
  authenticate_op : (reads up : Bool) (now : ℕ) (token username password : Str) → Op
  revoke_op : (up : Bool) (token : Str) → Op
  password_op : (up revokes : Bool) (salt now id : ℕ) (password : Str) → Op
  delete_op : (up : Bool) (id : ℕ) → Op
  purge_op : (up : Bool) (now : ℕ) → Op

abbrev pub apply : Hashes → UserStore → Op → UserStore
apply h s (create_op up salt now u p role) = (create_user h s up salt now u p role).0
apply h s (bootstrap_op counts up salt now u p) = (bootstrap_admin h s counts up salt now u p).0
apply h s (authenticate_op reads up now token u p) = (authenticate h s reads up now token u p).0
apply h s (revoke_op up token) = (revoke_session h s up token).0
apply h s (password_op up revokes salt now i p) = (set_password h s up revokes salt now i p).0
apply h s (delete_op up i) = (delete_user s up i).0
apply h s (purge_op up now) = (purge_expired_sessions s up now).0

abbrev pub apply_all : Hashes → UserStore → List Op → UserStore
apply_all h s [] = s
apply_all h s (op ∷ ops) = apply_all h (apply h s op) ops

abbrev pub no_users : UserStore
no_users = record { users = []; next_id = 1; sessions = [] }

abbrev Absent : ℕ → List UserRow → Type 0
Absent i [] = Unit
Absent i (r ∷ rows) = ((r.id == i) ≡ false) × Absent i rows

-- The ids differ and are below `n`.
abbrev Ids : ℕ → List UserRow → Type 0
Ids n [] = Unit
Ids n (r ∷ rows) = (r.id < n) × Absent r.id rows × Ids n rows

-- What a call does to the table: its ids stay good, and it keeps an administrator.
record Keeps (before after : UserStore) : Type 0 where
  ids : Ids after.next_id after.users
  admins : 1 ≤ count_admins before.users → 1 ≤ count_admins after.users

abbrev admin_bit : Role → ℕ
admin_bit admin = 1
admin_bit viewer = 0

delete_id-Absent : (i : ℕ) (rows : List UserRow) → Absent i rows → delete_id i rows ≡ rows
delete_id-Absent i [] a = refl
delete_id-Absent i (r ∷ rows) a = rw a.0 (ap (◌∷◌ r) (delete_id-Absent i rows a.1))

Absent-delete_id : (i j : ℕ) (rows : List UserRow) → Absent j rows → Absent j (delete_id i rows)
Absent-delete_id i j [] a = _
Absent-delete_id i j (r ∷ rows) a = elim (Bool-cases (r.id == i)) [
  | inl y ↦ rw y (Absent-delete_id i j rows a.1)
  | inr n ↦ rw n (a.0, Absent-delete_id i j rows a.1)
]

Ids-delete_id : (n i : ℕ) (rows : List UserRow) → Ids n rows → Ids n (delete_id i rows)
Ids-delete_id n i [] v = _
Ids-delete_id n i (r ∷ rows) v = elim (Bool-cases (r.id == i)) [
  | inl y ↦ rw y (Ids-delete_id n i rows v.2)
  | inr m ↦ rw m (v.0, Absent-delete_id i r.id rows v.1, Ids-delete_id n i rows v.2)
]

count-cons : (r : Role) (n : ℕ) → (if is_admin r then suc n else n) ≡ admin_bit r + n
count-cons admin n = omega arith
count-cons viewer n = omega arith

-- Deleting the row that was found takes one administrator away, if it is one.
count_admins-delete_id :
    (n i : ℕ) (rows : List UserRow) (r : UserRow)
    → Ids n rows
    → find_id i rows ≡ some r
    → count_admins (delete_id i rows) + admin_bit r.role ≡ count_admins rows
count_admins-delete_id n i [] r v e = cc
count_admins-delete_id n i (x ∷ rows) r v e = elim (Bool-cases (x.id == i)) [
  | inl y ↦
      let k : some x ≡ some r = rw y at e in
      let same : x ≡ r = cc in
      let d : delete_id i rows ≡ rows =
        delete_id-Absent i rows (subst (λ j. Absent j rows) ((==_iff x.id i).0 y) v.1) in
      rw (y, d) (rw (← same) (omega (arith, count-cons x.role (count_admins rows))))
  | inr m ↦
      let ih = count_admins-delete_id n i rows r v.2 (rw m at e) in
      rw m (
        omega (
          arith,
          ih,
          count-cons x.role (count_admins rows),
          count-cons x.role (count_admins (delete_id i rows)),
        ))
]

Absent-append :
    (i : ℕ) (rows : List UserRow) (r : UserRow)
    → Absent i rows
    → (r.id == i) ≡ false
    → Absent i (rows ++ r ∷ [])
Absent-append i [] r a e = (e, _)
Absent-append i (x ∷ rows) r a e = (a.0, Absent-append i rows r a.1 e)

Ids-append :
    (n : ℕ) (rows : List UserRow) (r : UserRow)
    → Ids n rows
    → r.id ≡ n
    → Ids (suc n) (rows ++ r ∷ [])
Ids-append n [] r v e = (omega (arith, e), _, _)
Ids-append n (x ∷ rows) r v e = (
  omega (arith, v.0),
  Absent-append x.id rows r v.1 (ground (arith, v.0, e)),
  Ids-append n rows r v.2 e,
)

count_admins-append : (rows more : List UserRow) → count_admins rows ≤ count_admins (rows ++ more)
count_admins-append [] more = omega arith
count_admins-append (x ∷ rows) more = omega (
  arith,
  count_admins-append rows more,
  count-cons x.role (count_admins rows),
  count-cons x.role (count_admins (rows ++ more)),
)

count_admins-set_hash_id :
    (i : ℕ) (hash : Str) (now : ℕ) (rows : List UserRow)
    → count_admins (set_hash_id i hash now rows) ≡ count_admins rows
count_admins-set_hash_id i hash now [] = refl
count_admins-set_hash_id i hash now (x ∷ rows) = elim (Bool-cases (x.id == i)) [
  | inl y ↦ rw (y, count_admins-set_hash_id i hash now rows) refl
  | inr n ↦ rw (n, count_admins-set_hash_id i hash now rows) refl
]

Absent-set_hash_id :
    (i j : ℕ) (hash : Str) (now : ℕ) (rows : List UserRow)
    → Absent j rows
    → Absent j (set_hash_id i hash now rows)
Absent-set_hash_id i j hash now [] a = _
Absent-set_hash_id i j hash now (x ∷ rows) a = elim (Bool-cases (x.id == i)) [
  | inl y ↦ rw y (a.0, Absent-set_hash_id i j hash now rows a.1)
  | inr n ↦ rw n (a.0, Absent-set_hash_id i j hash now rows a.1)
]

Ids-set_hash_id :
    (n i : ℕ) (hash : Str) (now : ℕ) (rows : List UserRow)
    → Ids n rows
    → Ids n (set_hash_id i hash now rows)
Ids-set_hash_id n i hash now [] v = _
Ids-set_hash_id n i hash now (x ∷ rows) v = elim (Bool-cases (x.id == i)) [
  | inl y ↦
      rw y (v.0, Absent-set_hash_id i x.id hash now rows v.1, Ids-set_hash_id n i hash now rows v.2)
  | inr m ↦
      rw m (v.0, Absent-set_hash_id i x.id hash now rows v.1, Ids-set_hash_id n i hash now rows v.2)
]

-- The two records that a call may leave behind.
stays : (s : UserStore) → Ids s.next_id s.users → Keeps s s
stays s v = record { ids = v; admins = λ a. a }

branch :
    {A : Type 0} (s : UserStore) (b : Bool) (x y : UserStore × Result A)
    → Keeps s x.0
    → Keeps s y.0
    → Keeps s (if b then x else y).0
branch s true x y v w = v
branch s false x y v w = w

insert_user-Keeps :
    (s : UserStore) (up : Bool) (u : Str) (role : Role) (now : ℕ) (hash : Option Str)
    → Ids s.next_id s.users
    → Keeps s (insert_user s up u role now hash).0
insert_user-Keeps s up u role now none v = stays s v
insert_user-Keeps s up u role now (some hash) v = branch s (not up) _ _ (stays s v) (
    branch s (is_found (find_name u s.users)) _ _ (stays s v) (record {
      ids = Ids-append s.next_id s.users _ v refl;
      admins = λ a. omega (arith, a, count_admins-append s.users _);
    }))

create-Keeps :
    (h : Hashes) (s : UserStore) (up : Bool) (salt now : ℕ) (username password role : Str)
    → Ids s.next_id s.users
    → Keeps s (create_user h s up salt now username password role).0
unfolding create_user
create-Keeps h s up salt now username password role v =
    branch s (is_empty (trim_space username)) _ _ (stays s v)
      (branch s (is_weak password) _ _ (stays s v) (insert_user-Keeps s up _ _ now _ v))

created-Keeps : (s : UserStore) (x : UserStore × Result User) → Keeps s x.0 → Keeps s (created x).0
created-Keeps s (t, ok user) v = v
created-Keeps s (t, err e) v = v

change_hash-Keeps :
    (s : UserStore) (up revokes : Bool) (now i : ℕ) (hash : Option Str)
    → Ids s.next_id s.users
    → Keeps s (change_hash s up revokes now i hash).0
change_hash-Keeps s up revokes now i none v = stays s v
change_hash-Keeps s up revokes now i (some hash) v = branch s (not up) _ _ (stays s v) (
    branch s (not (is_found (find_id i s.users))) _ _ (stays s v) (record {
      ids = Ids-set_hash_id s.next_id i hash now s.users v;
      admins = λ a. omega (arith, a, count_admins-set_hash_id i hash now s.users);
    }))

-- Whether the row is an administrator's or not, one is left.
one_left :
    (role : Role) (before after : ℕ)
    → after + admin_bit role ≡ before
    → is_admin role && not (ltb 1 before) ≡ false
    → 1 ≤ before
    → 1 ≤ after
one_left admin before after e t a = ground arith
one_left viewer before after e t a = omega arith

delete_row-Keeps :
    (s : UserStore) (i : ℕ) (o : Option UserRow)
    → find_id i s.users ≡ o
    → Ids s.next_id s.users
    → Keeps s (delete_row s i o).0
delete_row-Keeps s i none f v = stays s v
delete_row-Keeps s i (some r) f v =
    elim (Bool-cases (is_admin r.role && not (ltb 1 (count_admins s.users)))) [
      | inl y ↦ rw y (stays s v)
      | inr n ↦ rw n (record {
        ids = Ids-delete_id s.next_id i s.users v;
        admins =
            one_left r.role (count_admins s.users) (count_admins (delete_id i s.users))
              (count_admins-delete_id s.next_id i s.users r v f) n;
      })
    ]

check_user-Keeps :
    (h : Hashes) (s : UserStore) (up : Bool) (now : ℕ) (token password : Str) (o : Option UserRow)
    → Ids s.next_id s.users
    → Keeps s (check_user h s up now token password o).0
unfolding create_session
check_user-Keeps h s up now token password none v = stays s v
check_user-Keeps h s up now token password (some r) v =
    branch s (not (h.compare r.password_hash password)) _ _ (stays s v)
      (branch s _ _ _ (stays s v) (record { ids = v; admins = λ a. a }))

apply-Keeps :
    (h : Hashes) (s : UserStore) (op : Op) → Ids s.next_id s.users → Keeps s (apply h s op)
unfolding bootstrap_admin authenticate revoke_session set_password delete_user
    purge_expired_sessions
apply-Keeps h s (create_op up salt now u p role) v = create-Keeps h s up salt now u p role v
apply-Keeps h s (bootstrap_op counts up salt now u p) v = branch s (not counts) _ _ (stays s v) (
    branch s (ltb 0 (length s.users)) _ _ (stays s v) (
      branch s (is_weak p) _ _ (stays s v)
        (created-Keeps s _ (create-Keeps h s up salt now _ p _ v))))
apply-Keeps h s (authenticate_op reads up now token u p) v =
    branch s (not reads) _ _ (stays s v) (check_user-Keeps h s up now token p _ v)
apply-Keeps h s (revoke_op up token) v =
    branch s (not up) _ _ (stays s v) (record { ids = v; admins = λ a. a })
apply-Keeps h s (password_op up revokes salt now i p) v =
    branch s (is_weak p) _ _ (stays s v)
      (change_hash-Keeps s up revokes now i (h.generate salt p) v)
apply-Keeps h s (delete_op up i) v =
    branch s (not up) _ _ (stays s v) (delete_row-Keeps s i (find_id i s.users) refl v)
apply-Keeps h s (purge_op up now) v =
    branch s (not up) _ _ (stays s v) (record { ids = v; admins = λ a. a })

apply_all-Keeps :
    (h : Hashes) (s : UserStore) (ops : List Op)
    → Ids s.next_id s.users
    → Keeps s (apply_all h s ops)
apply_all-Keeps h s [] v = stays s v
apply_all-Keeps h s (op ∷ ops) v =
    let one = apply-Keeps h s op v in
    let rest = apply_all-Keeps h (apply h s op) ops one.ids in
    record { ids = rest.ids; admins = λ a. rest.admins (one.admins a) }

-- Once calls on a new database have led to an administrator, no further calls, in any order and
-- with any database failures, leave the console without one.
pub admin_stays :
    (h : Hashes) (before after : List Op)
    → 1 ≤ count_admins (apply_all h no_users before).users
    → 1 ≤ count_admins (apply_all h (apply_all h no_users before) after).users
admin_stays h before after =
    let v = (apply_all-Keeps h no_users before _).ids in
    (apply_all-Keeps h (apply_all h no_users before) after v).admins
