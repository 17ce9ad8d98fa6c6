-- ===== src/Store/PullUsers/Login.antt =====
-- An account that has been created can log in.
use easy_docker_proxy.Base.{
  ℕ, ◌≡◌, refl, sym, ap, ◌∙◌, Bool, true, false, not, ◌&&◌, List, [], ◌∷◌, ◌++◌, Option, none, some,
  Str, is_empty, str_eq, str_eq_refl, trim_space, Bool-cases, inl, inr,
}
use easy_docker_proxy.Store.{
  Hashes, Result, ok, err, is_weak, user_exists, username_required, weak_password,
}
use easy_docker_proxy.Store.PullUsers.{
  PullRow, PullStore, find_name, is_taken, insert_row, create_pull_user, pull_auth_cache_get,
  check_row, authenticate_pull,
}

-- What package bcrypt documents: a hash takes the password that it was made from.
abbrev pub TakesOwn : Hashes → Type 0
TakesOwn h =
    (salt : ℕ) (password hash : Str)
    → h.generate salt password ≡ some hash
    → h.compare hash password ≡ true

-- What a successful creation did.
record Inserted (h : Hashes) (s : PullStore) (u password : Str) (en : Bool)
    (x : PullStore × Result PullRow) (row : PullRow) : Type 0 where
  appended : x.0.rows ≡ s.rows ++ row ∷ []
  absent : find_name u s.rows ≡ none
  named : row.username ≡ u
  switched : row.enabled ≡ en
  hashed : h.compare row.password_hash password ≡ true

not_taken : (o : Option PullRow) → is_taken o ≡ false → o ≡ none
not_taken none h = refl
not_taken (some r) h = cc

insert_row-Inserted :
    (h : Hashes) (s : PullStore) (up : Bool) (u password : Str) (en : Bool) (now salt : ℕ)
    (hash : Option Str) (row : PullRow)
    → TakesOwn h
    → h.generate salt password ≡ hash
    → (insert_row s up u en now hash).1 ≡ ok row
    → Inserted h s u password en (insert_row s up u en now hash) row
insert_row-Inserted h s up u password en now salt none row law g e = cc
insert_row-Inserted h s false u password en now salt (some hash) row law g e = cc
insert_row-Inserted h s true u password en now salt (some hash) row law g e =
    elim (Bool-cases (is_taken (find_name u s.rows))) [
      | inl y ↦ let k : err user_exists ≡ ok row = rw y at e in cc
      | inr n ↦
          let made : PullRow = record {
            id = s.next_id;
            username = u;
            password_hash = hash;
            enabled = en;
            created_at = now;
            updated_at = now;
          } in
          let k : ok made ≡ ok row = rw n at e in
          let i : made ≡ row = cc in
          rw n (record {
            appended = ap (λ (r : PullRow). s.rows ++ r ∷ []) i;
            absent = not_taken (find_name u s.rows) n;
            named = ap (λ (r : PullRow). r.username) (sym i);
            switched = ap (λ (r : PullRow). r.enabled) (sym i);
            hashed =
                ap (λ (r : PullRow). h.compare r.password_hash password) (sym i)
                ∙ law salt password hash g;
          })
    ]

find_name-last :
    (u : Str) (rows : List PullRow) (row : PullRow)
    → find_name u rows ≡ none
    → row.username ≡ u
    → find_name u (rows ++ row ∷ []) ≡ some row
find_name-last u [] row e n = rw (n, str_eq_refl u) refl
find_name-last u (x ∷ rows) row e n = elim (Bool-cases (str_eq x.username u)) [
  | inl y ↦ let k : some x ≡ none = rw y at e in cc
  | inr m ↦ rw m (find_name-last u rows row (rw m at e) n)
]

create-Inserted :
    (h : Hashes) (s : PullStore) (up : Bool) (salt now : ℕ) (username password : Str) (en : Bool)
    (row : PullRow)
    → TakesOwn h
    → (create_pull_user h s up salt now username password en).1 ≡ ok row
    → Inserted h s
        (trim_space username)
        password
        en
        (create_pull_user h s up salt now username password en)
        row
unfolding create_pull_user
create-Inserted h s up salt now username password en row law e =
    elim (Bool-cases (is_empty (trim_space username))) [
      | inl y ↦ let k : err username_required ≡ ok row = rw y at e in cc
      | inr n ↦ elim (Bool-cases (is_weak password)) [
        | inl y ↦ let k : err weak_password ≡ ok row = rw (n, y) at e in cc
        | inr m ↦
            rw (n, m)
              (insert_row-Inserted h s up (trim_space username) password en now salt
                (h.generate salt password) row law refl (rw (n, m) at e))
      ]
    ]

-- The table lets an enabled account in whose hash takes the password; so may the cache.
accepts :
    (h : Hashes) (s : PullStore) (now put_now : ℕ) (username password : Str) (row : PullRow)
    → find_name (trim_space username) s.rows ≡ some row
    → row.enabled ≡ true
    → h.compare row.password_hash password ≡ true
    → (authenticate_pull h s true now put_now username password).1 ≡ ok (trim_space username)
unfolding authenticate_pull check_row
accepts h s now put_now username password row f y z =
    let u = trim_space username in
    elim (Bool-cases (not (is_empty u) && pull_auth_cache_get h s now u password)) [
      | inl hit ↦ rw hit refl
      | inr n ↦ rw (n, f, y, z) refl
    ]

-- With a bcrypt that takes a password back: once an enabled account has been created, a login with
-- its name and password is accepted whenever the database answers.
pub create-authenticate :
    (h : Hashes) (s : PullStore) (up : Bool) (salt now later put_now : ℕ) (username password : Str)
    (row : PullRow)
    → TakesOwn h
    → (create_pull_user h s up salt now username password true).1 ≡ ok row
    → (authenticate_pull h
        (create_pull_user h s up salt now username password true).0
        true
        later
        put_now
        username
        password).1
      ≡ ok (trim_space username)
create-authenticate h s up salt now later put_now username password row law e =
    let x = create_pull_user h s up salt now username password true in
    let c = create-Inserted h s up salt now username password true row law e in
    accepts h x.0 later put_now username password row
      (ap (find_name (trim_space username)) c.appended
        ∙ find_name-last (trim_space username) s.rows row c.absent c.named)
      c.switched c.hashed
