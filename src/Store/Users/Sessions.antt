-- ===== src/Store/Users/Sessions.antt =====
-- Which sessions are left when an account changes.
use easy_docker_proxy.Base.{
  ℕ, ◌≡◌, ◌≢◌, refl, sym, ap, ◌∙◌, subst, Bool, true, false, not, ◌&&◌, List, [], ◌∷◌, Option, none,
  some, ltb, ◌==◌, ==_iff, Str, Bool-cases, inl, inr, arith, is_empty, trim_space, str_eq,
}
use easy_docker_proxy.Store.{
  Hashes, Result, ok, err, is_weak, weak_password, user_not_found, session_invalid, last_admin,
  database_failed,
}
use easy_docker_proxy.Store.Users.{
  UserRow, Session, User, UserStore, view, is_admin, find_id, is_found, count_admins, keep_sessions,
  not_of, change_hash, delete_row, delete_user, joined, live, session_user, set_password,
}

abbrev done : Result Unit
done = ok _

live-keep_sessions :
    (i : ℕ) (key : Str) (now : ℕ) (xs : List Session) (x : Session)
    → live key now (keep_sessions (not_of i) xs) ≡ some x
    → not_of i x ≡ true
live-keep_sessions i key now [] x e = cc
live-keep_sessions i key now (y ∷ xs) x e = elim (Bool-cases (not_of i y)) [
  | inl kept ↦ elim (Bool-cases (str_eq y.token key && ltb now y.expires_at)) [
    | inl here ↦
        let k : some y ≡ some x = rw (kept, here) at e in
        let same : y ≡ x = cc in subst (λ z. not_of i z ≡ true) same kept
    | inr later ↦ live-keep_sessions i key now xs x (rw (kept, later) at e)
  ]
  | inr dropped ↦ live-keep_sessions i key now xs x (rw dropped at e)
]

find_id-id : (i : ℕ) (rows : List UserRow) (r : UserRow) → find_id i rows ≡ some r → r.id ≡ i
find_id-id i [] r e = cc
find_id-id i (x ∷ rows) r e = elim (Bool-cases (x.id == i)) [
  | inl y ↦
      let k : some x ≡ some r = rw y at e in
      let same : x ≡ r = cc in ap (λ (z : UserRow). z.id) (sym same) ∙ (==_iff x.id i).0 y
  | inr n ↦ find_id-id i rows r (rw n at e)
]

joined-id :
    (users : List UserRow) (o : Option Session) (u : User)
    → joined users o ≡ ok u
    → (x : Session) × (o ≡ some x) × (u.id ≡ x.user_id)
joined-id users none u e = cc
joined-id users (some x) u e = at (find_id x.user_id users) refl
  where
    at :
        (o : Option UserRow)
        → find_id x.user_id users ≡ o
        → (y : Session) × (some x ≡ some y) × (u.id ≡ y.user_id)
    at none f = let k : err session_invalid ≡ ok u = rw f at e in cc
    at (some r) f =
        let k : ok (view r) ≡ ok u = rw f at e in
        let same : view r ≡ u = cc in
        (x, refl, ap (λ (z : User). z.id) (sym same) ∙ find_id-id x.user_id users r f)

-- With the sessions of an account deleted, no token stands for it.
no_session :
    (h : Hashes) (s : UserStore) (xs : List Session) (i : ℕ) (up : Bool) (now : ℕ) (token : Str)
    (u : User)
    → s.sessions ≡ keep_sessions (not_of i) xs
    → session_user h s up now token ≡ ok u
    → u.id ≢ i
unfolding session_user
no_session h s xs i up now token u kept e is_i = elim (Bool-cases (is_empty (trim_space token))) [
  | inl y ↦ let k : err session_invalid ≡ ok u = rw y at e in cc
  | inr n ↦ elim (Bool-cases (not up)) [
    | inl y ↦ let k : err database_failed ≡ ok u = rw (n, y) at e in cc
    | inr m ↦
        let key = h.sha (trim_space token) in
        let (x, l, same) = joined-id s.users (live key now s.sessions) u (rw (n, m) at e) in
        let open_session = live-keep_sessions i key now xs x (ap (live key now) (sym kept) ∙ l) in
        absurd (ground (arith, open_session, same, is_i))
  ]
]

change_hash-sessions :
    (s : UserStore) (up : Bool) (now i : ℕ) (hash : Option Str)
    → (change_hash s up true now i hash).1 ≡ ok _
    → (change_hash s up true now i hash).0.sessions ≡ keep_sessions (not_of i) s.sessions
change_hash-sessions s up now i none e = cc
change_hash-sessions s false now i (some hash) e = cc
change_hash-sessions s true now i (some hash) e = elim (Bool-cases (is_found (find_id i s.users))) [
  | inl y ↦ rw y refl
  | inr n ↦ let k : err user_not_found ≡ done = rw n at e in cc
]

set_password-sessions :
    (h : Hashes) (s : UserStore) (up : Bool) (salt now i : ℕ) (password : Str)
    → (set_password h s up true salt now i password).1 ≡ ok _
    → (set_password h s up true salt now i password).0.sessions
      ≡ keep_sessions (not_of i) s.sessions
unfolding set_password
set_password-sessions h s up salt now i password e = elim (Bool-cases (is_weak password)) [
  | inl y ↦ let k : err weak_password ≡ done = rw y at e in cc
  | inr n ↦ rw n (change_hash-sessions s up now i (h.generate salt password) (rw n at e))
]

-- Once a password has been changed, and the deletion of sessions was carried out, no session token
-- stands for that account.
pub set_password-session_user :
    (h : Hashes) (s : UserStore) (up : Bool) (salt now i : ℕ) (password : Str) (reads : Bool)
    (later : ℕ) (token : Str) (u : User)
    → (set_password h s up true salt now i password).1 ≡ ok _
    → session_user h (set_password h s up true salt now i password).0 reads later token ≡ ok u
    → u.id ≢ i
set_password-session_user h s up salt now i password reads later token u e =
    no_session h (set_password h s up true salt now i password).0 s.sessions i reads later token u
      (set_password-sessions h s up salt now i password e)

delete_row-sessions :
    (s : UserStore) (i : ℕ) (o : Option UserRow)
    → (delete_row s i o).1 ≡ ok _
    → (delete_row s i o).0.sessions ≡ keep_sessions (not_of i) s.sessions
delete_row-sessions s i none e = cc
delete_row-sessions s i (some r) e =
    elim (Bool-cases (is_admin r.role && not (ltb 1 (count_admins s.users)))) [
      | inl y ↦ let k : err last_admin ≡ done = rw y at e in cc
      | inr n ↦ rw n refl
    ]

delete_user-sessions :
    (s : UserStore) (up : Bool) (i : ℕ)
    → (delete_user s up i).1 ≡ ok _
    → (delete_user s up i).0.sessions ≡ keep_sessions (not_of i) s.sessions
unfolding delete_user
delete_user-sessions s false i e = cc
delete_user-sessions s true i e = delete_row-sessions s i (find_id i s.users) e

-- Once an account has been deleted, no session token stands for it.
pub delete_user-session_user :
    (h : Hashes) (s : UserStore) (up : Bool) (i : ℕ) (reads : Bool) (later : ℕ) (token : Str)
    (u : User)
    → (delete_user s up i).1 ≡ ok _
    → session_user h (delete_user s up i).0 reads later token ≡ ok u
    → u.id ≢ i
delete_user-session_user h s up i reads later token u e =
    no_session h (delete_user s up i).0 s.sessions i reads later token u
      (delete_user-sessions s up i e)
