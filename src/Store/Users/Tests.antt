-- ===== src/Store/Users/Tests.antt =====
-- Console accounts over hashes that keep the password as it is.
use easy_docker_proxy.Base.{
  ◌≡◌, ◌≢◌, ◌≤◌, refl, true, List, [], ◌∷◌, some, arith, codes, str_eq, trim_space,
}
use easy_docker_proxy.Store.{Hashes, ok, err, last_admin, session_invalid}
use easy_docker_proxy.Store.Users.{
  UserStore, User, admin, count_admins, create_user, bootstrap_admin, create_session, authenticate,
  session_user, set_password, delete_user,
}
use easy_docker_proxy.Store.Users.LastAdmin.{
  Op, bootstrap_op, create_op, authenticate_op, delete_op, purge_op, apply_all, no_users,
  admin_stays,
}
use easy_docker_proxy.Store.Users.Sessions.{set_password-session_user}

abbrev plain : Hashes
plain = record {
  generate = λ salt pw. some pw;
  compare = λ hash pw. str_eq hash pw;
  sha = λ pw. pw;
}

abbrev setup : List Op
setup =
    bootstrap_op true true 1 100 [] (codes "hunter22")
    ∷ create_op true 2 101 (codes "ann") (codes "password") (codes "admin")
    ∷ authenticate_op true true 102 (codes "t1") (codes "admin") (codes "hunter22")
    ∷ authenticate_op true true 103 (codes "t2") (codes "ann") (codes "password")
    ∷ []

abbrev console : UserStore
console = apply_all plain no_users setup

abbrev ann : User
ann = record { id = 2; username = codes "ann"; role = admin; created_at = 101; updated_at = 101 }

runs :
    (session_user plain console true 200 (codes "t2") ≡ ok ann)
    × (session_user plain console true 90000 (codes "t2") ≡ err session_invalid)
    × (session_user plain (delete_user console true 2).0 true 200 (codes "t2")
        ≡ err session_invalid)
    × ((delete_user (delete_user console true 2).0 true 1).1 ≡ err last_admin)
unfolding create_user bootstrap_admin create_session authenticate session_user delete_user
    trim_space
runs = (refl, refl, refl, refl)

admin_stays_example :
    1
    ≤ count_admins
        (apply_all plain console (delete_op true 2 ∷ delete_op true 1 ∷ purge_op true 9 ∷ [])).users
unfolding create_user bootstrap_admin create_session authenticate trim_space
admin_stays_example =
    admin_stays plain setup (delete_op true 2 ∷ delete_op true 1 ∷ purge_op true 9 ∷ [])
      (omega arith)

set_password-session_user_example : ann.id ≢ 1
unfolding create_user bootstrap_admin create_session authenticate session_user set_password
    trim_space
set_password-session_user_example =
    set_password-session_user plain console true 3 200 1 (codes "new password") true 201
      (codes "t2") ann refl refl
