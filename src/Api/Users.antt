-- ===== src/Api/Users.antt =====
-- internal/statsapi/api.go: `handleUsers` and `handleUserByID`.
use easy_docker_proxy.Base.{
  ℕ, Bool, true, false, not, ◌&&◌, List, [], ◌∷◌, Option, none, some, ◌==◌, if◌then◌else◌, Str,
  codes, is_empty, str_eq,
}
use easy_docker_proxy.Base.Int.{ℤ}
use easy_docker_proxy.Store
use easy_docker_proxy.Store.{Hashes, Result, ok, err}
use easy_docker_proxy.Store.Users.{
  User, is_admin, list_users, create_user, set_password, delete_user,
}
use easy_docker_proxy.Http.{
  is_method, trim_prefix, parse_int, status_created, status_bad_request, status_unauthorized,
  status_forbidden, status_not_found, status_conflict,
}
use easy_docker_proxy.Api.{
  Api, Fields, Call, Reply, write_err, write_ok, internal_error, not_allowed, error_text,
  is_admin_user, row_id, path_parts, user_body, users_body, success_body,
}

abbrev pub list_reply : Result (List User) → Reply
list_reply (ok users) = write_ok (users_body users)
list_reply (err e) = internal_error

abbrev pub create_reply : Result User → Reply
create_reply (ok user) = record { status = status_created; body = user_body user }
create_reply (err Store.Error.user_exists) =
    write_err status_conflict (error_text Store.Error.user_exists)
create_reply (err Store.Error.weak_password) =
    write_err status_bad_request (error_text Store.Error.weak_password)
create_reply (err Store.Error.username_required) =
    write_err status_bad_request (error_text Store.Error.username_required)
create_reply (err e) = internal_error

abbrev pub post_user : Hashes → Api → Call → Option Fields → Api × Reply
post_user h a c none = (a, write_err status_bad_request (codes "invalid json"))
post_user h a c (some f) =
    let r = create_user h a.users c.up c.salt c.seconds f.username f.password f.role in
    (record a { users = r.0 }, create_reply r.1)

unfoldable pub handle_users : Hashes → Api → Option User → Call → Api × Reply
handle_users h a user c =
    if not (is_admin_user user)
    then (a, write_err status_forbidden (codes "admin only"))
    else if is_method c.request (codes "GET")
    then (a, list_reply (list_users a.users c.up))
    else if is_method c.request (codes "POST")
    then post_user h a c c.body
    else (a, not_allowed)

abbrev pub password_reply : Result Unit → Reply
password_reply (ok _) = write_ok success_body
password_reply (err Store.Error.weak_password) =
    write_err status_bad_request (error_text Store.Error.weak_password)
password_reply (err Store.Error.user_not_found) =
    write_err status_bad_request (error_text Store.Error.user_not_found)
password_reply (err e) = internal_error

abbrev pub put_password : Hashes → Api → Call → ℕ → Option Fields → Api × Reply
put_password h a c id none = (a, write_err status_bad_request (codes "invalid json"))
put_password h a c id (some f) =
    let r = set_password h a.users c.up c.second_up c.salt c.seconds id f.password in
    (record a { users = r.0 }, password_reply r.1)

abbrev pub delete_reply : Result Unit → Reply
delete_reply (ok _) = write_ok success_body
delete_reply (err Store.Error.last_admin) =
    write_err status_conflict (error_text Store.Error.last_admin)
delete_reply (err Store.Error.user_not_found) =
    write_err status_bad_request (error_text Store.Error.user_not_found)
delete_reply (err e) = internal_error

-- What follows the id in the path.
abbrev pub is_password_path : List Str → Bool
is_password_path (p ∷ []) = str_eq p (codes "password")
is_password_path _ = false

abbrev pub is_end : List Str → Bool
is_end [] = true
is_end (_ ∷ _) = false

abbrev pub change_user : Hashes → Api → User → Call → ℕ → List Str → Api × Reply
change_user h a u c id rest =
    if is_password_path rest && is_method c.request (codes "PUT")
    then (if not (is_admin u.role) && not (u.id == id)
        then (a, write_err status_forbidden (codes "forbidden"))
        else put_password h a c id c.body)
    else if is_end rest && is_method c.request (codes "DELETE")
    then (if not (is_admin u.role)
        then (a, write_err status_forbidden (codes "admin only"))
        else let r = delete_user a.users c.up id in (record a { users = r.0 }, delete_reply r.1))
    else (a, write_err status_not_found (codes "not found"))

abbrev pub with_id : Hashes → Api → User → Call → Option ℤ → List Str → Api × Reply
with_id h a u c none rest = (a, write_err status_bad_request (codes "invalid id"))
with_id h a u c (some id) rest = change_user h a u c (row_id id) rest

abbrev pub on_parts : Hashes → Api → User → Call → List Str → Api × Reply
on_parts h a u c [] = (a, write_err status_not_found (codes "not found"))
on_parts h a u c (p ∷ rest) =
    if is_empty p
    then (a, write_err status_not_found (codes "not found"))
    else with_id h a u c (parse_int p) rest

abbrev pub user_by_id : Hashes → Api → Option User → Call → List Str → Api × Reply
user_by_id h a none c parts = (a, write_err status_unauthorized (codes "unauthorized"))
user_by_id h a (some u) c parts = on_parts h a u c parts

unfoldable pub handle_user_by_id : Hashes → Api → Option User → Call → Api × Reply
handle_user_by_id h a user c =
    user_by_id h a user c (path_parts (trim_prefix c.request.path (codes "/api/v1/users/")))
