-- ===== src/Api/PullUsers.antt =====
-- internal/statsapi/api.go: `handlePullUsers` and `handlePullUserByID`.
use easy_docker_proxy.Base.{
  ℕ, Bool, false, not, ◌&&◌, List, [], ◌∷◌, Option, none, some, if◌then◌else◌, Str, codes, is_empty,
  str_eq,
}
use easy_docker_proxy.Base.Int.{ℤ}
use easy_docker_proxy.Config.{is_enabled}
use easy_docker_proxy.Store
use easy_docker_proxy.Store.{Hashes, Result, ok, err}
use easy_docker_proxy.Store.Users.{User}
use easy_docker_proxy.Store.PullUsers.{
  PullRow, PullUser, view, list_pull_users, create_pull_user, set_pull_user_password,
  set_pull_user_enabled, delete_pull_user,
}
use easy_docker_proxy.Http.{
  is_method, trim_prefix, parse_int, status_created, status_bad_request, status_forbidden,
  status_not_found, status_conflict,
}
use easy_docker_proxy.Api.{
  Api, Fields, Call, Reply, write_err, write_ok, internal_error, not_allowed, error_text,
  is_admin_user, row_id, path_parts, pull_user_body, pull_users_body, success_body,
}
use easy_docker_proxy.Api.Users.{is_password_path, is_end}

-- The errors of a pull account have texts of their own.
abbrev pub pull_error_text : Store.Error → Str
pull_error_text Store.Error.user_exists = codes "pull username already exists"
pull_error_text Store.Error.user_not_found = codes "pull user not found"
pull_error_text e = error_text e

abbrev pub list_reply : Result (List PullUser) → Reply
list_reply (ok users) = write_ok (pull_users_body users)
list_reply (err e) = internal_error

abbrev pub create_reply : Result PullRow → Reply
create_reply (ok row) = record { status = status_created; body = pull_user_body (view row) }
create_reply (err Store.Error.user_exists) =
    write_err status_conflict (pull_error_text Store.Error.user_exists)
create_reply (err Store.Error.weak_password) =
    write_err status_bad_request (pull_error_text Store.Error.weak_password)
create_reply (err Store.Error.username_required) =
    write_err status_bad_request (pull_error_text Store.Error.username_required)
create_reply (err e) = internal_error

abbrev pub post_pull_user : Hashes → Api → Call → Option Fields → Api × Reply
post_pull_user h a c none = (a, write_err status_bad_request (codes "invalid json"))
post_pull_user h a c (some f) =
    let r =
      create_pull_user h a.pulls c.up c.salt c.seconds f.username f.password
        (is_enabled f.enabled) in
    (record a { pulls = r.0 }, create_reply r.1)

unfoldable pub handle_pull_users : Hashes → Api → Option User → Call → Api × Reply
handle_pull_users h a user c =
    if not (is_admin_user user)
    then (a, write_err status_forbidden (codes "admin only"))
    else if is_method c.request (codes "GET")
    then (a, list_reply (list_pull_users a.pulls c.up))
    else if is_method c.request (codes "POST")
    then post_pull_user h a c c.body
    else (a, not_allowed)

-- A weak password occurs for a change of password only.
abbrev pub change_reply : Result Unit → Reply
change_reply (ok _) = write_ok success_body
change_reply (err Store.Error.weak_password) =
    write_err status_bad_request (pull_error_text Store.Error.weak_password)
change_reply (err Store.Error.user_not_found) =
    write_err status_bad_request (pull_error_text Store.Error.user_not_found)
change_reply (err e) = internal_error

-- A missing `enabled` is decoded as false.
abbrev pub given : Option Bool → Bool
given none = false
given (some b) = b

abbrev pub put_pull_password : Hashes → Api → Call → ℕ → Option Fields → Api × Reply
put_pull_password h a c id none = (a, write_err status_bad_request (codes "invalid json"))
put_pull_password h a c id (some f) =
    let r = set_pull_user_password h a.pulls c.up c.salt c.seconds id f.password in
    (record a { pulls = r.0 }, change_reply r.1)

abbrev pub put_enabled : Api → Call → ℕ → Option Fields → Api × Reply
put_enabled a c id none = (a, write_err status_bad_request (codes "invalid json"))
put_enabled a c id (some f) =
    let r = set_pull_user_enabled a.pulls c.up c.seconds id (given f.enabled) in
    (record a { pulls = r.0 }, change_reply r.1)

abbrev pub is_enabled_path : List Str → Bool
is_enabled_path (p ∷ []) = str_eq p (codes "enabled")
is_enabled_path _ = false

abbrev pub change_pull_user : Hashes → Api → Call → ℕ → List Str → Api × Reply
change_pull_user h a c id rest =
    if is_password_path rest && is_method c.request (codes "PUT")
    then put_pull_password h a c id c.body
    else if is_enabled_path rest && is_method c.request (codes "PUT")
    then put_enabled a c id c.body
    else if is_end rest && is_method c.request (codes "DELETE")
    then (let r = delete_pull_user a.pulls c.up id in (record a { pulls = r.0 }, change_reply r.1))
    else (a, write_err status_not_found (codes "not found"))

abbrev pub with_pull_id : Hashes → Api → Call → Option ℤ → List Str → Api × Reply
with_pull_id h a c none rest = (a, write_err status_bad_request (codes "invalid id"))
with_pull_id h a c (some id) rest = change_pull_user h a c (row_id id) rest

abbrev pub on_pull_parts : Hashes → Api → Call → List Str → Api × Reply
on_pull_parts h a c [] = (a, write_err status_not_found (codes "not found"))
on_pull_parts h a c (p ∷ rest) =
    if is_empty p
    then (a, write_err status_not_found (codes "not found"))
    else with_pull_id h a c (parse_int p) rest

unfoldable pub handle_pull_user_by_id : Hashes → Api → Option User → Call → Api × Reply
handle_pull_user_by_id h a user c =
    if not (is_admin_user user)
    then (a, write_err status_forbidden (codes "admin only"))
    else on_pull_parts h a c (path_parts (trim_prefix c.request.path (codes "/api/v1/pull-users/")))
