-- ===== src/Admin/Tests.antt =====
-- A console with an administrator and a viewer, who is logged in.
use easy_docker_proxy.Base.{
  ◌≡◌, inl, List, if◌then◌else◌, arith, refl, true, false, [], ◌∷◌, none, some, Str, codes, str_eq,
  empty, trim_space, trim_slashes, ◌++◌,
}
use easy_docker_proxy.Store.{Hashes}
use easy_docker_proxy.Store.Users.{
  UserRow, admin, viewer, view, session_user, set_password, session_user,
}
use easy_docker_proxy.Config.Validate.Tests.{config, env}
use easy_docker_proxy.Config.Copy.{admin_token}
use easy_docker_proxy.Record.Event.{manifest}
use easy_docker_proxy.Store.Sql.{limited}
use easy_docker_proxy.Store.Stats.Series.{parse_range}
use easy_docker_proxy.Store.Stats.Queries.{RepoRank}
use easy_docker_proxy.Store.Stats.Top.{AreTopRepos}
use easy_docker_proxy.Store.Stats.Agree.{Op, batch_op, apply_all, sums-Agree, no_tables}
use easy_docker_proxy.Admin.Served.{repos_answer, serve-AreTopRepos}
use easy_docker_proxy.Http.{parse_int, atoi_or_zero, is_clean, status_unauthorized}
use easy_docker_proxy.Api.{Call, success_body, write_ok}
use easy_docker_proxy.Api.Users.{handle_user_by_id}
use easy_docker_proxy.Admin.{
  Console, json, plain, serve, dispatch, handle, route, is_machine_path, authenticate_request,
  bearer_or_header,
}
use easy_docker_proxy.Admin.Access.{Same, serve-Same}
use easy_docker_proxy.Admin.Viewer.{Confined, serve-Confined}

abbrev clear : Hashes
clear = record {
  generate = λ salt pw. some pw;
  compare = λ hash pw. str_eq hash pw;
  sha = λ pw. pw;
}

abbrev root : UserRow
root = record {
  id = 1;
  username = codes "root";
  password_hash = codes "hunter22";
  role = admin;
  created_at = 1;
  updated_at = 1;
}

abbrev eve : UserRow
eve = record root { id = 2; username = codes "eve"; role = viewer }

abbrev desk : Console
desk = record {
  api = record {
    users = record {
      users = root ∷ eve ∷ [];
      next_id = 3;
      sessions =
          record { token = codes "t2"; user_id = 2; expires_at = 50000000; created_at = 1 } ∷ [];
    };
    pulls = record { rows = []; next_id = 1; cache = empty };
    login_lim = record { enabled = false; rps = 1; burst = 1; buckets = empty; last_cleanup = 0 };
  };
  tables = no_tables;
  config = config [] [];
  metrics_on = false;
}

-- A change of the password of the account `id`.
abbrev put : Str → Str → Call
put token id = record {
  request = record {
    method = codes "PUT";
    path = codes "/api/v1/users/" ++ id ++ codes "/password";
    raw_query = [];
    host = codes "console";
    remote_addr = codes "192.0.2.1:5000";
    header = (codes "Authorization", codes "Bearer " ++ token) ∷ [];
  };
  query = λ name. [];
  body =
      some (record { username = []; password = codes "new password"; role = []; enabled = none });
  seconds = 100;
  nanos = 100;
  salt = 3;
  token = codes "t3";
  up = true;
  second_up = true;
}

changes :
    ((serve clear env desk (put (codes "t2") (codes "2")) none).1 ≡ json (write_ok success_body))
    × ((serve clear env desk (put (codes "t1") (codes "2")) none).1 ≡ plain status_unauthorized)
unfolding serve dispatch handle route is_machine_path authenticate_request bearer_or_header
    session_user trim_space handle_user_by_id set_password is_clean trim_slashes parse_int
    admin_token
changes = (refl, refl)

serve-Same_example : Same desk (serve clear env desk (put (codes "t1") (codes "2")) none).0
unfolding bearer_or_header trim_space admin_token
serve-Same_example =
    serve-Same clear env desk (put (codes "t1") (codes "2")) none (inl (λ e. cc), _) (inl refl)

serve-Confined_example :
    Confined 2 desk (serve clear env desk (put (codes "t2") (codes "1")) none).0
unfolding authenticate_request bearer_or_header session_user trim_space admin_token
serve-Confined_example =
    serve-Confined clear env desk (put (codes "t2") (codes "1")) none (view eve) refl refl

abbrev pulls : List Op
pulls =
    batch_op true 40000050 (
      record {
        ts = 40000000;
        client_ip = codes "10.0.0.1";
        registry = codes "hub";
        host = codes "proxy.local";
        event_type = manifest;
        repository = codes "library/redis";
        reference = codes "7";
        method = codes "GET";
        status = 200;
        bytes = 100;
        duration_ms = 3;
        user_agent = [];
        error = [];
        pull_user = [];
      }
      ∷ [])
    ∷ []

abbrev busy : Console
busy = record desk { tables = apply_all 7 30 no_tables pulls }

-- The viewer asks for the list of one repository of the last two days.
abbrev ask : Call
ask = record (put (codes "t2") []) {
  request = record {
    method = codes "GET";
    path = codes "/api/v1/top/repos";
    raw_query = codes "range=2d&limit=1";
    host = codes "console";
    remote_addr = codes "192.0.2.1:5000";
    header = (codes "Authorization", codes "Bearer t2") ∷ [];
  };
  query = λ name.
      if str_eq name (codes "range")
      then codes "2d"
      else if str_eq name (codes "limit")
      then codes "1"
      else [];
  seconds = 40000100;
}

serve-AreTopRepos_example :
    (out : List RepoRank) × (serve clear env busy ask none ≡ (busy, repos_answer ask out))
    × AreTopRepos (record { from_day = 461; to_day = 462; days = 2 }) [] 1 busy.tables.events out
unfolding session_user bearer_or_header authenticate_request trim_space parse_range parse_int
    atoi_or_zero limited
serve-AreTopRepos_example =
    serve-AreTopRepos clear env busy ask none (view eve) 10
      (record { from_day = 461; to_day = 462; days = 2 }) refl refl refl refl
      (sums-Agree 7 30 10 pulls (_, _)) refl (omega arith)
