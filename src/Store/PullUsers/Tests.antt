-- ===== src/Store/PullUsers/Tests.antt =====
-- Pull accounts over hashes that keep the password as it is.
use easy_docker_proxy.Base.{
  ◌≡◌, refl, subst, true, false, List, [], ◌∷◌, some, Str, codes, str_eq, str_eq_refl, trim_space,
}
use easy_docker_proxy.Store.{Hashes, ok, err, auth_invalid}
use easy_docker_proxy.Store.PullUsers.{
  PullRow, create_pull_user, authenticate_pull, pull_auth_cache_get, pull_auth_cache_put, check_row,
  set_pull_user_enabled,
}
use easy_docker_proxy.Store.PullUsers.Cache.{
  Op, create_op, authenticate_op, apply_all, opened, Backed, authenticate_pull-Backed,
}
use easy_docker_proxy.Store.PullUsers.Login.{TakesOwn, create-authenticate}

abbrev pub plain : Hashes
plain = record {
  generate = λ salt pw. some pw;
  compare = λ hash pw. str_eq hash pw;
  sha = λ pw. pw;
}

abbrev ops : List Op
ops =
    create_op true 1 100 (codes " ci ") (codes "hunter22") true
    ∷ authenticate_op true 200 201 (codes "ci") (codes "hunter22")
    ∷ []

logins :
    ((authenticate_pull plain
        (apply_all plain (opened [] 1) ops)
        false
        300
        301
        (codes "ci")
        (codes "hunter22")).1
      ≡ ok (codes "ci"))
    × ((authenticate_pull plain
          (set_pull_user_enabled (apply_all plain (opened [] 1) ops) true 300 1 false).0
          true
          301
          302
          (codes "ci")
          (codes "hunter22")).1
        ≡ err auth_invalid)
unfolding authenticate_pull create_pull_user pull_auth_cache_get pull_auth_cache_put check_row
    set_pull_user_enabled trim_space
logins = (refl, refl)

authenticate_pull-Backed_example :
    (trim_space (codes "ci") ≡ codes "ci")
    × Backed plain
        (apply_all plain (opened [] 1) ops).rows
        (trim_space (codes "ci"))
        (codes "hunter22")
unfolding authenticate_pull create_pull_user pull_auth_cache_get pull_auth_cache_put check_row
    trim_space
authenticate_pull-Backed_example =
    authenticate_pull-Backed plain [] 1 ops true 300 301 (codes "ci") (codes "hunter22")
      (codes "ci") refl

pub plain-TakesOwn : TakesOwn plain
plain-TakesOwn salt pw hash e =
    subst (λ (s : Str). str_eq s pw ≡ true) (same pw hash e) (str_eq_refl pw)
  where
    same : (a b : Str) → some a ≡ some b → a ≡ b
    same a b k = cc

abbrev ci_row : PullRow
ci_row = record {
  id = 1;
  username = codes "ci";
  password_hash = codes "hunter22";
  enabled = true;
  created_at = 100;
  updated_at = 100;
}

create-authenticate_example :
    (authenticate_pull plain
      (create_pull_user plain (opened [] 1) true 7 100 (codes "ci") (codes "hunter22") true).0
      true
      200
      201
      (codes "ci")
      (codes "hunter22")).1
    ≡ ok (trim_space (codes "ci"))
unfolding create_pull_user trim_space
create-authenticate_example =
    create-authenticate plain (opened [] 1) true 7 100 200 201 (codes "ci") (codes "hunter22")
      ci_row plain-TakesOwn refl
