-- ===== src/Store.antt =====
-- internal/store: what the database holds, as lists of rows; PullUsers are the accounts of the
-- data plane, Users those of the web console with their sessions. Both use what stands here: the
-- errors, and the hashes, which are parameters (package bcrypt, and SHA-256 in hexadecimal). Stats
-- and Images are the events with what is counted of them, Sql what their queries share, and Open
-- is how a database is opened.
pub mod Images
pub mod Open
pub mod PullUsers
pub mod Sql
pub mod Stats
pub mod Users
use easy_docker_proxy.Base.{ℕ, Bool, Option, length, ltb, Str}

-- `GenerateFromPassword` with its salt, `CompareHashAndPassword`, and the digest of a text.
pub record Hashes : Type 0 where
  pub generate : ℕ → Str → Option Str
  pub compare : Str → Str → Bool
  pub sha : Str → Str

pub data Error : Type 0 where
  username_required weak_password user_exists user_not_found auth_invalid : Error
  session_invalid last_admin hash_failed database_failed : Error

pub data Result (A : Type 0) : Type 0 where
  ok : A → Result A
  err : Error → Result A

-- `validatePassword`
abbrev pub is_weak : Str → Bool
is_weak pw = ltb (length pw) 8
