-- ===== src/Upstream/Challenge.antt =====
-- internal/auth/upstream/token.go: `ParseBearerChallenge`.
pub mod RoundTrip
mod Tests
use easy_docker_proxy.Base.{
  ℕ, Bool, true, false, not, ◌||◌, List, [], ◌∷◌, ◌++◌, if◌then◌else◌, ltb, ◌==◌, length, take,
  drop, Str, codes, str_eq, to_lower, equal_fold, trim_space,
}

-- The three results.
pub record Challenge : Type 0 where
  pub realm : Str
  pub service : Str
  pub scope : Str

-- The variables of the loop; the builders `key` and `val` are what was written to them.
pub record Scan : Type 0 where
  pub key : Str
  pub val : Str
  pub in_quote : Bool
  pub expect_val : Bool
  pub found : Challenge

abbrev pub set_field : Str → Str → Challenge → Challenge
set_field k v c =
    if str_eq k (codes "realm")
    then record c { realm = v }
    else if str_eq k (codes "service")
    then record c { service = v }
    else if str_eq k (codes "scope")
    then record c { scope = v }
    else c

unfoldable pub commit : Scan → Scan
commit s = record {
  key = [];
  val = [];
  in_quote = s.in_quote;
  expect_val = false;
  found = set_field (to_lower (trim_space s.key)) (trim_space s.val) s.found;
}

abbrev pub write : Scan → ℕ → Scan
write s c =
    if s.expect_val then record s { val = s.val ++ c ∷ [] } else record s { key = s.key ++ c ∷ [] }

-- One round of the loop.
abbrev pub scan_byte : Scan → ℕ → Scan
scan_byte s c =
    if s.in_quote
    then (if c == b'"' then record s { in_quote = false } else record s { val = s.val ++ c ∷ [] })
    else if c == b'"'
    then record s { in_quote = true }
    else if c == b'='
    then record s { expect_val = true }
    else if c == b','
    then (if s.expect_val then commit s else record s { key = s.key ++ c ∷ [] })
    else write s c

abbrev pub scan : Scan → Str → Scan
scan s [] = s
scan s (c ∷ cs) = scan (scan_byte s c) cs

abbrev pub nothing : Challenge
nothing = record { realm = []; service = []; scope = [] }

abbrev pub first_scan : Scan
first_scan = record { key = []; val = []; in_quote = false; expect_val = false; found = nothing }

abbrev pub last_commit : Scan → Challenge
last_commit s = if s.expect_val then (commit s).found else s.found

unfoldable pub parse_bearer_challenge : Str → Challenge
parse_bearer_challenge header =
    let h = trim_space header in
    if ltb (length h) 7 || not (equal_fold (take 7 h) (codes "bearer "))
    then nothing
    else last_commit (scan first_scan (drop 7 h))
