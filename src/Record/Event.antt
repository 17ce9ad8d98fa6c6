-- ===== src/Record/Event.antt =====
-- internal/record/event.go. `status` is never negative in the program (an HTTP status, or 0), so
-- it is a number; `ts`, `bytes` and `duration_ms` are numbers too.
use easy_docker_proxy.Base.{
  ℕ, ◌-◌, Bool, true, false, not, ◌&&◌, ◌||◌, leb, ltb, ◌==◌, if◌then◌else◌, Str, codes, str_eq,
  is_empty, trim_space, map,
}

pub data EventType : Type 0 where
  manifest blob tags referrers : EventType

pub record Event : Type 0 where
  pub ts : ℕ
  pub client_ip : Str
  pub registry : Str
  pub host : Str
  pub event_type : EventType
  pub repository : Str
  pub reference : Str
  pub method : Str
  pub status : ℕ
  pub bytes : ℕ
  pub duration_ms : ℕ
  pub user_agent : Str
  pub error : Str
  pub pull_user : Str

abbrev pub is_manifest : EventType → Bool
is_manifest manifest = true
is_manifest _ = false

-- `strings.ToUpper`
abbrev upper_byte : ℕ → ℕ
upper_byte c = if leb b'a' c && leb c b'z' then c - 32 else c

abbrev pub to_upper : Str → Str
to_upper s = map upper_byte s

unfoldable pub is_pull : Event → Bool
is_pull e =
    if not (is_manifest e.event_type) || ltb e.status 200 || leb 300 e.status
    then false
    else let m = to_upper (trim_space e.method) in is_empty m || str_eq m (codes "GET")

unfoldable pub is_error : Event → Bool
is_error e =
    if leb 400 e.status then true else not (is_empty e.error) && (e.status == 0 || leb 500 e.status)
