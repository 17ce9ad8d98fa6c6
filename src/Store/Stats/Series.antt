-- ===== src/Store/Stats/Series.antt =====
-- internal/store/stats.go: `ParseRange` and `Timeseries`. Years are counted in days, and a range
-- never reaches back to 1970.
use easy_docker_proxy.Base.{
  ℕ, zero, suc, ◌-◌, Bool, not, ◌&&◌, ◌||◌, List, [], ◌∷◌, Option, none, some, if◌then◌else◌, Str,
  codes, is_empty, str_eq, has_suffix, to_lower, trim_space, take, length, any, map, leb, ◌==◌,
}
use easy_docker_proxy.Base.Int.{ℤ, pos, pos_part, ltb_ℤ}
use easy_docker_proxy.Http.{parse_int}
use easy_docker_proxy.Store.Stats.{Tables, DailyStat, day_of}
use easy_docker_proxy.Store.Stats.Sums.{Pick, picks, total}

pub record DayPoint : Type 0 where
  pub day : ℕ
  pub pulls : ℕ
  pub bytes_total : ℕ
  pub errors : ℕ

pub record Range : Type 0 where
  pub from_day : ℕ
  pub to_day : ℕ
  pub days : ℕ

abbrev pub range_of : ℕ → Option ℤ → Option Range
range_of today none = none
range_of today (some z) =
    if ltb_ℤ z (pos 1) || ltb_ℤ (pos 366) z
    then none
    else some (record { from_day = today - (pos_part z - 1); to_day = today; days = pos_part z })

abbrev pub or_week : Str → Str
or_week s = if is_empty s then codes "7d" else s

unfoldable pub parse_range : Str → ℕ → Option Range
parse_range range now =
    let s = or_week (trim_space (to_lower range)) in
    if not (has_suffix s (codes "d"))
    then none
    else range_of (day_of now) (parse_int (take (length s - 1) s))

-- The rows of one day that the query groups.
abbrev pub grouped : Range → Str → ℕ → Pick
grouped g registry d day reg repo =
    (leb g.from_day day && leb day g.to_day)
    && (day == d && (is_empty registry || str_eq reg registry))

abbrev pub point : Pick → ℕ → List DailyStat → DayPoint
point p d rows = record {
  day = d;
  pulls = total (λ r. r.pulls) (picks p) rows;
  bytes_total = total (λ r. r.bytes_total) (picks p) rows;
  errors = total (λ r. r.errors) (picks p) rows;
}

abbrev pub zeros : ℕ → DayPoint
zeros d = record { day = d; pulls = 0; bytes_total = 0; errors = 0 }

-- The result of the query for one day, or zeros where it has none.
unfoldable pub filled : Pick → ℕ → List DailyStat → DayPoint
filled p d rows = if any (picks p) rows then point p d rows else zeros d

abbrev pub days_from : ℕ → ℕ → List ℕ
days_from d zero = []
days_from d (suc n) = d ∷ days_from (suc d) n

abbrev pub series : Tables → Str → Option Range → Option (List DayPoint)
series t registry none = none
series t registry (some g) =
    some (map (λ d. filled (grouped g registry d) d t.daily) (days_from g.from_day g.days))

unfoldable pub timeseries : Tables → Bool → ℕ → Str → Str → Option (List DayPoint)
timeseries t up now range registry =
    if not up then none else series t (trim_space registry) (parse_range range now)
