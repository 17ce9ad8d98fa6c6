-- ===== src/Store/Stats/Queries.antt =====
-- internal/store/stats.go: the queries of the dashboard, `Summary`, `TopRepos`, `TopClients`,
-- `RecentErrors` and `RecentEvents`.
--
-- Rates are kept as fractions. `up` tells whether every query succeeds; one reading of the clock
-- stands for those of a call. The id of an event is its place among the rows, of which only the
-- order is used.
use easy_docker_proxy.Base.{
  ℕ, suc, ◌+◌, Bool, true, false, not, ◌&&◌, ◌||◌, List, [], ◌∷◌, Option, none, some, if◌then◌else◌,
  Str, is_empty, str_eq, trim_space, take, length, map, select, leb, ltb,
}
use easy_docker_proxy.Base.Int.{ℤ}
use easy_docker_proxy.Record.Event.{Event}
use easy_docker_proxy.Store.Sql.{order_by, distinct, group_by, limited}
use easy_docker_proxy.Store.Sql.Totals.{sum_over}
use easy_docker_proxy.Store.Stats.{Tables, ClientStat, day_of}
use easy_docker_proxy.Store.Stats.Sums.{Pick, picks, total}
use easy_docker_proxy.Store.Stats.Series.{Range, parse_range}

pub record Ratio : Type 0 where
  pub num : ℕ
  pub den : ℕ

-- A rate is 0 where there is nothing to divide by.
abbrev pub ratio : ℕ → ℕ → Ratio
ratio a b = if ltb 0 b then record { num = a; den = b } else record { num = 0; den = 1 }

pub record RegistryShare : Type 0 where
  pub registry : Str
  pub pulls : ℕ
  pub bytes_total : ℕ
  pub errors : ℕ
  pub error_rate : Ratio
  pub pull_share : Ratio
  pub bytes_share : Ratio

pub record RepoRank : Type 0 where
  pub registry : Str
  pub repository : Str
  pub pulls : ℕ
  pub bytes_total : ℕ
  pub errors : ℕ

pub record ClientRank : Type 0 where
  pub client_ip : Str
  pub pulls : ℕ
  pub bytes_total : ℕ

pub record EventRow : Type 0 where
  pub id : ℕ
  pub event : Event

-- The three sums of `sumDaily`.
pub record Sums : Type 0 where
  pub pulls : ℕ
  pub bytes_total : ℕ
  pub errors : ℕ

pub record Summary : Type 0 where
  pub range : Str
  pub today : Sums
  pub in_range : Sums
  pub error_rate : Ratio
  pub active_clients : ℕ
  pub by_registry : List RegistryShare
  pub from_day : ℕ
  pub to_day : ℕ

abbrev pub in_days : Range → ℕ → Bool
in_days g day = leb g.from_day day && leb day g.to_day

-- `WHERE day >= ? AND day <= ?`, with `AND registry = ?` where one is named.
abbrev pub in_query : Range → Str → Pick
in_query g registry day reg repo = in_days g day && (is_empty registry || str_eq reg registry)

unfoldable pub sum_daily : Tables → Range → Sums
sum_daily t g =
    let p = picks (in_query g []) in
    record {
      pulls = total (λ r. r.pulls) p t.daily;
      bytes_total = total (λ r. r.bytes_total) p t.daily;
      errors = total (λ r. r.errors) p t.daily;
    }

abbrev pub of_registry : Range → Str → Pick
of_registry g k day reg repo = in_query g [] day reg repo && str_eq reg k

-- A row of the query, with the error rate; its shares are set at the end.
abbrev pub share_row : Tables → Range → Str → RegistryShare
share_row t g k =
    let p = picks (of_registry g k) in
    let pulls = total (λ r. r.pulls) p t.daily in
    let errors = total (λ r. r.errors) p t.daily in
    record {
      registry = k;
      pulls = pulls;
      bytes_total = total (λ r. r.bytes_total) p t.daily;
      errors = errors;
      error_rate = ratio errors (pulls + errors);
      pull_share = record { num = 0; den = 1 };
      bytes_share = record { num = 0; den = 1 };
    }

abbrev pub with_shares : ℕ → ℕ → RegistryShare → RegistryShare
with_shares total_pulls total_bytes s = record s {
  pull_share = ratio s.pulls total_pulls;
  bytes_share = ratio s.bytes_total total_bytes;
}

abbrev pub share_rows : Tables → Range → List RegistryShare
share_rows t g =
    order_by (λ s. s.pulls) (λ s. s.bytes_total)
      (group_by str_eq (λ r. r.registry) (share_row t g) (picks (in_query g [])) t.daily)

unfoldable pub registry_share : Tables → Range → List RegistryShare
registry_share t g =
    let out = share_rows t g in
    map (with_shares (sum_over (λ s. s.pulls) out) (sum_over (λ s. s.bytes_total) out)) out

abbrev pub today_only : ℕ → Range
today_only d = record { from_day = d; to_day = d; days = 1 }

-- `COUNT(DISTINCT client_ip)`
abbrev pub active : Tables → Range → ℕ
active t g =
    length (distinct str_eq (map (λ r. r.client_ip) (select (λ r. in_days g r.day) t.clients)))

abbrev pub overview_of : Tables → Str → ℕ → Range → Summary
overview_of t range now g =
    let s = sum_daily t g in
    record {
      range = range;
      today = sum_daily t (today_only (day_of now));
      in_range = s;
      error_rate = ratio s.errors (s.pulls + s.errors);
      active_clients = active t g;
      by_registry = registry_share t g;
      from_day = g.from_day;
      to_day = g.to_day;
    }

abbrev pub with_range {ℓ} : {A : Type ℓ} → (Range → A) → Option Range → Option A
with_range f none = none
with_range f (some g) = some (f g)

unfoldable pub summary : Tables → Bool → ℕ → Str → Option Summary
summary t up now range =
    if not up then none else with_range (overview_of t range now) (parse_range range now)

abbrev pub same_repo : Str × Str → Str × Str → Bool
same_repo a b = str_eq a.0 b.0 && str_eq a.1 b.1

abbrev pub of_repo : Range → Str → Str × Str → Pick
of_repo g registry k day reg repo = in_query g registry day reg repo && same_repo (reg, repo) k

abbrev pub repo_row : Tables → Range → Str → Str × Str → RepoRank
repo_row t g registry k =
    let p = picks (of_repo g registry k) in
    record {
      registry = k.0;
      repository = k.1;
      pulls = total (λ r. r.pulls) p t.daily;
      bytes_total = total (λ r. r.bytes_total) p t.daily;
      errors = total (λ r. r.errors) p t.daily;
    }

abbrev pub repo_rows : Tables → Range → Str → List RepoRank
repo_rows t g registry =
    group_by same_repo (λ r. (r.registry, r.repository)) (repo_row t g registry)
      (picks (in_query g registry)) t.daily

abbrev pub ranked_repos : Tables → ℤ → Str → Range → List RepoRank
ranked_repos t limit registry g =
    take (limited 20 100 limit)
      (order_by (λ r. r.pulls) (λ r. r.bytes_total) (repo_rows t g registry))

unfoldable pub top_repos : Tables → Bool → ℕ → Str → ℤ → Str → Option (List RepoRank)
top_repos t up now range limit registry =
    if not up
    then none
    else with_range (ranked_repos t limit (trim_space registry)) (parse_range range now)

abbrev pub client_row : Tables → Range → Str → ClientRank
client_row t g k =
    let p : ClientStat → Bool = λ r. in_days g r.day && str_eq r.client_ip k in
    record {
      client_ip = k;
      pulls = total (λ r. r.pulls) p t.clients;
      bytes_total = total (λ r. r.bytes_total) p t.clients;
    }

abbrev pub client_rows : Tables → Range → List ClientRank
client_rows t g =
    group_by str_eq (λ r. r.client_ip) (client_row t g) (λ r. in_days g r.day) t.clients

abbrev pub ranked_clients : Tables → ℤ → Range → List ClientRank
ranked_clients t limit g =
    take (limited 20 100 limit) (order_by (λ r. r.pulls) (λ r. r.bytes_total) (client_rows t g))

unfoldable pub top_clients : Tables → Bool → ℕ → Str → ℤ → Option (List ClientRank)
top_clients t up now range limit =
    if not up then none else with_range (ranked_clients t limit) (parse_range range now)

abbrev pub event_rows : ℕ → List Event → List EventRow
event_rows n [] = []
event_rows n (e ∷ es) = record { id = n; event = e } ∷ event_rows (suc n) es

-- `status >= 400 OR (error IS NOT NULL AND error != '')`
abbrev pub has_failed : Event → Bool
has_failed e = leb 400 e.status || not (is_empty e.error)

unfoldable pub query_events : Tables → Bool → ℤ → Bool → Option (List EventRow)
query_events t up limit errors_only =
    let rows = select (λ r. not errors_only || has_failed r.event) (event_rows 1 t.events) in
    if not up
    then none
    else some (take (limited 50 200 limit) (order_by (λ r. r.event.ts) (λ r. r.id) rows))

abbrev pub recent_errors : Tables → Bool → ℤ → Option (List EventRow)
recent_errors t up limit = query_events t up limit true

abbrev pub recent_events : Tables → Bool → ℤ → Option (List EventRow)
recent_events t up limit = query_events t up limit false
