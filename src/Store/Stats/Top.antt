-- ===== src/Store/Stats/Top.antt =====
-- `TopRepos` against the events.
use easy_docker_proxy.Base.{
  ℕ, ◌≤◌, ◌≡◌, ◌≢◌, refl, sym, ap, ap₂, ◌↔◌, ◌⊎◌, Bool, true, false, ◌&&◌, List, some, Str,
  str_eq_iff, trim_space, take, length, In, All, leb, arith,
}
use easy_docker_proxy.Base.Int.{ℤ}
use easy_docker_proxy.Record.Event.{Event}
use easy_docker_proxy.Store.Sql.{order_by, limited}
use easy_docker_proxy.Store.Sql.Order.{
  take-IsTop, Pairs, Pairs-reorder, Pairs-take, All-order_by, All-take, All-In, Ahead,
}
use easy_docker_proxy.Store.Sql.Groups.{group_by-In, group_by-made, group_by-Once}
use easy_docker_proxy.Store.Sql.Limits.{limited-bounds}
use easy_docker_proxy.Store.Stats.{Tables, DailyStat, pulls_of, errors_of}
use easy_docker_proxy.Store.Stats.Sums.{picks, picks_event, total, some_picked}
use easy_docker_proxy.Store.Stats.Agree.{Agree, From}
use easy_docker_proxy.Store.Stats.Series.{Range, parse_range}
use easy_docker_proxy.Store.Stats.Queries.{
  RepoRank, in_query, same_repo, of_repo, repo_row, repo_rows, top_repos,
}

-- What the events of a repository in the range add up to.
abbrev pub counted_repo : Range → Str → List Event → Str × Str → RepoRank
counted_repo g registry es k =
    let p = picks_event (of_repo g registry k) in
    record {
      registry = k.0;
      repository = k.1;
      pulls = total pulls_of p es;
      bytes_total = total (λ e. e.bytes) p es;
      errors = total errors_of p es;
    }

abbrev pub repo_of : RepoRank → Str × Str
repo_of r = (r.registry, r.repository)

abbrev pub FirstRepos : RepoRank → RepoRank → Type 0
FirstRepos = Ahead (λ r. r.pulls) (λ r. r.bytes_total)

-- The most pulled repositories of the events: in order, each once and with its own sums, no more
-- than the limit. One with a pull that is left out comes after all that are there, and they are
-- as many as the limit lets through.
pub record AreTopRepos (g : Range) (registry : Str) (limit : ℕ) (es : List Event)
    (out : List RepoRank) : Type 0 where
  pub ordered : Pairs FirstRepos out
  pub once : Pairs (λ a b. repo_of a ≢ repo_of b) out
  pub bounded : (length out ≤ limit) × (limit ≤ 100)
  pub sums : (r : RepoRank) → In r out → r ≡ counted_repo g registry es (repo_of r)
  pub best :
      (k : Str × Str)
      → 1 ≤ (counted_repo g registry es k).pulls
      → In (counted_repo g registry es k) out
        ⊎ ((length out ≡ limit)
            × ((y : RepoRank) → In y out → FirstRepos y (counted_repo g registry es k)))

pub both_true : (b c : Bool) → (b && c) ≡ true → (b ≡ true) × (c ≡ true)
both_true true c h = (refl, h)
both_true false c h = absurd (ground (arith, h))

pub same_repo_iff : (a b : Str × Str) → (same_repo a b ≡ true) ↔ (a ≡ b)
same_repo_iff a b = (
  λ h.
      ap₂ (λ (x y : Str). (x, y)) ((str_eq_iff (a.0) (b.0)).0 (ground (arith, h)))
        ((str_eq_iff (a.1) (b.1)).0 (ground (arith, h))),
  λ e.
      let x = (str_eq_iff (a.0) (b.0)).1 (ap (λ (z : Str × Str). z.0) e) in
      let y = (str_eq_iff (a.1) (b.1)).1 (ap (λ (z : Str × Str). z.1) e) in ground (arith, x, y),
)

abbrev rank : Str × Str → ℕ → ℕ → ℕ → RepoRank
rank k a b c = record { registry = k.0; repository = k.1; pulls = a; bytes_total = b; errors = c }

same_rank : (k : Str × Str) {a b c x y z : ℕ} → a ≡ x → b ≡ y → c ≡ z → rank k a b c ≡ rank k x y z
same_rank k e f h = rw (e, f, h) refl

of_repo-From :
    (d0 : ℕ) (g : Range) (registry : Str) (k : Str × Str)
    → d0 ≤ g.from_day
    → From d0 (of_repo g registry k)
of_repo-From d0 g registry k late day reg repo y =
    let from : leb g.from_day day ≡ true = ground (arith, y) in ground (arith, from, late)

-- A row of the query has the sums of the events.
repo_row-counted_repo :
    (d0 : ℕ) (t : Tables) (g : Range) (registry : Str) (k : Str × Str)
    → Agree d0 t
    → d0 ≤ g.from_day
    → repo_row t g registry k ≡ counted_repo g registry t.events k
repo_row-counted_repo d0 t g registry k a late =
    let from = of_repo-From d0 g registry k late in
    let p = of_repo g registry k in same_rank k (a.pulls p from) (a.bytes p from) (a.errors p from)

module _ (d0 : ℕ) (t : Tables) (g : Range) (registry : Str) (a : Agree d0 t)
    (late : d0 ≤ g.from_day) where
  abbrev repo_key : DailyStat → Str × Str
  repo_key r = (r.registry, r.repository)

  -- A repository with a pull has a row.
  pulled-In :
      (k : Str × Str)
      → 1 ≤ (counted_repo g registry t.events k).pulls
      → In (counted_repo g registry t.events k) (repo_rows t g registry)
  pulled-In k h =
      let same = repo_row-counted_repo d0 t g registry k a late in
      let same_pulls = ap (λ r. r.pulls) same in
      let pulled : 1 ≤ (repo_row t g registry k).pulls = omega (arith, same_pulls, h) in
      let (r, i, y) = some_picked (λ r. r.pulls) (picks (of_repo g registry k)) t.daily pulled in
      let both =
        both_true (in_query g registry r.day r.registry r.repository) (same_repo (repo_key r) k)
          y in
      let q : in_query g registry r.day r.registry r.repository ≡ true = both.0 in
      let e : repo_key r ≡ k = (same_repo_iff (repo_key r) k).0 (both.1) in
      rw (← same) (
        rw (← e) (
          group_by-In same_repo same_repo_iff repo_key (repo_row t g registry)
            (picks (in_query g registry)) t.daily r i q))

  abbrev first_repos : ℕ → List RepoRank
  first_repos limit =
      take limit (order_by (λ r. r.pulls) (λ r. r.bytes_total) (repo_rows t g registry))

  first_repos-AreTopRepos :
      (limit : ℕ) → limit ≤ 100 → AreTopRepos g registry limit t.events (first_repos limit)
  first_repos-AreTopRepos limit cap =
      let rows = repo_rows t g registry in
      let sorted = order_by (λ r. r.pulls) (λ r. r.bytes_total) rows in
      let top = take-IsTop (λ r. r.pulls) (λ r. r.bytes_total) limit rows in
      let Own : RepoRank → Type 0 = λ r. r ≡ counted_repo g registry t.events (repo_of r) in
      let Apart : RepoRank → RepoRank → Type 0 = λ x y. repo_of x ≢ repo_of y in
      let made : All Own rows =
        group_by-made same_repo same_repo_iff repo_key (repo_row t g registry)
          (picks (in_query g registry)) Own t.daily
          (λ k. repo_row-counted_repo d0 t g registry k a late) in
      let once : Pairs Apart rows =
        group_by-Once same_repo same_repo_iff repo_key (repo_row t g registry)
          (picks (in_query g registry)) repo_of t.daily (λ k. refl) in
      record {
        ordered = top.ordered;
        once = Pairs-take Apart limit sorted (
            Pairs-reorder (λ r. r.pulls) (λ r. r.bytes_total) Apart rows (λ x y n e. n (sym e))
              once);
        bounded = (top.bounded, cap);
        sums = All-In Own (first_repos limit) (
            All-take Own limit sorted
              (All-order_by (λ r. r.pulls) (λ r. r.bytes_total) Own rows made));
        best = λ k h. top.best (counted_repo g registry t.events k) (pulled-In k h);
      }

-- For a range that is accepted, and whose days the daily sums cover, the list is that of the most
-- pulled repositories among the events of the range, and of the registry if one is named: ordered
-- by pulls and bytes, each repository once with the pulls, bytes and errors of its events, at most
-- as many as the limit, which is at most 100; a pulled repository that is missing comes after every
-- one that is listed, and the list is full.
pub top_repos-AreTopRepos :
    (d0 : ℕ) (t : Tables) (now : ℕ) (range registry : Str) (limit : ℤ) (g : Range)
    → Agree d0 t
    → parse_range range now ≡ some g
    → d0 ≤ g.from_day
    → (out : List RepoRank) × (top_repos t true now range limit registry ≡ some out)
      × AreTopRepos g (trim_space registry) (limited 20 100 limit) t.events out
unfolding top_repos
top_repos-AreTopRepos d0 t now range registry limit g a e late =
    let n = limited 20 100 limit in
    (
      first_repos d0 t g (trim_space registry) a late n,
      rw e refl,
      first_repos-AreTopRepos d0 t g (trim_space registry) a late n
          ((limited-bounds 20 100 limit (omega arith) (omega arith)).1),
    )
