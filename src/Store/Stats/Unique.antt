-- ===== src/Store/Stats/Unique.antt =====
-- The primary key of the daily rows.
use easy_docker_proxy.Base.{
  ℕ, ◌≡◌, refl, Bool, true, false, not, List, [], ◌∷◌, if◌then◌else◌, All, ltb,
}
use easy_docker_proxy.Record.Event.{Event}
use easy_docker_proxy.Store.{Result, ok, err, database_failed}
use easy_docker_proxy.Store.Sql.Order.{Pairs}
use easy_docker_proxy.Store.Sql.Groups.{Pairs-select}
use easy_docker_proxy.Store.Stats.{
  Tables, DailyStat, same_key, merge, upsert_daily, daily_of, stored, write_event, write_events,
  write_batch, purge_expired, purge_daily, day_of, cutoff,
}
use easy_docker_proxy.Store.Stats.Agree.{Op, batch_op, purge_op, apply_all}

-- No two rows have the same day, registry and repository.
abbrev pub Apart : DailyStat → DailyStat → Type 0
Apart a b = same_key a b ≡ false

abbrev pub IsUnique : List DailyStat → Type 0
IsUnique = Pairs Apart

All-upsert_daily :
    (P : DailyStat → Type 0) (d : DailyStat) (rows : List DailyStat)
    → ((r : DailyStat) → P r → P (merge r d))
    → P d
    → All P rows
    → All P (upsert_daily d rows)
unfolding upsert_daily
All-upsert_daily P d [] m p a = (p, _)
All-upsert_daily P d (r ∷ rows) m p a = placed (same_key r d) (All-upsert_daily P d rows m p (a.1))
  where
    placed :
        (b : Bool)
        → All P (upsert_daily d rows)
        → All P (if b then merge r d ∷ rows else r ∷ upsert_daily d rows)
    placed true ih = (m r (a.0), a.1)
    placed false ih = (a.0, ih)

upsert_daily-IsUnique :
    (d : DailyStat) (rows : List DailyStat) → IsUnique rows → IsUnique (upsert_daily d rows)
unfolding upsert_daily
upsert_daily-IsUnique d [] u = (_, _)
upsert_daily-IsUnique d (r ∷ rows) u =
    placed (same_key r d) refl (upsert_daily-IsUnique d rows (u.1))
  where
    placed :
        (b : Bool)
        → same_key r d ≡ b
        → IsUnique (upsert_daily d rows)
        → IsUnique (if b then merge r d ∷ rows else r ∷ upsert_daily d rows)
    placed true e ih = u
    placed false e ih = (All-upsert_daily (Apart r) d rows (λ x n. n) e (u.0), ih)

write_events-IsUnique :
    (now : ℕ) (es : List Event) (t : Tables)
    → IsUnique t.daily
    → IsUnique (write_events now es t).daily
unfolding write_events write_event
write_events-IsUnique now [] t u = u
write_events-IsUnique now (e ∷ es) t u =
    write_events-IsUnique now es (write_event now e t)
      (upsert_daily-IsUnique (daily_of e (stored now e)) t.daily u)

IsUnique-both :
    (b : Bool) (x y : Tables × Result Unit)
    → IsUnique x.0.daily
    → IsUnique y.0.daily
    → IsUnique (if b then x else y).0.daily
IsUnique-both true x y p q = p
IsUnique-both false x y p q = q

write_batch-IsUnique :
    (t : Tables) (up : Bool) (now : ℕ) (es : List Event)
    → IsUnique t.daily
    → IsUnique (write_batch t up now es).0.daily
unfolding write_batch
write_batch-IsUnique t up now [] u = u
write_batch-IsUnique t up now (e ∷ es) u =
    IsUnique-both (not up) (t, err database_failed) (write_events now (e ∷ es) t, ok _) u
      (write_events-IsUnique now (e ∷ es) t u)

purge_expired-IsUnique :
    (event_days aggregate_days : ℕ) (t : Tables) (now : ℕ) (up second_up third_up : Bool)
    → IsUnique t.daily
    → IsUnique (purge_expired event_days aggregate_days t now up second_up third_up).0.daily
unfolding purge_expired
purge_expired-IsUnique event_days aggregate_days t now up second_up third_up u =
    let agg_day = day_of (cutoff now aggregate_days) in
    let left : IsUnique (purge_daily agg_day t).daily =
      Pairs-select (λ r. not (ltb r.day agg_day)) Apart t.daily u in
    IsUnique-both (not up) (t, err database_failed) _ u
      (IsUnique-both (not second_up) _ _ u (IsUnique-both (not third_up) _ _ left left))

-- Where no two daily rows have the same day, registry and repository, that stays so after any
-- sequence of batches and purges.
pub apply_all-IsUnique :
    (event_days aggregate_days : ℕ) (t : Tables) (ops : List Op)
    → IsUnique t.daily
    → IsUnique (apply_all event_days aggregate_days t ops).daily
apply_all-IsUnique event_days aggregate_days t [] u = u
apply_all-IsUnique event_days aggregate_days t (batch_op up now es ∷ ops) u =
    apply_all-IsUnique event_days aggregate_days (write_batch t up now es).0 ops
      (write_batch-IsUnique t up now es u)
apply_all-IsUnique event_days aggregate_days t (purge_op now up second_up third_up ∷ ops) u =
    apply_all-IsUnique event_days aggregate_days
      (purge_expired event_days aggregate_days t now up second_up third_up).0 ops
      (purge_expired-IsUnique event_days aggregate_days t now up second_up third_up u)
