-- ===== src/Store/Stats/Tests.antt =====
-- Two batches, one of which fails, and a purge.
use easy_docker_proxy.Base.{
  ℕ, suc, ◌/◌, ◌+◌, some, ◌≤◌, ◌≡◌, refl, true, false, List, [], ◌∷◌, codes, arith, trim_space,
}
use easy_docker_proxy.Record.Event.{Event, manifest, blob, is_pull, is_error}
use easy_docker_proxy.Store.Stats.{
  stored, pulls_of, errors_of, upsert_daily, upsert_client, write_event, write_events, write_batch,
  purge_expired,
}
use easy_docker_proxy.Http.{parse_int}
use easy_docker_proxy.Store.Stats.Series.{parse_range, timeseries}
use easy_docker_proxy.Store.Stats.Exact.{counted, timeseries-Agree}
use easy_docker_proxy.Store.Stats.Agree.{Op, batch_op, purge_op, apply_all, no_tables, sums-Agree}

abbrev pub pulled : Event
pulled = record {
  ts = 864050;
  client_ip = [];
  registry = codes "hub";
  host = codes "proxy.local";
  event_type = manifest;
  repository = codes "library/redis";
  reference = codes "7";
  method = codes "GET";
  status = 200;
  bytes = 100;
  duration_ms = 3;
  user_agent = [];
  error = [];
  pull_user = [];
}

abbrev refused : Event
refused = record pulled { ts = 0; status = 502; bytes = 0 }

abbrev ops : List Op
ops =
    batch_op true 864060 (pulled ∷ record pulled { event_type = blob; bytes = 5000 } ∷ [])
    ∷ batch_op false 864070 (pulled ∷ [])
    ∷ purge_op 864080 true true true
    ∷ batch_op true 864090 (refused ∷ [])
    ∷ []

summed :
    (apply_all 7 30 no_tables ops).daily
    ≡ record {
      day = 10;
      registry = codes "hub";
      repository = codes "library/redis";
      pulls = 1;
      bytes_total = 5100;
      errors = 1;
    }
      ∷ []
unfolding write_batch write_events write_event stored upsert_daily upsert_client purge_expired
    pulls_of errors_of is_pull is_error trim_space
summed = refl

abbrev today : ℕ
today = 462

abbrev pub late : List Op
late = batch_op true 40000050 (record pulled { ts = 40000000 } ∷ []) ∷ []

timeseries-Agree_example :
    (timeseries (apply_all 7 30 no_tables late) true 40000100 (codes " 2D ") (codes "hub")
      ≡ some (
          counted (codes "hub") 461 (apply_all 7 30 no_tables late).events
          ∷ counted (codes "hub") 462 (apply_all 7 30 no_tables late).events
          ∷ []))
    × (((today ≡ 40000100 / 86400) × (461 + 2 ≡ suc today)) × ((1 ≤ 2) × (2 ≤ 366)))
unfolding parse_range trim_space parse_int
timeseries-Agree_example =
    timeseries-Agree 10 (apply_all 7 30 no_tables late) 40000100 (codes " 2D ") (codes "hub")
      (record { from_day = 461; to_day = 462; days = 2 }) (sums-Agree 7 30 10 late (_, _))
      (omega arith) refl (omega arith)
