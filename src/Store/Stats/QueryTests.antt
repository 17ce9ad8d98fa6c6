-- ===== src/Store/Stats/QueryTests.antt =====
-- Three pulls of two repositories and a failure, as the dashboard shows them.
use easy_docker_proxy.Base.{ℕ, ◌≡◌, refl, true, some, List, [], ◌∷◌, codes, trim_space, arith}
use easy_docker_proxy.Base.Int.{pos}
use easy_docker_proxy.Http.{parse_int}
use easy_docker_proxy.Record.Event.{is_pull, is_error}
use easy_docker_proxy.Store.Sql.{order_by, insert_ordered, distinct, group_by, limited}
use easy_docker_proxy.Store.Stats.{
  Tables, stored, pulls_of, errors_of, upsert_daily, upsert_client, write_event, write_events,
  write_batch,
}
use easy_docker_proxy.Store.Stats.Agree.{Op, batch_op, apply_all, no_tables, sums-Agree}
use easy_docker_proxy.Store.Stats.Series.{Range, parse_range}
use easy_docker_proxy.Store.Stats.Queries.{Summary, top_repos, top_clients, summary}
use easy_docker_proxy.Store.Stats.Overview.{IsOverview, summary-IsOverview}
use easy_docker_proxy.Store.Stats.Tests.{pulled}

abbrev shown : List Op
shown =
    batch_op true 40000050 (
      record pulled { ts = 40000000 }
      ∷ record pulled { ts = 40000010; repository = codes "library/nginx" }
      ∷ record pulled { ts = 40000020; registry = codes "quay"; status = 502 }
      ∷ record pulled { ts = 40000030 }
      ∷ [])
    ∷ []

abbrev tables : Tables
tables = apply_all 7 30 no_tables shown

abbrev now : ℕ
now = 40000100

abbrev range : Range
range = record { from_day = 461; to_day = 462; days = 2 }

ranked :
    top_repos tables true now (codes "2d") (pos 1) []
    ≡ some (
        record {
          registry = codes "hub";
          repository = codes "library/redis";
          pulls = 2;
          bytes_total = 200;
          errors = 0;
        }
        ∷ [])
unfolding top_repos parse_range trim_space parse_int write_batch write_events write_event stored
    upsert_daily upsert_client pulls_of errors_of is_pull is_error limited order_by insert_ordered
    group_by distinct
ranked = refl

clients :
    top_clients tables true now (codes "2d") (pos 0)
    ≡ some (record { client_ip = codes "unknown"; pulls = 3; bytes_total = 400 } ∷ [])
unfolding top_clients parse_range trim_space parse_int write_batch write_events write_event stored
    upsert_daily upsert_client pulls_of errors_of is_pull is_error limited order_by insert_ordered
    group_by distinct
clients = refl

summary-IsOverview_example :
    (s : Summary) × (summary tables true now (codes "2d") ≡ some s)
    × IsOverview range now tables.events s
unfolding parse_range trim_space parse_int
summary-IsOverview_example =
    summary-IsOverview 10 tables now (codes "2d") range (sums-Agree 7 30 10 shown (_, _))
      (omega arith) refl (omega arith) (omega arith)
