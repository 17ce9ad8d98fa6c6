-- ===== src/Store/Images/Tests.antt =====
-- Two images, one of them with two tags, and a blob.
use easy_docker_proxy.Base.{
  ◌+◌, ◌≤◌, ◌≡◌, refl, suc, true, some, List, [], ◌∷◌, ◌++◌, codes, map, trim_space, arith,
}
use easy_docker_proxy.Base.Int.{pos}
use easy_docker_proxy.Http.{parse_int}
use easy_docker_proxy.Record.Event.{Event, manifest, blob, is_pull, is_error}
use easy_docker_proxy.Store.Sql.{order_by, insert_ordered, distinct, group_by, limited}
use easy_docker_proxy.Store.Stats.{
  Tables, stored, pulls_of, errors_of, upsert_daily, upsert_client, write_event, write_events,
  write_batch, day_of,
}
use easy_docker_proxy.Store.Stats.Agree.{Op, batch_op, apply_all, no_tables, sums-Agree}
use easy_docker_proxy.Store.Stats.Series.{Range, parse_range}
use easy_docker_proxy.Store.Stats.Unique.{apply_all-IsUnique}
use easy_docker_proxy.Store.Images.{
  ImageSummary, listed, image_row, images, image_count, list_images, list_image_registries,
  image_analytics, insert_text, sorted_texts,
}
use easy_docker_proxy.Store.Images.Paging.{total_images, list_images-pages}
use easy_docker_proxy.Store.Images.Charts.{counted_image, image_analytics-Agree}

abbrev redis : Event
redis = record {
  ts = 40000000;
  client_ip = codes "10.0.0.1";
  registry = codes "hub";
  host = codes "proxy.local";
  event_type = manifest;
  repository = codes "library/redis";
  reference = codes "7";
  method = codes "GET";
  status = 200;
  bytes = 100;
  duration_ms = 3;
  user_agent = [];
  error = [];
  pull_user = [];
}

abbrev ops : List Op
ops =
    batch_op true 40000050 (
      redis
      ∷ record redis { event_type = blob; reference = codes "sha256:0"; bytes = 5000 }
      ∷ record redis { ts = 40000010; registry = codes "gcr"; repository = codes "pause" }
      ∷ record redis { ts = 40000020; reference = codes "8"; method = codes "HEAD" }
      ∷ [])
    ∷ []

abbrev tables : Tables
tables = apply_all 7 30 no_tables ops

abbrev range : Range
range = record { from_day = 461; to_day = 462; days = 2 }

first :
    list_images tables true (codes " REDIS ") [] (pos 1) (pos 0)
    ≡ some (
      record {
        registry = codes "hub";
        repository = codes "library/redis";
        pulls = 1;
        bytes_total = 5200;
        errors = 0;
        tag_count = 2;
        last_pull_ts = 40000020;
        first_pull_ts = 40000000;
        last_reference = codes "8";
      }
          ∷ [],
      1,
    )
unfolding list_images trim_space images image_count image_row listed limited write_batch
    write_events write_event stored upsert_daily upsert_client pulls_of errors_of is_pull is_error
    order_by insert_ordered group_by distinct
first = refl

registries : list_image_registries tables true ≡ some (codes "gcr" ∷ codes "hub" ∷ [])
unfolding list_image_registries sorted_texts insert_text trim_space write_batch write_events
    write_event stored upsert_daily upsert_client pulls_of errors_of is_pull is_error distinct
registries = refl

list_images-pages_example :
    (a : List ImageSummary) × (b : List ImageSummary) × (list_images tables true [] []
        (pos 1)
        (pos 0)
      ≡ some (a, total_images tables [] []))
    × (list_images tables true [] [] (pos 3) (pos 1) ≡ some (b, total_images tables [] []))
    × (list_images tables true [] [] (pos 4) (pos 0) ≡ some (a ++ b, total_images tables [] []))
list_images-pages_example =
    list_images-pages tables [] [] 1 3 0 (omega arith) (omega arith) (omega arith)

image_analytics-Agree_example :
    (image_analytics tables true 40000100 (codes "hub") (codes "library/redis") (codes "2d")
      ≡ some
          (map (counted_image (codes "hub", codes "library/redis") tables.events) (461 ∷ 462 ∷ [])))
    × (((range.to_day ≡ day_of 40000100) × (range.from_day + range.days ≡ suc (day_of 40000100)))
        × ((1 ≤ range.days) × (range.days ≤ 366)))
unfolding parse_range trim_space parse_int
image_analytics-Agree_example =
    image_analytics-Agree 10 tables 40000100 (codes "hub") (codes "library/redis") (codes "2d")
      range (sums-Agree 7 30 10 ops (_, _)) (apply_all-IsUnique 7 30 no_tables ops _) (omega arith)
      refl (omega arith)
