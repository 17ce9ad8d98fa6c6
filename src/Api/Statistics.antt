-- ===== src/Api/Statistics.antt =====
-- internal/statsapi/api.go: the handlers of the statistics. They only read the tables.
use easy_docker_proxy.Base.{
  not, List, [], Option, none, some, if◌then◌else◌, Str, codes, is_empty, str_eq, trim_space,
}
use easy_docker_proxy.Http.{is_method, atoi_or_zero, status_bad_request}
use easy_docker_proxy.Store.Stats.{Tables}
use easy_docker_proxy.Store.Stats.Series.{timeseries}
use easy_docker_proxy.Store.Stats.Queries.{
  summary, top_repos, top_clients, recent_errors, recent_events,
}
use easy_docker_proxy.Store.Images.{
  list_images, list_image_registries, list_image_tags, image_analytics,
}
use easy_docker_proxy.Api.{
  Call, Body, Reply, write_err, write_ok, internal_error, not_allowed, summary_body,
  timeseries_body, repos_body, clients_body, events_body, images_body, tags_body, chart_body,
}

-- `orDefault`
abbrev pub or_default : Str → Str → Str
or_default s d = if is_empty s then d else s

abbrev pub range_of_call : Call → Str
range_of_call c = or_default (c.query (codes "range")) (codes "7d")

-- What a query found, or the reply to its error.
abbrev pub found {ℓ} : {A : Type ℓ} → Reply → (A → Body) → Option A → Reply
found failed body none = failed
found failed body (some a) = write_ok (body a)

abbrev pub get_only : Call → Reply → Reply
get_only c reply = if not (is_method c.request (codes "GET")) then not_allowed else reply

abbrev pub bad_range : Reply
bad_range = write_err status_bad_request (codes "invalid range or query")

unfoldable pub handle_summary : Tables → Call → Reply
handle_summary t c =
    get_only c (found bad_range summary_body (summary t c.up c.seconds (range_of_call c)))

unfoldable pub handle_timeseries : Tables → Call → Reply
handle_timeseries t c =
    let range = range_of_call c in
    let registry = trim_space (c.query (codes "registry")) in
    get_only c (
      found bad_range (timeseries_body range registry) (timeseries t c.up c.seconds range registry))

unfoldable pub handle_top_repos : Tables → Call → Reply
handle_top_repos t c =
    let range = range_of_call c in
    let registry = trim_space (c.query (codes "registry")) in
    get_only c (
      found bad_range (repos_body range registry)
        (top_repos t c.up c.seconds range (atoi_or_zero (c.query (codes "limit"))) registry))

unfoldable pub handle_top_clients : Tables → Call → Reply
handle_top_clients t c =
    let range = range_of_call c in
    get_only c (
      found bad_range (clients_body range)
        (top_clients t c.up c.seconds range (atoi_or_zero (c.query (codes "limit")))))

unfoldable pub handle_errors : Tables → Call → Reply
handle_errors t c = get_only c (
    found internal_error events_body
      (recent_errors t c.up (atoi_or_zero (c.query (codes "limit")))))

unfoldable pub handle_events : Tables → Call → Reply
handle_events t c = get_only c (
    found internal_error events_body
      (recent_events t c.up (atoi_or_zero (c.query (codes "limit")))))

-- The names of the registries are left empty where their query fails.
abbrev registries : Option (List Str) → List Str
registries none = []
registries (some names) = names

unfoldable pub handle_images : Tables → Call → Reply
handle_images t c =
    let registry = trim_space (c.query (codes "registry")) in
    let names = registries (list_image_registries t c.second_up) in
    get_only c (
      found internal_error (λ (items, total). images_body items total registry names)
        (list_images t c.up (c.query (codes "q")) registry (atoi_or_zero (c.query (codes "limit")))
          (atoi_or_zero (c.query (codes "offset")))))

unfoldable pub handle_image_tags : Tables → Call → Reply
handle_image_tags t c =
    let reg = c.query (codes "registry") in
    let repo = c.query (codes "repository") in
    get_only c (
      found (write_err status_bad_request (codes "invalid image query")) (tags_body reg repo)
        (list_image_tags t c.up reg repo))

unfoldable pub handle_image_timeseries : Tables → Call → Reply
handle_image_timeseries t c =
    let range = range_of_call c in
    get_only c (
      found (write_err status_bad_request (codes "invalid image query or range")) (chart_body range)
        (image_analytics t c.up c.seconds (c.query (codes "registry"))
          (c.query (codes "repository")) range))

-- The nine patterns of the mux.
unfoldable pub handle_statistics : Tables → Call → Reply
handle_statistics t c =
    let p = c.request.path in
    if str_eq p (codes "/api/v1/summary")
    then handle_summary t c
    else if str_eq p (codes "/api/v1/timeseries")
    then handle_timeseries t c
    else if str_eq p (codes "/api/v1/top/repos")
    then handle_top_repos t c
    else if str_eq p (codes "/api/v1/top/clients")
    then handle_top_clients t c
    else if str_eq p (codes "/api/v1/errors")
    then handle_errors t c
    else if str_eq p (codes "/api/v1/events")
    then handle_events t c
    else if str_eq p (codes "/api/v1/images")
    then handle_images t c
    else if str_eq p (codes "/api/v1/images/tags")
    then handle_image_tags t c
    else handle_image_timeseries t c
