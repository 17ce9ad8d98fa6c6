-- ===== src/Store/Images.antt =====
-- internal/store/images.go: the images, their tags and their charts. `up` tells whether every query
-- succeeds. Of two manifests at the same time, SQLite does not say which reference is the last one.
pub mod Paging
pub mod Traffic
pub mod Tags
pub mod Charts
mod Tests
use easy_docker_proxy.Base.{
  ℕ, zero, suc, ◌+◌, Bool, true, false, not, ◌&&◌, ◌||◌, List, [], ◌∷◌, ◌++◌, Option, none, some,
  if◌then◌else◌, Str, codes, is_empty, str_eq, trim_space, take, drop, length, map, select, any,
  leb, ltb, ◌==◌, lower_byte,
}
use easy_docker_proxy.Base.Int.{ℤ, pos, pos_part, ltb_ℤ}
use easy_docker_proxy.Record.Event.{Event, is_manifest, to_upper}
use easy_docker_proxy.Store.Sql.{order_by, distinct, group_by, limited}
use easy_docker_proxy.Store.Stats.{Tables, DailyStat}
use easy_docker_proxy.Store.Stats.Sums.{total}
use easy_docker_proxy.Store.Stats.Series.{DayPoint, Range, parse_range, days_from, zeros}
use easy_docker_proxy.Store.Stats.Queries.{has_failed, same_repo, in_days, with_range}

pub record ImageSummary : Type 0 where
  pub registry : Str
  pub repository : Str
  pub pulls : ℕ
  pub bytes_total : ℕ
  pub errors : ℕ
  pub tag_count : ℕ
  pub last_pull_ts : ℕ
  pub first_pull_ts : ℕ
  pub last_reference : Str

pub record ImageTagStat : Type 0 where
  pub reference : Str
  pub pulls : ℕ
  pub bytes_total : ℕ
  pub errors : ℕ
  pub last_pull_ts : ℕ
  pub first_pull_ts : ℕ

abbrev suffixes : Str → List Str
suffixes [] = [] ∷ []
suffixes (c ∷ s) = (c ∷ s) ∷ suffixes s

abbrev like_one : ℕ → (Str → Bool) → Str → Bool
like_one c rest [] = false
like_one c rest (x ∷ s) = (c == b'_' || lower_byte c == lower_byte x) && rest s

-- `s LIKE p`: `%` stands for any text, `_` for any byte, and the case of letters does not count.
abbrev pub like : Str → Str → Bool
like [] s = is_empty s
like (c ∷ p) s = elim (c == b'%') [
  | true ↦ any (λ r. like p r) (suffixes s)
  | false ↦ like_one c (λ r. like p r) s
]

abbrev pub has_text : Str → Str → Bool
has_text q s = like (codes "%" ++ (q ++ codes "%")) s

-- `event_type = 'manifest'`, with the conditions on registry and text where they are given.
unfoldable pub listed : Str → Str → Event → Bool
listed q registry e =
    is_manifest e.event_type
    && ((is_empty registry || str_eq e.registry registry)
        && (is_empty q
            || (has_text q e.repository || (has_text q e.registry || has_text q e.reference))))

-- `UPPER(method) IN ('', 'GET')` and a status of 2xx.
abbrev pub fetched : Event → Bool
fetched e =
    (is_empty e.method || str_eq (to_upper e.method) (codes "GET"))
    && (leb 200 e.status && ltb e.status 300)

abbrev pub image_of : Event → Str × Str
image_of e = (e.registry, e.repository)

abbrev pub is_of : Str × Str → Event → Bool
is_of k e = same_repo (image_of e) k

abbrev pub manifest_of : Str × Str → Event → Bool
manifest_of k e = is_of k e && is_manifest e.event_type

abbrev pub count : (Event → Bool) → List Event → ℕ
count p es = length (select p es)

-- `MAX(ts)` and `MIN(ts)`, of at least one row.
abbrev pub max_ts : List Event → ℕ
max_ts [] = 0
max_ts (e ∷ es) = let m = max_ts es in if ltb m e.ts then e.ts else m

abbrev min_onto : ℕ → List Event → ℕ
min_onto m [] = m
min_onto m (e ∷ es) = min_onto (if ltb e.ts m then e.ts else m) es

abbrev pub min_ts : List Event → ℕ
min_ts [] = 0
min_ts (e ∷ es) = min_onto e.ts es

abbrev first_reference : List Event → Str
first_reference [] = []
first_reference (e ∷ es) = e.reference

unfoldable pub image_row : List Event → Str × Str → ImageSummary
image_row es k =
    let manifests = select (manifest_of k) es in
    record {
      registry = k.0;
      repository = k.1;
      pulls = count (λ e. manifest_of k e && fetched e) es;
      bytes_total = total (λ e. e.bytes) (is_of k) es;
      errors = count (λ e. is_of k e && has_failed e) es;
      tag_count = length (
          distinct str_eq (
            map (λ e. e.reference)
              (select (λ e. manifest_of k e && not (is_empty e.reference)) es)));
      last_pull_ts = max_ts manifests;
      first_pull_ts = min_ts manifests;
      last_reference = first_reference (order_by (λ e. e.ts) (λ e. 0) manifests);
    }

abbrev pub image_rows : List Event → Str → Str → List ImageSummary
image_rows es q registry = group_by same_repo image_of (image_row es) (listed q registry) es

-- The rows in the order of the last pull.
unfoldable pub images : List Event → Str → Str → List ImageSummary
images es q registry = order_by (λ r. r.last_pull_ts) (λ r. 0) (image_rows es q registry)

-- The `COUNT(*)` over the grouped repositories.
unfoldable pub image_count : List Event → Str → Str → ℕ
image_count es q registry =
    length (distinct same_repo (map image_of (select (listed q registry) es)))

abbrev pub offset_of : ℤ → ℕ
offset_of z = if ltb_ℤ z (pos 0) then 0 else pos_part z

unfoldable pub list_images : Tables → Bool → Str → Str → ℤ → ℤ → Option (List ImageSummary × ℕ)
list_images t up q registry limit offset =
    let q1 = trim_space q in
    let registry1 = trim_space registry in
    if not up
    then none
    else some (
      take (limited 50 200 limit) (drop (offset_of offset) (images t.events q1 registry1)),
      image_count t.events q1 registry1,
    )

-- The bytes of texts in order, for `ORDER BY registry ASC`.
abbrev pub leb_text : Str → Str → Bool
leb_text [] t = true
leb_text (a ∷ s) [] = false
leb_text (a ∷ s) (b ∷ t) = ltb a b || (a == b && leb_text s t)

unfoldable pub insert_text : Str → List Str → List Str
insert_text s [] = s ∷ []
insert_text s (t ∷ ts) =
    let rest = insert_text s ts in if leb_text s t then s ∷ (t ∷ ts) else t ∷ rest

unfoldable pub sorted_texts : List Str → List Str
sorted_texts [] = []
sorted_texts (s ∷ ss) = insert_text s (sorted_texts ss)

unfoldable pub list_image_registries : Tables → Bool → Option (List Str)
list_image_registries t up =
    let rows = select (λ e. is_manifest e.event_type && not (is_empty e.registry)) t.events in
    if not up then none else some (sorted_texts (distinct str_eq (map (λ e. e.registry) rows)))

abbrev pub tag_row : List Event → Str × Str → Str → ImageTagStat
tag_row es k reference =
    let own : Event → Bool = λ e. manifest_of k e && str_eq e.reference reference in
    let rows = select own es in
    record {
      reference = reference;
      pulls = count (λ e. own e && fetched e) es;
      bytes_total = total (λ e. e.bytes) own es;
      errors = count (λ e. own e && has_failed e) es;
      last_pull_ts = max_ts rows;
      first_pull_ts = min_ts rows;
    }

unfoldable pub list_image_tags : Tables → Bool → Str → Str → Option (List ImageTagStat)
list_image_tags t up registry repository =
    let k : Str × Str = (trim_space registry, trim_space repository) in
    if is_empty k.0 || is_empty k.1
    then none
    else if not up
    then none
    else some (
        order_by (λ r. r.last_pull_ts) (λ r. 0)
          (group_by str_eq (λ e. e.reference) (tag_row t.events k) (manifest_of k) t.events))

-- `byDay[d]`: a later row of the day would take the place of an earlier one.
unfoldable pub by_day : ℕ → DayPoint → List DailyStat → DayPoint
by_day d p [] = p
by_day d p (r ∷ rows) =
    by_day d
      (if r.day == d
        then record { day = r.day; pulls = r.pulls; bytes_total = r.bytes_total; errors = r.errors }
        else p)
      rows

abbrev pub image_series : Tables → Str → Str → Range → List DayPoint
image_series t registry repository g =
    let rows =
      select
        (λ r. str_eq r.registry registry && (str_eq r.repository repository && in_days g r.day))
        t.daily in
    map (λ d. by_day d (zeros d) rows) (days_from g.from_day g.days)

unfoldable pub image_analytics : Tables → Bool → ℕ → Str → Str → Str → Option (List DayPoint)
image_analytics t up now registry repository range =
    if not up then none else with_range (image_series t registry repository) (parse_range range now)
