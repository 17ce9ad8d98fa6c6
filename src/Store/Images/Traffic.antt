-- ===== src/Store/Images/Traffic.antt =====
-- The list of images against the events and the daily sums, and the tags against their image.
use easy_docker_proxy.Base.{◌≡◌, ◌≢◌, ◌⊎◌, true, List, [], Str, trim_space, In}
use easy_docker_proxy.Record.Event.{Event, manifest}
use easy_docker_proxy.Store.Sql.Order.{Pairs, Ahead}
use easy_docker_proxy.Store.Stats.{Tables, DailyStat}
use easy_docker_proxy.Store.Stats.Sums.{Pick, picks, total}
use easy_docker_proxy.Store.Stats.Agree.{Agree}
use easy_docker_proxy.Store.Stats.Queries.{same_repo}
use easy_docker_proxy.Store.Images.{ImageSummary, image_of, image_row, has_text}

-- The rows of an image, of any day.
abbrev pub any_day : Str × Str → Pick
any_day k day reg repo = same_repo (reg, repo) k

abbrev pub name_of : ImageSummary → Str × Str
name_of r = (r.registry, r.repository)

-- A manifest, of the registry and with the text that are asked for, if any.
abbrev pub Picked : Str → Str → Event → Type 0
Picked q registry e =
    (e.event_type ≡ manifest)
    × (((registry ≡ []) ⊎ (e.registry ≡ registry))
        × ((q ≡ [])
            ⊎ ((has_text q e.repository ≡ true)
                ⊎ ((has_text q e.registry ≡ true) ⊎ (has_text q e.reference ≡ true)))))

-- What the dashboard's rows say of an image.
abbrev pub Traffic : List DailyStat → ImageSummary → Type 0
Traffic daily r =
    (r.bytes_total ≡ total (λ d. d.bytes_total) (picks (any_day (name_of r))) daily)
    × (r.pulls ≡ total (λ d. d.pulls) (picks (any_day (name_of r))) daily)

-- Each image that the conditions pick is there once, the latest first, with its own numbers, and
-- these are the numbers of the daily rows.
pub record AreImages (q registry : Str) (t : Tables) (rs : List ImageSummary) : Type 0 where
  pub ordered : Pairs (Ahead (λ r. r.last_pull_ts) (λ r. 0)) rs
  pub once : Pairs (λ a b. name_of a ≢ name_of b) rs
  pub complete :
      (e : Event) → In e t.events → Picked q registry e → In (image_row t.events (image_of e)) rs
  pub sound :
      (r : ImageSummary)
      → In r rs
      → (e : Event) × In e t.events × Picked q registry e × (image_of e ≡ name_of r)
  pub traffic : (r : ImageSummary) → In r rs → Traffic t.daily r

-- The method has no blanks around it.
abbrev pub IsTrimmed : Event → Type 0
IsTrimmed e = trim_space e.method ≡ e.method

abbrev Source : Str → Str → Tables → ImageSummary → Type 0
Source q registry t r = (e : Event) × In e t.events × Picked q registry e × (image_of e ≡ name_of r)
