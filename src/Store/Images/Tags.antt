-- ===== src/Store/Images/Tags.antt =====
-- The tags of an image against the image.
use easy_docker_proxy.Base.{
  ℕ, ◌+◌, ◌≡◌, ◌≢◌, refl, sym, ◌∙◌, Bool, true, false, ◌&&◌, List, [], ◌∷◌, some, if◌then◌else◌,
  Str, is_empty, str_eq, str_eq_iff, trim_space, length, select, arith,
}
use easy_docker_proxy.Record.Event.{Event}
use easy_docker_proxy.Store.Sql.{order_by, group_by}
use easy_docker_proxy.Store.Sql.Order.{Pairs, Pairs-order_by, Pairs-reorder, Ahead}
use easy_docker_proxy.Store.Sql.Groups.{keys, keys-Once, row-In-keys, group_by-Once}
use easy_docker_proxy.Store.Sql.Totals.{
  sum_over, sum_over-total, sum_over-map, sum_over-order_by, same_sum,
}
use easy_docker_proxy.Store.Stats.{Tables}
use easy_docker_proxy.Store.Stats.Sums.{total}
use easy_docker_proxy.Store.Images.{
  ImageTagStat, fetched, manifest_of, count, image_row, tag_row, list_image_tags,
}

count-total :
    (p q : Event → Bool) (es : List Event)
    → count (λ e. p e && q e) es ≡ total (λ e. if q e then 1 else 0) p es
count-total p q [] = refl
count-total p q (e ∷ es) = counted (p e) (q e) (count-total p q es)
  where
    counted :
        (b c : Bool)
        → count (λ e. p e && q e) es ≡ total (λ e. if q e then 1 else 0) p es
        → length (elim (b && c) [
          | true ↦ e ∷ select (λ e. p e && q e) es
          | false ↦ select (λ e. p e && q e) es
        ])
          ≡ (if b then (if c then 1 else 0) else 0) + total (λ e. if q e then 1 else 0) p es
    counted true true h = omega (arith, h)
    counted true false h = omega (arith, h)
    counted false c h = omega (arith, h)

abbrev tag_rows : Tables → Str × Str → List ImageTagStat
tag_rows t k = group_by str_eq (λ e. e.reference) (tag_row t.events k) (manifest_of k) t.events

abbrev tags : Tables → Str × Str → List ImageTagStat
tags t k = order_by (λ r. r.last_pull_ts) (λ r. 0) (tag_rows t k)

tag_rows-pulls :
    (t : Tables) (k : Str × Str)
    → sum_over (λ r. r.pulls) (tag_rows t k) ≡ (image_row t.events k).pulls
unfolding group_by image_row
tag_rows-pulls t k =
    let ks : List Str =
      keys str_eq str_eq_iff (λ e. e.reference) (tag_row t.events k) (manifest_of k) t.events in
    let own : Str → Event → Bool = λ ref e. manifest_of k e && str_eq e.reference ref in
    let one : Event → ℕ = λ e. if fetched e then 1 else 0 in
    sum_over-map (λ r. r.pulls) (tag_row t.events k) ks
    ∙ (same_sum (λ ref. (tag_row t.events k ref).pulls) (λ ref. total one (own ref) t.events) ks
          (λ ref. count-total (own ref) fetched t.events)
        ∙ (sum_over-total str_eq str_eq_iff one (λ e. e.reference) (manifest_of k) t.events ks
              (keys-Once str_eq str_eq_iff (λ e. e.reference) (tag_row t.events k) (manifest_of k)
                t.events)
              (row-In-keys str_eq str_eq_iff (λ e. e.reference) (tag_row t.events k) (manifest_of k)
                t.events)
            ∙ sym (count-total (manifest_of k) fetched t.events)))

-- The tags of an image that is named are there once each, the latest first, and their pulls add up
-- to those of the image.
pub list_image_tags-adds :
    (t : Tables) (registry repository : Str)
    → is_empty (trim_space registry) ≡ false
    → is_empty (trim_space repository) ≡ false
    → (out : List ImageTagStat) × (list_image_tags t true registry repository ≡ some out)
      × Pairs (Ahead (λ r. r.last_pull_ts) (λ r. 0)) out
      × Pairs (λ a b. a.reference ≢ b.reference) out
      × (sum_over (λ r. r.pulls) out
          ≡ (image_row t.events (trim_space registry, trim_space repository)).pulls)
unfolding list_image_tags
list_image_tags-adds t registry repository u v =
    let k : Str × Str = (trim_space registry, trim_space repository) in
    (
      tags t k,
      rw (u, v) refl,
      Pairs-order_by (λ r. r.last_pull_ts) (λ r. 0) (tag_rows t k),
      Pairs-reorder (λ r. r.last_pull_ts) (λ r. 0) (λ a b. a.reference ≢ b.reference) (tag_rows t k)
          (λ x y n e. n (sym e))
          (group_by-Once str_eq str_eq_iff (λ e. e.reference) (tag_row t.events k) (manifest_of k)
            (λ r. r.reference) t.events (λ k. refl)),
      sum_over-order_by (λ r. r.last_pull_ts) (λ r. 0) (λ r. r.pulls) (tag_rows t k)
          ∙ tag_rows-pulls t k,
    )
