-- ===== src/Store/Images/Paging.antt =====
-- The pages of `ListImages`.
use easy_docker_proxy.Base.{
  ℕ, zero, suc, ◌+◌, ◌≤◌, ◌≡◌, refl, sym, ap, ◌∙◌, true, List, [], ◌∷◌, ◌++◌, some, Str, take, drop,
  length, map, trim_space, arith,
}
use easy_docker_proxy.Base.Int.{pos}
use easy_docker_proxy.Store.Sql.{limited, group_by, order_by}
use easy_docker_proxy.Store.Sql.Totals.{sum_over, sum_over-order_by}
use easy_docker_proxy.Store.Stats.{Tables}
use easy_docker_proxy.Store.Images.{
  ImageSummary, images, image_rows, image_row, image_count, list_images, offset_of,
}

module _ {A : Type 0} where
  take-append : (n m : ℕ) (xs : List A) → take n xs ++ take m (drop n xs) ≡ take (n + m) xs
  take-append zero m xs = let e : m ≡ 0 + m = omega arith in ap (λ i. take i xs) e
  take-append (suc n) m [] =
      let e : suc (n + m) ≡ suc n + m = omega arith in ends m ∙ ap (λ i. take i []) e
    where
      ends : (m : ℕ) → take m [] ≡ take {A = A} (suc (n + m)) []
      ends zero = refl
      ends (suc m) = refl
  take-append (suc n) m (x ∷ xs) =
      let e : suc (n + m) ≡ suc n + m = omega arith in
      ap (◌∷◌ x) (take-append n m xs) ∙ ap (λ i. take i (x ∷ xs)) e

  drop-drop : (k n : ℕ) (xs : List A) → drop n (drop k xs) ≡ drop (k + n) xs
  drop-drop zero n xs = let e : n ≡ 0 + n = omega arith in ap (λ i. drop i xs) e
  drop-drop (suc k) n [] =
      let e : suc (k + n) ≡ suc k + n = omega arith in ends n ∙ ap (λ i. drop i []) e
    where
      ends : (n : ℕ) → drop n [] ≡ drop {A = A} (suc (k + n)) []
      ends zero = refl
      ends (suc n) = refl
  drop-drop (suc k) n (x ∷ xs) =
      let e : suc (k + n) ≡ suc k + n = omega arith in
      drop-drop k n xs ∙ ap (λ i. drop i (x ∷ xs)) e

  pages :
      (n m k : ℕ) (xs : List A)
      → take n (drop k xs) ++ take m (drop (k + n) xs) ≡ take (n + m) (drop k xs)
  pages n m k xs =
      ap (λ ys. take n (drop k xs) ++ take m ys) (sym (drop-drop k n xs))
      ∙ take-append n m (drop k xs)

  length-map : {B : Type 0} (f : A → B) (xs : List A) → length (map f xs) ≡ length xs
  length-map f [] = refl
  length-map f (x ∷ xs) = ap (λ n. suc n) (length-map f xs)

  -- The number of elements as a sum.
  length-sum : (xs : List A) → sum_over (λ x. 1) xs ≡ length xs
  length-sum [] = refl
  length-sum (x ∷ xs) = omega (arith, length-sum xs)

  pub length-order_by : (f g : A → ℕ) (xs : List A) → length (order_by f g xs) ≡ length xs
  length-order_by f g xs =
      sym (length-sum (order_by f g xs)) ∙ (sum_over-order_by f g (λ x. 1) xs ∙ length-sum xs)

limited-pos : (d cap n : ℕ) → 1 ≤ n → n ≤ cap → limited d cap (pos n) ≡ n
unfolding limited
limited-pos d cap n lo hi = ground (arith, lo, hi)

offset_of-pos : (k : ℕ) → offset_of (pos k) ≡ k
offset_of-pos k = ground arith

abbrev page : Tables → Str → Str → ℕ → ℕ → List ImageSummary
page t q registry n k = take n (drop k (images t.events (trim_space q) (trim_space registry)))

-- The number of all the images that the conditions pick.
abbrev pub total_images : Tables → Str → Str → ℕ
total_images t q registry = length (images t.events (trim_space q) (trim_space registry))

image_count-images :
    (t : Tables) (q registry : Str)
    → image_count t.events q registry ≡ length (images t.events q registry)
unfolding image_count images group_by
image_count-images t q registry =
    sym (length-map (image_row t.events) _)
    ∙ sym (length-order_by (λ r. r.last_pull_ts) (λ r. 0) (image_rows t.events q registry))

whole_page :
    (t : Tables) (q registry : Str) (n k : ℕ)
    → 1 ≤ n
    → n ≤ 200
    → list_images t true q registry (pos n) (pos k)
      ≡ some (page t q registry n k, total_images t q registry)
unfolding list_images
whole_page t q registry n k lo hi =
    rw
      (
        limited-pos 50 200 n lo hi,
        offset_of-pos k,
        image_count-images t (trim_space q) (trim_space registry),
      )
      refl

-- Two pages of a list of images, the second one from where the first one ends, are the page of both
-- lengths, if that is at most the cap of 200; and each comes with the number of all the images.
pub list_images-pages :
    (t : Tables) (q registry : Str) (n m k : ℕ)
    → 1 ≤ n
    → 1 ≤ m
    → n + m ≤ 200
    → (a : List ImageSummary) × (b : List ImageSummary) × (list_images t true q registry
          (pos n)
          (pos k)
        ≡ some (a, total_images t q registry))
      × (list_images t true q registry (pos m) (pos (k + n)) ≡ some (b, total_images t q registry))
      × (list_images t true q registry (pos (n + m)) (pos k)
          ≡ some (a ++ b, total_images t q registry))
list_images-pages t q registry n m k u v w =
    let both = whole_page t q registry (n + m) k (omega (arith, u)) w in
    let split = pages n m k (images t.events (trim_space q) (trim_space registry)) in
    (
      page t q registry n k,
      page t q registry m (k + n),
      whole_page t q registry n k u (omega (arith, w)),
      whole_page t q registry m (k + n) v (omega (arith, w)),
      both ∙ ap (λ xs. some (xs, total_images t q registry)) (sym split),
    )
