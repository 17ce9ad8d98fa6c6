-- ===== src/Store/Sql.antt =====
-- What the queries of internal/store share: `ORDER BY` two descending columns, `SELECT DISTINCT` and
-- `GROUP BY`, and the limits. Rows that the order does not tell apart stay as they were; SQLite
-- leaves that open.
pub mod Order
pub mod Groups
pub mod Totals
pub mod Limits
use easy_docker_proxy.Base.{
  ℕ, ◌+◌, Bool, not, ◌&&◌, ◌||◌, List, [], ◌∷◌, if◌then◌else◌, ltb, leb, ◌==◌, select, map,
}
use easy_docker_proxy.Base.Int.{ℤ, pos, pos_part, ltb_ℤ}

-- The order of two rows by the columns `f` and `g`, the greater ones first.
abbrev pub is_ahead : {A : Type 0} → (A → ℕ) → (A → ℕ) → A → A → Bool
is_ahead f g x y = ltb (f y) (f x) || (f x == f y && leb (g y) (g x))

unfoldable pub insert_ordered : {A : Type 0} → (A → ℕ) → (A → ℕ) → A → List A → List A
insert_ordered f g x [] = x ∷ []
insert_ordered f g x (y ∷ ys) =
    let rest = insert_ordered f g x ys in if is_ahead f g x y then x ∷ (y ∷ ys) else y ∷ rest

unfoldable pub order_by : {A : Type 0} → (A → ℕ) → (A → ℕ) → List A → List A
order_by f g [] = []
order_by f g (x ∷ xs) = insert_ordered f g x (order_by f g xs)

unfoldable pub distinct : {A : Type 0} → (A → A → Bool) → List A → List A
distinct same [] = []
distinct same (x ∷ xs) = x ∷ select (λ y. not (same x y)) (distinct same xs)

-- One row for each key of the rows that pass the test.
unfoldable pub group_by :
    {R K G : Type 0} → (K → K → Bool) → (R → K) → (K → G) → (R → Bool) → List R → List G
group_by same key row p rows = map row (distinct same (map key (select p rows)))

-- A limit from a client: a default where there is none, and a cap.
unfoldable pub limited : ℕ → ℕ → ℤ → ℕ
limited d cap z = let l = if ltb_ℤ (pos 0) z then pos_part z else d in if ltb cap l then cap else l
