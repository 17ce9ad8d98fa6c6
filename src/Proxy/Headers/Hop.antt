-- ===== src/Proxy/Headers/Hop.antt =====
-- Which fields are left when hop-by-hop fields are removed.
use easy_docker_proxy.Base.{
  ◌≡◌, refl, sym, ap, ◌∙◌, Bool, true, false, not, ◌&&◌, ◌||◌, List, [], ◌∷◌, ◌++◌, Str, codes,
  to_lower, str_eq, str_eq_iff, str_eq_refl, equal_fold, any, select, Bool-cases, inl, inr, arith,
}
use easy_docker_proxy.Proxy.Request.{Header, get, delete}
use easy_docker_proxy.Proxy.Headers.{hop_headers, delete_all, connection_names, remove_hop_by_hop}

-- Whether there is a field of this name.
abbrev pub has : Header → Str → Bool
has h k = any (λ (f : Str × Str). equal_fold f.0 k) h

equal_fold-same : (a j k : Str) → equal_fold a j ≡ true → equal_fold a k ≡ equal_fold j k
equal_fold-same a j k e =
    ap (λ x. str_eq x (to_lower k)) ((str_eq_iff (to_lower a) (to_lower j)).0 e)

str_eq_sym : (s t : Str) → str_eq s t ≡ str_eq t s
str_eq_sym [] [] = refl
str_eq_sym [] (b ∷ t) = refl
str_eq_sym (a ∷ s) [] = refl
str_eq_sym (a ∷ s) (b ∷ t) = ground (arith, str_eq_sym s t)

module _ {A : Type 0} (p q : A → Bool) (c : Bool) where
  absorb : (b : Bool) → (b && not c) ≡ ((c || b) && not c)
  absorb b = elim (Bool-cases c) [ inl y ↦ rw y (ground arith) | inr n ↦ rw n refl ]

  keeps : (x b : Bool) → (x ≡ true → c ≡ false) → (x || (b && not c)) ≡ ((x || b) && not c)
  keeps true b f = rw (f refl) refl
  keeps false b f = refl

  -- One field, whose test is `b`.
  step :
      (x : A) (b : Bool) (ys xs : List A)
      → any q ys ≡ (any q xs && not c)
      → (b ≡ true → q x ≡ c)
      → (b ≡ false → q x ≡ true → c ≡ false)
      → any q (elim (not b) [ true ↦ x ∷ ys | false ↦ ys ]) ≡ ((q x || any q xs) && not c)
  step x true ys xs r f g = rw (f refl, r) (absorb (any q xs))
  step x false ys xs r f g = rw r (keeps (q x) (any q xs) (g refl))

  any-select :
      (xs : List A)
      → ((x : A) → p x ≡ true → q x ≡ c)
      → ((x : A) → p x ≡ false → q x ≡ true → c ≡ false)
      → any q (select (λ x. not (p x)) xs) ≡ (any q xs && not c)
  any-select [] f g = refl
  any-select (x ∷ xs) f g = step x (p x) _ xs (any-select xs f g) (f x) (g x)

pub has-delete : (h : Header) (j k : Str) → has (delete h j) k ≡ (has h k && not (equal_fold j k))
has-delete h j k =
    any-select (λ (f : Str × Str). equal_fold f.0 j) (λ f. equal_fold f.0 k) (equal_fold j k) h
      (λ f e. equal_fold-same f.0 j k e)
      (λ f n e. str_eq_sym (to_lower j) (to_lower k) ∙ sym (equal_fold-same f.0 k j e) ∙ n)

-- Whether one of the names is `k`.
abbrev pub names_it : List Str → Str → Bool
names_it js k = any (λ j. equal_fold j k) js

without : (b c d : Bool) → ((b && not c) && not d) ≡ (b && not (c || d))
without true true d = refl
without true false d = refl
without false c d = refl

has-delete_all :
    (js : List Str) (h : Header) (k : Str)
    → has (delete_all js h) k ≡ (has h k && not (names_it js k))
has-delete_all [] h k = ground arith
has-delete_all (j ∷ js) h k =
    has-delete_all js (delete h j) k
    ∙ ap (λ b. b && not (names_it js k)) (has-delete h j k)
    ∙ without (has h k) (equal_fold j k) (names_it js k)

-- Removing the hop-by-hop fields leaves a field exactly when the first Connection field does not
-- name it and it is none of the nine fixed ones.
pub has-remove_hop_by_hop :
    (h : Header) (k : Str)
    → has (remove_hop_by_hop h) k ≡ (
        has h k
        && not
            (names_it (connection_names (get h (codes "Connection"))) k || names_it hop_headers k))
unfolding remove_hop_by_hop
has-remove_hop_by_hop h k =
    let names = connection_names (get h (codes "Connection")) in
    has-delete_all hop_headers (delete_all names h) k
    ∙ ap (λ b. b && not (names_it hop_headers k)) (has-delete_all names h k)
    ∙ without (has h k) (names_it names k) (names_it hop_headers k)

pub field_of : (b c : Bool) → (b || c) ≡ false → (b ≡ false) × (c ≡ false)
field_of true c e = cc
field_of false c e = (refl, e)

pub get-append : (h t : Header) (k : Str) → has h k ≡ false → get (h ++ t) k ≡ get t k
get-append [] t k n = refl
get-append ((a, v) ∷ h) t k n =
    let (m, rest) = field_of (equal_fold a k) (has h k) n in rw m (get-append h t k rest)

pub get_lacks : (h : Header) (k : Str) → has h k ≡ false → get h k ≡ []
get_lacks [] k n = refl
get_lacks ((a, v) ∷ h) k n =
    let (m, rest) = field_of (equal_fold a k) (has h k) n in rw m (get_lacks h k rest)

pub lacks-delete : (h : Header) (k : Str) → has (delete h k) k ≡ false
lacks-delete h k = has-delete h k k ∙ rw (str_eq_refl (to_lower k)) (never (has h k))
  where
    never : (b : Bool) → (b && not true) ≡ false
    never true = refl
    never false = refl
