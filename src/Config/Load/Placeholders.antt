-- ===== src/Config/Load/Placeholders.antt =====
-- `ExpandEnv` on a text with a placeholder.
use mathlib.Core.List.{append_assoc}
use easy_docker_proxy.Base.{
  ℕ, ◌+◌, ◌-◌, ◌≡◌, ◌≢◌, ◌⊎◌, inl, inr, refl, ap, ◌∙◌, Bool, true, false, not, ◌&&◌, [], ◌∷◌, ◌++◌,
  Option, none, some, all, length, length-append, cut, ◌==◌, Str, arith,
}
use easy_docker_proxy.Config.Load.{
  is_name_byte, span_name, starts_name, placeholder, value_of, expand, expanded, expand_env,
}

-- The bytes of a name, which begins with a letter or an underscore.
abbrev pub is_name : Str → Bool
is_name s = starts_name s && all is_name_byte s

abbrev pub lacks : ℕ → Str → Bool
lacks b s = all (λ c. not (c == b)) s

not_dollar : (c : ℕ) (s : Str) → not (c == b'$') ≡ true → placeholder (c ∷ s) ≡ none
unfolding placeholder
not_dollar c [] h = refl
not_dollar c (x ∷ s) h = let n : (c == b'$') ≡ false = ground (arith, h) in rw n refl

expand-append :
    (lookup : Str → Option Str) (front s : Str)
    → lacks b'$' front ≡ true
    → expand lookup 0 (front ++ s) ≡ front ++ expand lookup 0 s
unfolding expand
expand-append lookup [] s h = refl
expand-append lookup (c ∷ front) s h =
    let first : not (c == b'$') ≡ true = ground (arith, h) in
    let rest : lacks b'$' front ≡ true = ground (arith, h) in
    rw (not_dollar c (front ++ s) first) (ap (◌∷◌ c) (expand-append lookup front s rest))

expand_skips :
    (lookup : Str → Option Str) (w s : Str) → expand lookup (length w) (w ++ s) ≡ expand lookup 0 s
unfolding expand
expand_skips lookup [] s = refl
expand_skips lookup (c ∷ w) s = expand_skips lookup w s

span_name-append :
    (name : Str) (c : ℕ) (s : Str)
    → all is_name_byte name ≡ true
    → is_name_byte c ≡ false
    → span_name (name ++ (c ∷ s)) ≡ (name, c ∷ s)
span_name-append [] c s h n = rw n refl
span_name-append (x ∷ name) c s h n =
    let first : is_name_byte x ≡ true = (both (is_name_byte x) (all is_name_byte name) h).0 in
    let rest : all is_name_byte name ≡ true = (both (is_name_byte x) (all is_name_byte name) h).1 in
    rw first (ap (λ (p : Str × Str). (x ∷ p.0, p.1)) (span_name-append name c s rest n))
  where
    both : (b c : Bool) → (b && c) ≡ true → (b ≡ true) × (c ≡ true)
    both true c h = (refl, h)
    both false c h = cc

cut-append :
    (b : ℕ) (d s : Str) → lacks b d ≡ true → (b == b) ≡ true → cut b (d ++ (b ∷ s)) ≡ (d, some s)
cut-append b [] s h e = rw e refl
cut-append b (x ∷ d) s h e =
    let first : (x == b) ≡ false = ground (arith, h) in
    let rest : lacks b d ≡ true = ground (arith, h) in
    rw first (ap (λ (p : Str × Option Str). (x ∷ p.0, p.1)) (cut-append b d s rest e))

starts_name-append : (name s : Str) → starts_name name ≡ true → starts_name (name ++ s) ≡ true
starts_name-append [] s h = cc
starts_name-append (c ∷ name) s h = h

is_name-parts :
    (name : Str) → is_name name ≡ true → (starts_name name ≡ true) × (all is_name_byte name ≡ true)
is_name-parts name h = parts (starts_name name) (all is_name_byte name) h
  where
    parts : (b c : Bool) → (b && c) ≡ true → (b ≡ true) × (c ≡ true)
    parts true c h = (refl, h)
    parts false c h = cc

placeholder-default :
    (name d rest : Str)
    → is_name name ≡ true
    → lacks b'}' d ≡ true
    → placeholder (b'$' ∷ (b'{' ∷ (name ++ (b':' ∷ (b'-' ∷ (d ++ (b'}' ∷ rest)))))))
      ≡ some (record { name = name; default = d; bytes = length name + length d + 5 })
unfolding placeholder
placeholder-default name d rest n h =
    let s : Str = b':' ∷ (b'-' ∷ (d ++ (b'}' ∷ rest))) in
    let parts = is_name-parts name n in
    rw
      (
        starts_name-append name s (parts.0),
        span_name-append name b':' (b'-' ∷ (d ++ (b'}' ∷ rest))) (parts.1) refl,
        cut-append b'}' d rest h refl,
      )
      refl

append_append : (a b c : Str) → a ++ (b ++ c) ≡ (a ++ b) ++ c
append_append a b c = rw append_assoc refl

-- The bytes of a placeholder after the dollar sign.
abbrev inner : Str → Str → Str
inner name d = b'{' ∷ (name ++ (b':' ∷ (b'-' ∷ (d ++ (b'}' ∷ [])))))

inner-append :
    (name d rest : Str)
    → b'{' ∷ (name ++ (b':' ∷ (b'-' ∷ (d ++ (b'}' ∷ rest))))) ≡ inner name d ++ rest
inner-append name d rest =
    ap (λ t. b'{' ∷ t)
      (ap (λ t. name ++ (b':' ∷ (b'-' ∷ t))) (append_append d (b'}' ∷ []) rest)
        ∙ append_append name (b':' ∷ (b'-' ∷ (d ++ (b'}' ∷ [])))) rest)

length-inner : (name d : Str) → length name + length d + 5 - 1 ≡ length (inner name d)
length-inner name d =
    let a = length-append name (b':' ∷ (b'-' ∷ (d ++ (b'}' ∷ [])))) in
    let b = length-append d (b'}' ∷ []) in omega (arith, a, b)

replaced :
    (lookup : Str → Option Str) (name d rest : Str)
    → is_name name ≡ true
    → lacks b'}' d ≡ true
    → expand lookup 0 (b'$' ∷ (b'{' ∷ (name ++ (b':' ∷ (b'-' ∷ (d ++ (b'}' ∷ rest)))))))
      ≡ value_of lookup name d ++ expand lookup 0 rest
unfolding expand
replaced lookup name d rest n h =
    let s : Str = b'{' ∷ (name ++ (b':' ∷ (b'-' ∷ (d ++ (b'}' ∷ rest))))) in
    ap (expanded lookup b'$' (λ skip. expand lookup skip s)) (placeholder-default name d rest n h)
    ∙ ap (λ t. value_of lookup name d ++ t)
        (ap (λ k. expand lookup k s) (length-inner name d)
          ∙ (ap (λ t. expand lookup (length (inner name d)) t) (inner-append name d rest)
              ∙ expand_skips lookup (inner name d) rest))

-- The value of the variable, if it is set and not empty, and the default otherwise.
abbrev pub IsValue : Option Str → Str → Str → Type 0
IsValue o d v = (((o ≡ none) ⊎ (o ≡ some [])) × (v ≡ d)) ⊎ ((o ≡ some v) × (v ≢ []))

value_of-IsValue :
    (lookup : Str → Option Str) (name d : Str) → IsValue (lookup name) d (value_of lookup name d)
value_of-IsValue lookup name d = by (lookup name) refl
  where
    by : (o : Option Str) → lookup name ≡ o → IsValue (lookup name) d (value_of lookup name d)
    by none e = rw e (inl (inl refl, refl))
    by (some []) e = rw e (inl (inr refl, refl))
    by (some (c ∷ v)) e = rw e (inr (refl, λ n. cc))

-- A placeholder `${NAME:-default}` in a text, after a part without a dollar sign, is replaced by
-- the value of the variable if that is set and not empty, and by the default otherwise, and the
-- rest of the text is read on from behind the closing brace.
pub expand_env-placeholder :
    (lookup : Str → Option Str) (front name d rest : Str)
    → lacks b'$' front ≡ true
    → is_name name ≡ true
    → lacks b'}' d ≡ true
    → (v : Str) × IsValue (lookup name) d v
      × (expand_env lookup
            (front ++ (b'$' ∷ (b'{' ∷ (name ++ (b':' ∷ (b'-' ∷ (d ++ (b'}' ∷ rest))))))))
          ≡ front ++ (v ++ expand_env lookup rest))
expand_env-placeholder lookup front name d rest f n h = (
  value_of lookup name d,
  value_of-IsValue lookup name d,
  expand-append lookup front _ f ∙ ap (λ t. front ++ t) (replaced lookup name d rest n h),
)
