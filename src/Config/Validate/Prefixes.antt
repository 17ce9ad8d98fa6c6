-- ===== src/Config/Validate/Prefixes.antt =====
-- An accepted configuration has each path prefix once.
use easy_docker_proxy.Base.{
  ◌≡◌, ◌≢◌, refl, subst, Bool, true, false, not, List, [], ◌∷◌, ◌++◌, Option, none, some, In, head,
  tail, In-append, inl, inr, Bool-cases, Str, str_eq, str_eq_refl, is_empty, Dict, empty, insert,
}
use easy_docker_proxy.Config.{RegistryConfig, Config}
use easy_docker_proxy.Config.Validate.{
  Error, Result, ok, err, Url, clean_path_prefix, is_set, with_prefix, claim_prefixes, unless,
  stored, check_before, check_after, check_registry, with_registry, check_registries,
  next_registries, check_rest, finish, validate, guard, no_registries, no_registry, ◌then_check◌,
  validate_access_control, check_rules,
}

abbrev pub Distinct : List Str → Type 0
Distinct [] = Unit
Distinct (p ∷ ps) = (¬ In p ps) × Distinct ps

-- The prefixes that were claimed between two states of the owners.
record Claimed (before after : Dict Str) (ps : List Str) : Type 0 where
  distinct : Distinct ps
  free : (q : Str) → In q ps → before q ≡ none
  older : (q : Str) → after q ≡ none → before q ≡ none
  taken : (q : Str) → In q ps → after q ≢ none

nothing-Claimed : (d : Dict Str) → Claimed d d []
nothing-Claimed d = record {
  distinct = _;
  free = λ q i. elim i [ ];
  older = λ q e. e;
  taken = λ q i. elim i [ ];
}

insert-Claimed : (d : Dict Str) (p name : Str) → d p ≡ none → Claimed d (insert p name d) (p ∷ [])
insert-Claimed d p name e = record {
  distinct = (λ i. elim i [ ], _);
  free = λ q i. at q i;
  older = λ q f. older q f;
  taken = λ q i f. taken q i f;
}
  where
    at : (q : Str) → In q (p ∷ []) → d q ≡ none
    at q (head h) = rw h e
    at q (tail i) = elim i [ ]

    older : (q : Str) → insert p name d q ≡ none → d q ≡ none
    older q f = elim (Bool-cases (str_eq p q)) [
      | inl y ↦ let k : some name ≡ none = rw y at f in cc
      | inr n ↦ rw n at f
    ]

    taken : (q : Str) → In q (p ∷ []) → insert p name d q ≢ none
    taken q (head h) f = let k : some name ≡ none = rw (h, str_eq_refl p) at f in cc
    taken q (tail i) f = elim i [ ]

Distinct-append :
    (xs ys : List Str)
    → Distinct xs
    → Distinct ys
    → ((q : Str) → In q xs → ¬ In q ys)
    → Distinct (xs ++ ys)
Distinct-append [] ys v w apart = w
Distinct-append (x ∷ xs) ys v w apart = (
  λ i. elim (In-append xs ys i) [ inl j ↦ v.0 j | inr j ↦ apart x (head refl) j ],
  Distinct-append xs ys v.1 w (λ q i. apart q (tail i)),
)

Claimed-append :
    {a b c : Dict Str} {xs ys : List Str} → Claimed a b xs → Claimed b c ys → Claimed a c (xs ++ ys)
Claimed-append {a} {b} {c} {xs} {ys} v w = record {
  distinct = Distinct-append xs ys v.distinct w.distinct (λ q i j. v.taken q i (w.free q j));
  free = λ q i. elim (In-append xs ys i) [ inl j ↦ v.free q j | inr j ↦ v.older q (w.free q j) ];
  older = λ q e. v.older q (w.older q e);
  taken = λ q i e. elim (In-append xs ys i) [
    | inl j ↦ v.taken q j (w.older q e)
    | inr j ↦ w.taken q j e
  ];
}

-- The path prefixes of a list of registries, in order.
abbrev pub all_prefixes : List RegistryConfig → List Str
all_prefixes [] = []
all_prefixes (r ∷ regs) = r.path_prefixes ++ all_prefixes regs

-- What a result says of the prefixes that led to it.
abbrev Claims : Dict Str → Result (Dict Str × List Str) → Type 0
Claims owners (err e) = Unit
Claims owners (ok x) = Claimed owners x.0 x.1

with_prefix-Claims :
    (owners : Dict Str) (p name : Str) (r : Result (Dict Str × List Str))
    → owners p ≡ none
    → Claims (insert p name owners) r
    → Claims owners (with_prefix p r)
with_prefix-Claims owners p name (err e) f v = _
with_prefix-Claims owners p name (ok x) f v = Claimed-append (insert-Claimed owners p name f) v

not_set : (o : Option Str) → is_set o ≡ false → o ≡ none
not_set none h = refl
not_set (some x) h = cc

claim_prefixes-Claims :
    (name : Str) (owners : Dict Str) (ps : List Str) → Claims owners (claim_prefixes name owners ps)
unfolding claim_prefixes
claim_prefixes-Claims name owners [] = nothing-Claimed owners
claim_prefixes-Claims name owners (raw ∷ ps) =
    let p = clean_path_prefix raw in
    elim (Bool-cases (is_empty p)) [
      | inl y ↦ rw y _
      | inr n ↦ elim (Bool-cases (is_set (owners p))) [
        | inl y ↦ rw (n, y) _
        | inr m ↦
            rw (n, m)
              (with_prefix-Claims owners p name _ (not_set (owners p) m)
                (claim_prefixes-Claims name (insert p name owners) ps))
      ]
    ]

abbrev RegistryClaims : Dict Str → Result (Dict Str × RegistryConfig) → Type 0
RegistryClaims owners (err e) = Unit
RegistryClaims owners (ok x) = Claimed owners x.0 x.1.path_prefixes

stored-RegistryClaims :
    (owners : Dict Str) (r : RegistryConfig) (o : Option Error) (x : Result (Dict Str × List Str))
    → Claims owners x
    → RegistryClaims owners (stored r o x)
stored-RegistryClaims owners r o (err e) v = _
stored-RegistryClaims owners r none (ok x) v = v
stored-RegistryClaims owners r (some e) (ok x) v = _

check_registry-Claims :
    (parse : Str → Option Url) (cfg : Config) (names : Dict Bool) (owners : Dict Str)
    (r : RegistryConfig)
    → RegistryClaims owners (check_registry parse cfg names owners r)
unfolding check_registry
check_registry-Claims parse cfg names owners r = at _ (check_before names r) (
    stored-RegistryClaims owners r (check_after parse cfg r) _
      (claim_prefixes-Claims r.name owners r.path_prefixes))
  where
    at :
        (x : Result (Dict Str × RegistryConfig)) (o : Option Error)
        → RegistryClaims owners x
        → RegistryClaims owners (unless o x)
    at x none v = v
    at x (some e) v = _

abbrev RegistriesClaims : Dict Str → Result (Dict Bool × List RegistryConfig) → Type 0
RegistriesClaims owners (err e) = Unit
RegistriesClaims owners (ok x) = (after : Dict Str) × Claimed owners after (all_prefixes x.1)

with_registry-Claims :
    {owners between : Dict Str} (r : RegistryConfig) (x : Result (Dict Bool × List RegistryConfig))
    → Claimed owners between r.path_prefixes
    → RegistriesClaims between x
    → RegistriesClaims owners (with_registry r x)
with_registry-Claims r (err e) v w = _
with_registry-Claims r (ok x) v w = (w.0, Claimed-append v w.1)

next_registries-Claims :
    (owners : Dict Str) (x : Result (Dict Str × RegistryConfig))
    (rest : Dict Str → Result (Dict Bool × List RegistryConfig))
    → RegistryClaims owners x
    → ((later : Dict Str) → RegistriesClaims later (rest later))
    → RegistriesClaims owners (next_registries x rest)
next_registries-Claims owners (err e) rest v w = _
next_registries-Claims owners (ok x) rest v w = with_registry-Claims x.1 (rest x.0) v (w x.0)

check_registries-Claims :
    (parse : Str → Option Url) (cfg : Config) (names : Dict Bool) (owners : Dict Str)
    (regs : List RegistryConfig)
    → RegistriesClaims owners (check_registries parse cfg names owners regs)
unfolding check_registries
check_registries-Claims parse cfg names owners [] = (owners, nothing-Claimed owners)
check_registries-Claims parse cfg names owners (r ∷ regs) =
    next_registries-Claims owners (check_registry parse cfg names owners r) _
      (check_registry-Claims parse cfg names owners r)
      (λ later. check_registries-Claims parse cfg (insert r.name true names) later regs)

abbrev ConfigDistinct : Result Config → Type 0
ConfigDistinct (err e) = Unit
ConfigDistinct (ok cfg) = Distinct (all_prefixes cfg.registries)

finish-Distinct :
    (env : Str → Str) (cfg : Config) (x : Result (Dict Bool × List RegistryConfig))
    → RegistriesClaims empty x
    → ConfigDistinct (finish env cfg x)
finish-Distinct env cfg (err e) v = _
finish-Distinct env cfg (ok x) v = at (check_rest env cfg x.0)
  where
    at : (o : Option Error) → ConfigDistinct (unless o (ok (record cfg { registries = x.1 })))
    at none = v.1.distinct
    at (some e) = _

-- A configuration that `Validate` accepts, as it leaves it, has no path prefix twice, within one
-- registry or in two, whatever `url.Parse` and the environment answer.
pub validate-Distinct :
    (parse : Str → Option Url) (env : Str → Str) (cfg accepted : Config)
    → validate parse env cfg ≡ ok accepted
    → Distinct (all_prefixes accepted.registries)
unfolding validate
validate-Distinct parse env cfg accepted e = subst ConfigDistinct e (
    at (
      guard (not (no_registries cfg.registries)) no_registry
      then_check validate_access_control cfg.access_control
      then_check check_rules cfg.trusted_proxies))
  where
    at :
        (o : Option Error)
        → ConfigDistinct
            (unless o (finish env cfg (check_registries parse cfg empty empty cfg.registries)))
    at none =
        finish-Distinct env cfg _ (check_registries-Claims parse cfg empty empty cfg.registries)
    at (some e) = _
