-- ===== src/Upstream/Challenge/RoundTrip.antt =====
-- A challenge that is written out is read back.
use mathlib.Core.List.{reverse, reverse-append, reverse-reverse, append_assoc, append-nil}
use easy_docker_proxy.Base.{
  ℕ, ◌≡◌, refl, sym, ap, subst, ◌∙◌, Bool, true, false, [], ◌∷◌, ◌++◌, ltb, ◌==◌, length, Str,
  codes, trim_space, trim_left, is_space, Bool-cases, inl, inr, any, arith,
}
use easy_docker_proxy.Upstream.Challenge.{
  Challenge, Scan, commit, scan_byte, scan, nothing, first_scan, last_commit,
  parse_bearer_challenge,
}

-- A value that may stand between quotes: it holds none, and has no blanks at its ends.
pub record IsValue (v : Str) : Type 0 where
  pub unquoted : any (λ c. c == b'"') v ≡ false
  pub trimmed : trim_space v ≡ v

scan_byte-quoted :
    (k w : Str) (c : ℕ) (e : Bool) (f : Challenge)
    → (c == b'"') ≡ false
    → scan_byte (record { key = k; val = w; in_quote = true; expect_val = e; found = f }) c
      ≡ record { key = k; val = w ++ c ∷ []; in_quote = true; expect_val = e; found = f }
scan_byte-quoted k w c e f h = rw h refl

-- Between quotes every byte goes to the value.
scan-quoted :
    (k w v rest : Str) (e : Bool) (f : Challenge)
    → any (λ c. c == b'"') v ≡ false
    → scan (record { key = k; val = w; in_quote = true; expect_val = e; found = f }) (v ++ rest)
      ≡ scan (record { key = k; val = w ++ v; in_quote = true; expect_val = e; found = f }) rest
scan-quoted k w [] rest e f h =
    ap (λ u. scan (record { key = k; val = u; in_quote = true; expect_val = e; found = f }) rest)
      (sym (append-nil w))
scan-quoted k w (c ∷ v) rest e f h = elim (Bool-cases (c == b'"')) [
  | inl y ↦ absurd (ground (arith, y, h))
  | inr n ↦
      ap (λ s. scan s (v ++ rest)) (scan_byte-quoted k w c e f n)
      ∙ scan-quoted k (w ++ c ∷ []) v rest e f (ground (arith, n, h))
      ∙ (ap
          (λ u. scan (record { key = k; val = u; in_quote = true; expect_val = e; found = f }) rest)
          (append_assoc w (c ∷ []) v))
]

keys :
    (trim_space (codes "realm") ≡ codes "realm")
    × (trim_space (codes "service") ≡ codes "service")
    × (trim_space (codes "scope") ≡ codes "scope")
unfolding trim_space
keys = (refl, refl, refl)

-- `key="value"` up to the closing quote, read from an empty pair of builders.
abbrev at_end : Str → Str → Challenge → Scan
at_end k v f = record { key = k; val = v; in_quote = false; expect_val = true; found = f }

abbrev at_start : Challenge → Scan
at_start f = record { key = []; val = []; in_quote = false; expect_val = false; found = f }

scan-value :
    (k v rest : Str) (f : Challenge)
    → IsValue v
    → scan
        (record { key = k; val = []; in_quote = false; expect_val = false; found = f })
        (b'=' ∷ b'"' ∷ v ++ b'"' ∷ rest)
      ≡ scan (at_end k v f) rest
scan-value k v rest f h = scan-quoted k [] v (b'"' ∷ rest) true f h.unquoted

commit-realm :
    (v : Str) (f : Challenge)
    → IsValue v
    → commit (at_end (codes "realm") v f) ≡ at_start (record f { realm = v })
unfolding commit
commit-realm v f h = rw (keys.0, h.trimmed) refl

commit-service :
    (v : Str) (f : Challenge)
    → IsValue v
    → commit (at_end (codes "service") v f) ≡ at_start (record f { service = v })
unfolding commit
commit-service v f h = rw (keys.1, h.trimmed) refl

commit-scope :
    (v : Str) (f : Challenge)
    → IsValue v
    → commit (at_end (codes "scope") v f) ≡ at_start (record f { scope = v })
unfolding commit
commit-scope v f h = rw (keys.2, h.trimmed) refl

-- The three fields, read one after the other.
scan-fields :
    (a b c : Str)
    → IsValue a
    → IsValue b
    → IsValue c
    → last_commit (
        scan first_scan (
          codes "realm=\""
          ++ (a ++ (codes "\",service=\"" ++ (b ++ (codes "\",scope=\"" ++ (c ++ codes "\"")))))))
      ≡ record { realm = a; service = b; scope = c }
scan-fields a b c ha hb hc =
    let f₁ : Challenge = record { realm = a; service = []; scope = [] } in
    let f₂ : Challenge = record { realm = a; service = b; scope = [] } in
    let tail₂ = codes ",scope=\"" ++ (c ++ codes "\"") in
    let tail₁ = codes ",service=\"" ++ (b ++ b'"' ∷ tail₂) in
    ap last_commit (
      scan-value (codes "realm") a tail₁ nothing ha
      ∙ ap (λ s. scan s (codes "service=\"" ++ (b ++ b'"' ∷ tail₂))) (commit-realm a nothing ha)
      ∙ scan-value (codes "service") b tail₂ f₁ hb
      ∙ ap (λ s. scan s (codes "scope=\"" ++ (c ++ codes "\""))) (commit-service b f₁ hb)
      ∙ scan-value (codes "scope") c [] f₂ hc)
    ∙ ap (λ (s : Scan). s.found) (commit-scope c f₂ hc)

trim_space-kept : (s : Str) → trim_space (b'B' ∷ s ++ b'"' ∷ []) ≡ b'B' ∷ s ++ b'"' ∷ []
unfolding trim_space
trim_space-kept s =
    let turned = reverse-append (b'B' ∷ s) (b'"' ∷ []) in
    ap (λ x. reverse (trim_left is_space x)) turned
    ∙ ap reverse (sym turned)
    ∙ reverse-reverse (b'B' ∷ s ++ b'"' ∷ [])

-- The fields of a challenge as registries write them.
abbrev pub fields : Challenge → Str
fields c =
    codes "realm=\""
    ++ (c.realm
        ++ (codes "\",service=\""
            ++ (c.service ++ (codes "\",scope=\"" ++ (c.scope ++ codes "\"")))))

trim_space-fields :
    (c : Challenge) → trim_space (codes "Bearer " ++ fields c) ≡ codes "Bearer " ++ fields c
trim_space-fields c =
    let q = codes "\"" in
    let third = codes "\",scope=\"" ++ c.scope in
    let second = codes "\",service=\"" ++ (c.service ++ third) in
    let e : (codes "earer realm=\"" ++ (c.realm ++ second)) ++ q
        ≡ codes "earer realm=\""
          ++ (c.realm ++ (codes "\",service=\"" ++ (c.service ++ (third ++ q)))) =
      ap (λ t. codes "earer realm=\"" ++ t)
        (append_assoc c.realm second q
          ∙ ap (λ t. c.realm ++ (codes "\",service=\"" ++ t)) (append_assoc c.service third q)) in
    subst (λ t. trim_space (b'B' ∷ t) ≡ b'B' ∷ t) e
      (trim_space-kept (codes "earer realm=\"" ++ (c.realm ++ second)))

-- A Bearer challenge with its three fields in quotes, whose values hold no quote and have no blanks
-- at their ends, is read as these values.
pub parse_bearer_challenge-fields :
    (c : Challenge)
    → IsValue c.realm
    → IsValue c.service
    → IsValue c.scope
    → parse_bearer_challenge (codes "Bearer " ++ fields c) ≡ c
unfolding parse_bearer_challenge
parse_bearer_challenge-fields c a b d =
    let long : ltb (length (codes "Bearer " ++ fields c)) 7 ≡ false = ground arith in
    rw (trim_space-fields c, long) (scan-fields c.realm c.service c.scope a b d)
