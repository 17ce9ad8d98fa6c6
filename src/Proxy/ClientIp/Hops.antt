-- ===== src/Proxy/ClientIp/Hops.antt =====
-- The hop of X-Forwarded-For that `ClientIP` settles on.
use mathlib.Core.List.{reverse, reverse-cons, append-nil}
use easy_docker_proxy.Base.{
  ◌≡◌, refl, sym, ap, ◌∙◌, List, [], ◌∷◌, ◌++◌, Option, none, some, if◌then◌else◌, Str, trim_space,
  split, Bool-cases, inl, inr,
}
use easy_docker_proxy.Net.{IpNet}
use easy_docker_proxy.Proxy.Path.{◌or_else◌}
use easy_docker_proxy.Proxy.Request.{ip_in_nets}
use easy_docker_proxy.Proxy.ClientIp.{
  is_ip, walk_back, left_most, untrusted_or_left, client_ip_from_xff,
}

-- The addresses among the pieces of the header, in order.
abbrev pub hops : List Str → List Str
hops [] = []
hops (raw ∷ parts) =
    let rest = hops parts in let ip = trim_space raw in if is_ip ip then ip ∷ rest else rest

abbrev pub first_untrusted : List IpNet → List Str → Option Str
first_untrusted trusted [] = none
first_untrusted trusted (h ∷ hs) =
    let rest = first_untrusted trusted hs in if ip_in_nets h trusted then rest else some h

abbrev pub first : List Str → Option Str
first [] = none
first (h ∷ hs) = some h

abbrev pub text : Option Str → Str
text none = []
text (some s) = s

pub hops-append : (xs ys : List Str) → hops (xs ++ ys) ≡ hops xs ++ hops ys
hops-append [] ys = refl
hops-append (x ∷ xs) ys = elim (Bool-cases (is_ip (trim_space x))) [
  | inl y ↦ rw y (ap (◌∷◌ (trim_space x)) (hops-append xs ys))
  | inr n ↦ rw n (hops-append xs ys)
]

pub hops-reverse : (parts : List Str) → hops (reverse parts) ≡ reverse (hops parts)
hops-reverse [] = refl
hops-reverse (x ∷ parts) =
    let start = ap hops (reverse-cons x parts) ∙ hops-append (reverse parts) (x ∷ []) in
    let ih = hops-reverse parts in
    elim (Bool-cases (is_ip (trim_space x))) [
      | inl y ↦ start ∙ (rw y (rw ih (sym (reverse-cons (trim_space x) (hops parts)))))
      | inr n ↦ start ∙ (rw n (append-nil (hops (reverse parts)) ∙ ih))
    ]

walk_back_lem :
    (trusted : List IpNet) (parts : List Str) (seen : Str)
    → (walk_back trusted parts seen).0 ≡ first_untrusted trusted (hops parts)
unfolding walk_back
walk_back_lem trusted [] seen = refl
walk_back_lem trusted (raw ∷ parts) seen = elim (Bool-cases (is_ip (trim_space raw))) [
  | inl y ↦ elim (Bool-cases (ip_in_nets (trim_space raw) trusted)) [
    | inl t ↦ rw (y, t) (walk_back_lem trusted parts _)
    | inr u ↦ rw (y, u) refl
  ]
  | inr n ↦ rw n (walk_back_lem trusted parts seen)
]

left_most_lem : (parts : List Str) → left_most parts ≡ first (hops parts)
unfolding left_most
left_most_lem [] = refl
left_most_lem (raw ∷ parts) = elim (Bool-cases (is_ip (trim_space raw))) [
  | inl y ↦ rw y refl
  | inr n ↦ rw n (left_most_lem parts)
]

-- With no address in the header, `firstValid` is what it was.
walk_back-none :
    (trusted : List IpNet) (parts : List Str) (seen : Str)
    → hops parts ≡ []
    → (walk_back trusted parts seen).1 ≡ seen
unfolding walk_back
walk_back-none trusted [] seen h = refl
walk_back-none trusted (raw ∷ parts) seen h = elim (Bool-cases (is_ip (trim_space raw))) [
  | inl y ↦ let k : trim_space raw ∷ hops parts ≡ [] = rw y at h in cc
  | inr n ↦ rw n (walk_back-none trusted parts seen (rw n at h))
]

-- The last hop that is no trusted proxy, or else the first hop.
abbrev pub settled : List IpNet → List Str → Str
settled trusted hs = text (first_untrusted trusted (reverse hs) or_else first hs)

-- The two loops put together; the arguments of the equations are what the loops and the
-- specification see.
settle :
    (trusted : List IpNet) (hs : List Str) (w : Option Str × Str) (left : Option Str)
    → w.0 ≡ first_untrusted trusted (reverse hs)
    → (hs ≡ [] → w.1 ≡ [])
    → left ≡ first hs
    → untrusted_or_left w left ≡ settled trusted hs
settle trusted hs (some ip, v) left a none_left l = rw (← a) refl
settle trusted (h ∷ hs) (none, v) left a none_left l = rw (← a, l) refl
settle trusted [] (none, v) left a none_left l = rw (l) (none_left refl)

-- Of the addresses in X-Forwarded-For, the last one that is no trusted proxy is the client; if all
-- are trusted, the first one is; if there are none, the answer is the empty text.
pub client_ip_from_xff_lem :
    (xff : Str) (trusted : List IpNet)
    → client_ip_from_xff xff trusted ≡ settled trusted (hops (split b',' xff))
unfolding client_ip_from_xff
client_ip_from_xff_lem xff trusted =
    let parts = split b',' xff in
    settle trusted (hops parts) (walk_back trusted (reverse parts) []) (left_most parts)
      (walk_back_lem trusted (reverse parts) [] ∙ ap (first_untrusted trusted) (hops-reverse parts))
      (λ h. walk_back-none trusted (reverse parts) [] (hops-reverse parts ∙ ap reverse h))
      (left_most_lem parts)
