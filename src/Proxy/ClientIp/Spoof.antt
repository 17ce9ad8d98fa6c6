-- ===== src/Proxy/ClientIp/Spoof.antt =====
-- What a client can write into X-Forwarded-For, and what it cannot bring about.
use mathlib.Core.List.{reverse, reverse-append}
use easy_docker_proxy.Base.{
  ℕ, ◌≡◌, refl, sym, ap, subst, ◌∙◌, Bool, true, false, not, ◌||◌, List, [], ◌∷◌, ◌++◌, Option,
  none, some, if◌then◌else◌, Str, codes, is_empty, trim_space, split, split_onto, Bool-cases, inl,
  inr, arith,
}
use easy_docker_proxy.Net.{IpNet}
use easy_docker_proxy.Net.Parse.{parse_ip}
use easy_docker_proxy.Proxy.Path.{◌or_else◌}
use easy_docker_proxy.Proxy.Request.{Request, get, remote_ip, ip_in_nets}
use easy_docker_proxy.Proxy.ClientIp.{is_ip, client_ip_from_xff, client_ip}
use easy_docker_proxy.Proxy.ClientIp.Hops.{
  hops, hops-append, hops-reverse, first_untrusted, first, text, client_ip_from_xff_lem,
}

split_onto-append :
    (c : ℕ) (piece s t : Str) → split_onto c piece (s ++ c ∷ t) ≡ split_onto c piece s ++ split c t
split_onto-append c piece [] t = ground arith
split_onto-append c piece (x ∷ s) t =
    ground (arith, split_onto-append c [] s t, split_onto-append c (piece ++ x ∷ []) s t)

first_untrusted-append :
    (trusted : List IpNet) (xs ys : List Str) (h : Str)
    → first_untrusted trusted xs ≡ some h
    → first_untrusted trusted (xs ++ ys) ≡ some h
first_untrusted-append trusted [] ys h e = cc
first_untrusted-append trusted (x ∷ xs) ys h e = elim (Bool-cases (ip_in_nets x trusted)) [
  | inl t ↦ rw t (first_untrusted-append trusted xs ys h (rw t at e))
  | inr u ↦ rw u (rw u at e)
]

nonempty : (s : Str) → is_ip s ≡ true → is_empty s ≡ false
unfolding is_ip parse_ip
nonempty [] h = cc
nonempty (c ∷ s) h = refl

-- An answer that is an address or nothing.
abbrev IsHop : Option Str → Type 0
IsHop none = Unit
IsHop (some h) = is_ip h ≡ true

first_untrusted-IsHop :
    (trusted : List IpNet) (parts : List Str) → IsHop (first_untrusted trusted (hops parts))
first_untrusted-IsHop trusted [] = _
first_untrusted-IsHop trusted (raw ∷ parts) = elim (Bool-cases (is_ip (trim_space raw))) [
  | inl y ↦ elim (Bool-cases (ip_in_nets (trim_space raw) trusted)) [
    | inl t ↦ rw (y, t) (first_untrusted-IsHop trusted parts)
    | inr u ↦ rw (y, u) y
  ]
  | inr n ↦ rw n (first_untrusted-IsHop trusted parts)
]

first-IsHop : (parts : List Str) → IsHop (first (hops parts))
first-IsHop [] = _
first-IsHop (raw ∷ parts) = elim (Bool-cases (is_ip (trim_space raw))) [
  | inl y ↦ rw y y
  | inr n ↦ rw n (first-IsHop parts)
]

text-or_else :
    (a b : Option Str)
    → IsHop a
    → IsHop b
    → is_empty (text (a or_else b)) ≡ false
    → is_ip (text (a or_else b)) ≡ true
text-or_else (some h) b y z ne = y
text-or_else none (some h) y z ne = z
text-or_else none none y z ne = cc

-- Only an address comes out of the header.
from_xff-is_ip :
    (xff : Str) (trusted : List IpNet)
    → is_empty (client_ip_from_xff xff trusted) ≡ false
    → is_ip (client_ip_from_xff xff trusted) ≡ true
from_xff-is_ip xff trusted ne =
    let e = client_ip_from_xff_lem xff trusted in
    let parts = split b',' xff in
    ap is_ip e
    ∙ text-or_else (first_untrusted trusted (reverse (hops parts))) (first (hops parts))
        (subst (λ hs. IsHop (first_untrusted trusted hs)) (hops-reverse parts)
          (first_untrusted-IsHop trusted (reverse parts)))
        (first-IsHop parts) (ap is_empty (sym e) ∙ ne)

chosen :
    (a b c : Bool) (x y z : Str)
    → is_ip x ≡ true
    → (b ≡ true → is_ip y ≡ true)
    → (c ≡ true → is_ip z ≡ true)
    → is_ip (if a then x else if b then y else if c then z else x) ≡ true
chosen true b c x y z h k l = h
chosen false true c x y z h k l = k refl
chosen false false true x y z h k l = l refl
chosen false false false x y z h k l = h

-- A peer whose address is an address: `ClientIP` answers with an address, whatever the headers say.
pub client_ip-is_ip :
    (trusted : List IpNet) (r : Request)
    → is_ip (remote_ip r) ≡ true
    → is_ip (client_ip trusted r) ≡ true
unfolding client_ip
client_ip-is_ip trusted r h =
    let fwd = client_ip_from_xff (get r.header (codes "X-Forwarded-For")) trusted in
    let xri = trim_space (get r.header (codes "X-Real-IP")) in
    chosen (is_empty (remote_ip r) || not (ip_in_nets (remote_ip r) trusted)) _ _ (remote_ip r) fwd
      xri h
      (λ e. from_xff-is_ip (get r.header (codes "X-Forwarded-For")) trusted (ground (arith, e)))
      (λ e. ground (arith, e))

peer-given : (s : Str) (trusted : List IpNet) → ip_in_nets s trusted ≡ true → is_empty s ≡ false
unfolding ip_in_nets parse_ip
peer-given [] trusted h = cc
peer-given (c ∷ s) trusted h = refl

given-append : (s : Str) (c : ℕ) (t : Str) → is_empty (s ++ c ∷ t) ≡ false
given-append [] c t = refl
given-append (x ∷ s) c t = refl

-- A request that comes through trusted proxies: whatever the client puts in front of what they
-- wrote to X-Forwarded-For, its address is the last one that they wrote and that is none of theirs.
pub client_ip_spoofed :
    (trusted : List IpNet) (r : Request) (spoofed tail h : Str)
    → ip_in_nets (remote_ip r) trusted ≡ true
    → get r.header (codes "X-Forwarded-For") ≡ spoofed ++ b',' ∷ tail
    → first_untrusted trusted (reverse (hops (split b',' tail))) ≡ some h
    → client_ip trusted r ≡ h
unfolding client_ip
client_ip_spoofed trusted r spoofed tail h peer xff last =
    let pieces = split b',' spoofed in
    let own = split b',' tail in
    let all_hops : hops (split b',' (spoofed ++ b',' ∷ tail)) ≡ hops pieces ++ hops own =
      ap hops (split_onto-append b',' [] spoofed tail) ∙ hops-append pieces own in
    let found : first_untrusted trusted (reverse (hops (split b',' (spoofed ++ b',' ∷ tail))))
        ≡ some h =
      ap (λ hs. first_untrusted trusted (reverse hs)) all_hops
      ∙ ap (first_untrusted trusted) (reverse-append (hops pieces) (hops own))
      ∙ first_untrusted-append trusted (reverse (hops own)) (reverse (hops pieces)) h last in
    let valid : is_ip h ≡ true =
      subst IsHop (ap (first_untrusted trusted) (hops-reverse own) ∙ last)
        (first_untrusted-IsHop trusted (reverse own)) in
    let settles : client_ip_from_xff (spoofed ++ b',' ∷ tail) trusted ≡ h =
      client_ip_from_xff_lem (spoofed ++ b',' ∷ tail) trusted
      ∙ ap (λ o. text (o or_else first (hops (split b',' (spoofed ++ b',' ∷ tail))))) found in
    rw
      (
        xff,
        settles,
        peer,
        peer-given (remote_ip r) trusted peer,
        given-append spoofed b',' tail,
        nonempty h valid,
      )
      refl
