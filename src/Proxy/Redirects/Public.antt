-- ===== src/Proxy/Redirects/Public.antt =====
-- Which addresses `isPublicRedirectIP` takes for public.
use easy_docker_proxy.Base.{
  ℕ, head, tail, ltb, ◌≤◌, ◌<◌, ==_iff, ◌*◌, ◌^◌, ◌-◌, any-In, sym, ◌∙◌, ◌≡◌, refl, ◌⊎◌, In, Bool,
  true, false, not, List, any, if◌then◌else◌, Bool-cases, inl, inr, arith,
}
use easy_docker_proxy.Net.{v4, v6, net4, net6, leading, Ip, IpNet, contains}
use easy_docker_proxy.Proxy.Redirects.{
  ip4, special_nets, non_public_redirect_nets, is_public_redirect_ip,
}

-- The address is in none of the networks.
abbrev pub Outside : List IpNet → Ip → Type 0
Outside nets ip = any (λ n. contains n ip) nets ≡ false

-- Not between `lo` and `hi`, both included.
abbrev pub NotWithin : ℕ → ℕ → ℕ → Type 0
NotWithin lo hi n = (n < lo) ⊎ (hi < n)

-- No address of this host, of a private network, of a provider's network (100.64.0.0/10), of the
-- link or of a group.
abbrev pub IsRoutable : Ip → Type 0
IsRoutable (v4 n) =
    NotWithin (ip4 0 0 0 0) (ip4 0 255 255 255) n
    × NotWithin (ip4 127 0 0 0) (ip4 127 255 255 255) n
    × NotWithin (ip4 10 0 0 0) (ip4 10 255 255 255) n
    × NotWithin (ip4 172 16 0 0) (ip4 172 31 255 255) n
    × NotWithin (ip4 192 168 0 0) (ip4 192 168 255 255) n
    × NotWithin (ip4 100 64 0 0) (ip4 100 127 255 255) n
    × NotWithin (ip4 169 254 0 0) (ip4 169 254 255 255) n
    × NotWithin (ip4 224 0 0 0) (ip4 239 255 255 255) n
IsRoutable (v6 n) =
    NotWithin (0xfc * 2 ^ 120) (0xfe * 2 ^ 120 - 1) n
    × NotWithin (0xfe80 * 2 ^ 112) (0xfec0 * 2 ^ 112 - 1) n
    × NotWithin (0xff * 2 ^ 120) (2 ^ 128 - 1) n
    × NotWithin 0 0 n
    × NotWithin 1 1 n

abbrev pub Public : Ip → Type 0
Public ip = (Outside special_nets ip × Outside non_public_redirect_nets ip) × IsRoutable ip

missed :
    (net : IpNet) (nets : List IpNet) (ip : Ip)
    → Outside nets ip
    → In net nets
    → contains net ip ≡ false
missed net nets ip out i = elim (Bool-cases (contains net ip)) [
  | inl y ↦ cc (sym out ∙ any-In (λ n. contains n ip) i y)
  | inr n ↦ n
]

not_within : (lo hi n : ℕ) → (lo ≤ n → n ≤ hi → ⊥) → NotWithin lo hi n
not_within lo hi n k = elim (Bool-cases (ltb n lo)) [
  | inl y ↦ inl (ground (arith, y))
  | inr m ↦ elim (Bool-cases (ltb hi n)) [
    | inl y ↦ inr (ground (arith, y))
    | inr o ↦ absurd (k (ground (arith, m)) (ground (arith, o)))
  ]
]

-- A network of IPv4 whose addresses begin with `lead`.
apart4 :
    (addr bits lo hi n : ℕ)
    → ((lo ≤ n) → (n ≤ hi) → leading 32 bits addr ≡ leading 32 bits n)
    → contains (net4 addr bits) (v4 n) ≡ false
    → NotWithin lo hi n
unfolding contains
apart4 addr bits lo hi n same e =
    not_within lo hi n
      (λ l h. cc (sym e ∙ (==_iff (leading 32 bits addr) (leading 32 bits n)).1 (same l h)))

apart6 :
    (addr bits lo hi n : ℕ)
    → ((lo ≤ n) → (n ≤ hi) → leading 128 bits addr ≡ leading 128 bits n)
    → contains (net6 addr bits) (v6 n) ≡ false
    → NotWithin lo hi n
unfolding contains
apart6 addr bits lo hi n same e =
    not_within lo hi n
      (λ l h. cc (sym e ∙ (==_iff (leading 128 bits addr) (leading 128 bits n)).1 (same l h)))

Outside-IsRoutable :
    (ip : Ip) → Outside special_nets ip → Outside non_public_redirect_nets ip → IsRoutable ip
Outside-IsRoutable (v4 n) out more =
    let t = λ (net : IpNet) (i : In net special_nets). missed net special_nets (v4 n) out i in
    let u = λ (net : IpNet) (i : In net non_public_redirect_nets).
      missed net non_public_redirect_nets (v4 n) more i in
    (
      apart4 0 8 0 (ip4 0 255 255 255) n (λ l h. omega arith) (u _ (head refl)),
      apart4 (ip4 127 0 0 0) 8 _ (ip4 127 255 255 255) n (λ l h. omega arith)
          (t _ (tail (tail (tail (tail (head refl)))))),
      apart4 (ip4 10 0 0 0) 8 _ (ip4 10 255 255 255) n (λ l h. omega arith) (t _ (head refl)),
      apart4 (ip4 172 16 0 0) 12 _ (ip4 172 31 255 255) n (λ l h. omega arith)
          (t _ (tail (head refl))),
      apart4 (ip4 192 168 0 0) 16 _ (ip4 192 168 255 255) n (λ l h. omega arith)
          (t _ (tail (tail (head refl)))),
      apart4 (ip4 100 64 0 0) 10 _ (ip4 100 127 255 255) n (λ l h. omega arith)
          (u _ (tail (head refl))),
      apart4 (ip4 169 254 0 0) 16 _ (ip4 169 254 255 255) n (λ l h. omega arith)
          (t _ (tail (tail (tail (tail (tail (tail (head refl)))))))),
      apart4 (ip4 224 0 0 0) 4 _ (ip4 239 255 255 255) n (λ l h. omega arith)
          (t _ (tail (tail (tail (tail (tail (tail (tail (tail (head refl)))))))))),
    )
Outside-IsRoutable (v6 n) out more =
    let t = λ (net : IpNet) (i : In net special_nets). missed net special_nets (v6 n) out i in
    (
      apart6 (0xfc * 2 ^ 120) 7 _ (0xfe * 2 ^ 120 - 1) n (λ l h. omega arith)
          (t _ (tail (tail (tail (head refl))))),
      apart6 (0xfe80 * 2 ^ 112) 10 _ (0xfec0 * 2 ^ 112 - 1) n (λ l h. omega arith)
          (t _ (tail (tail (tail (tail (tail (tail (tail (head refl))))))))),
      apart6 (0xff * 2 ^ 120) 8 _ (2 ^ 128 - 1) n (λ l h. omega arith)
          (t _ (tail (tail (tail (tail (tail (tail (tail (tail (tail (head refl))))))))))),
      apart6 0 128 0 0 n (λ l h. omega arith)
          (t _ (
            tail
              (tail (tail (tail (tail (tail (tail (tail (tail (tail (tail (head refl))))))))))))),
      apart6 1 128 1 1 n (λ l h. omega arith) (t _ (tail (tail (tail (tail (tail (head refl))))))),
    )

pub is_public_redirect_ip-Public : (ip : Ip) → is_public_redirect_ip ip ≡ true → Public ip
unfolding is_public_redirect_ip
is_public_redirect_ip-Public ip e = let o = outside _ _ e in (o, Outside-IsRoutable ip (o.0) (o.1))
  where
    outside : (a b : Bool) → (if a then false else not b) ≡ true → (a ≡ false) × (b ≡ false)
    outside true b e = cc
    outside false true e = cc
    outside false false e = (refl, refl)
