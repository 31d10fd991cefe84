-- ===== src/Selfpoll/Routes.antt =====
-- The routes that the hub's own poll reports.
use polar_wg.Net.{parse_octet, parse_cidr4, parse_cidr, leading_zero, ipv4_text, parse_ipv4}
use polar_wg.Selfpoll.{of_output, Machine, World, iface_routes, iface_net}
use polar_wg.Dump.{
  pad_octets, join_dots, fields_from, darwin_route, route_if, linux_route, padded, is_cidr,
  normalize_route_dst, linux_routes, ends_with_32, darwin_routes,
}
use polar_wg.Base.{
  parse_decimal, ◌||◌, not, [], ◌&&◌, cut, ◌⊎◌, false, split, arith, ◌∷◌, Option-cases, str_eq,
  true, ◌≡◌, Bool-cases, All, Bool, trim_space, is_empty, List, Option, append, String, none, some,
  inl, inr, refl,
}

-- A network in CIDR form that is no single address.
abbrev IsSubnet : World → String → Type 0
IsSubnet w r = (is_cidr w r ≡ true) × (ends_with_32 r ≡ false)

ends_with_32-append : (t : String) → ends_with_32 (append t "/32") ≡ true
unfolding ends_with_32
ends_with_32-append String.[] = refl
ends_with_32-append (String.◌∷◌ c t) = ground (arith, ends_with_32-append t)

-- What the normal form of a destination can be.
abbrev Normal : World → String → Type 0
Normal w d = (is_empty d ≡ true) ⊎ ((ends_with_32 d ≡ true) ⊎ (is_cidr w d ≡ true))

default_cidr : (w : World) → is_cidr w "0.0.0.0/0" ≡ true
unfolding parse_cidr parse_cidr4 cut parse_ipv4 split parse_octet parse_decimal leading_zero
default_cidr w = refl

padded-Normal :
    (w : World) (s : String) (parts : Option (String × String)) → Normal w (padded w s parts)
padded-Normal w s none = elim (Option-cases (parse_ipv4 s)) [
  | inl e ↦ rw (padded, e) (inl refl)
  | inr (ip, e) ↦ rw (padded, e) (inr (inl (ends_with_32-append (ipv4_text ip))))
]
padded-Normal w s (some (host, mask)) =
    let p = append (join_dots (pad_octets (split b'.' host))) (append "/" mask) in
    elim (Bool-cases (not (is_empty host) && is_cidr w p)) [
      | inl e ↦ rw e (inr (inr (ground arith)))
      | inr e ↦ rw e (inl refl)
    ]

normalize_route_dst-Normal : (w : World) (text : String) → Normal w (normalize_route_dst w text)
unfolding normalize_route_dst
normalize_route_dst-Normal w text =
    let s = trim_space text in
    elim (Bool-cases (is_empty s)) [
      | inl e ↦ rw e (inl refl)
      | inr e ↦ elim (Bool-cases (str_eq s "default")) [
        | inl f ↦ rw (e, f) (inr (inr (default_cidr w)))
        | inr f ↦ elim (Bool-cases (is_cidr w s)) [
          | inl g ↦ rw (e, f, g) (inr (inr g))
          | inr g ↦ rw (e, f, g) (padded-Normal w s (cut b'/' s))
        ]
      ]
    ]

route_if-IsSubnet :
    (w : World) (take : Bool) (d : String) (rest : List String)
    → Normal w d
    → All (IsSubnet w) rest
    → All (IsSubnet w) (route_if take d rest)
route_if-IsSubnet w take d rest n h =
    elim (Bool-cases (take && not (is_empty d || ends_with_32 d))) [
      | inl e ↦ rw e ((kept n e, ground arith), h)
      | inr e ↦ rw e h
    ]
  where
    kept : Normal w d → (take && not (is_empty d || ends_with_32 d)) ≡ true → is_cidr w d ≡ true
    kept (inl e) t = ground arith
    kept (inr (inl e)) t = ground arith
    kept (inr (inr e)) t = e

darwin_route-IsSubnet :
    (w : World) (iface : String) (fields rest : List String)
    → All (IsSubnet w) rest
    → All (IsSubnet w) (darwin_route w iface fields rest)
darwin_route-IsSubnet w iface [] rest h = h
darwin_route-IsSubnet w iface (a ∷ []) rest h = h
darwin_route-IsSubnet w iface (a ∷ b ∷ []) rest h = h
darwin_route-IsSubnet w iface (a ∷ b ∷ c ∷ []) rest h = h
darwin_route-IsSubnet w iface (dst ∷ b ∷ c ∷ netif ∷ more) rest h =
    route_if-IsSubnet w (str_eq netif iface) (normalize_route_dst w dst) rest
      (normalize_route_dst-Normal w dst) h

darwin_routes-IsSubnet :
    (w : World) (iface : String) (lines : List String)
    → All (IsSubnet w) (darwin_routes w iface lines)
unfolding darwin_routes
darwin_routes-IsSubnet w iface [] = tt
darwin_routes-IsSubnet w iface (line ∷ lines) =
    darwin_route-IsSubnet w iface (fields_from "" line) (darwin_routes w iface lines)
      (darwin_routes-IsSubnet w iface lines)

linux_route-IsSubnet :
    (w : World) (fields rest : List String)
    → All (IsSubnet w) rest
    → All (IsSubnet w) (linux_route w fields rest)
linux_route-IsSubnet w [] rest h = h
linux_route-IsSubnet w (dst ∷ more) rest h =
    route_if-IsSubnet w true (normalize_route_dst w dst) rest (normalize_route_dst-Normal w dst) h

linux_routes-IsSubnet : (w : World) (lines : List String) → All (IsSubnet w) (linux_routes w lines)
unfolding linux_routes
linux_routes-IsSubnet w [] = tt
linux_routes-IsSubnet w (line ∷ lines) =
    linux_route-IsSubnet w (fields_from "" line) (linux_routes w lines)
      (linux_routes-IsSubnet w lines)

of_output-IsSubnet :
    (w : World) (read : List String → List String) (out : Option String)
    → ((lines : List String) → All (IsSubnet w) (read lines))
    → All (IsSubnet w) (of_output read out)
of_output-IsSubnet w read none h = tt
of_output-IsSubnet w read (some out) h = h (split b'\n' out)

iface_routes-IsSubnet :
    (w : World) (m : Machine) (iface : String) → All (IsSubnet w) (iface_routes w m iface)
unfolding iface_routes
iface_routes-IsSubnet w m iface = elim (Bool-cases (str_eq m.goos "darwin")) [
  | inl e ↦ rw e (of_output-IsSubnet w (darwin_routes w iface) _ (darwin_routes-IsSubnet w iface))
  | inr e ↦ elim (Bool-cases (str_eq m.goos "linux")) [
    | inl f ↦ rw (e, f) (of_output-IsSubnet w (linux_routes w) _ (linux_routes-IsSubnet w))
    | inr f ↦ rw (e, f) tt
  ]
]

-- Each route that the hub's own poll reports is in CIDR form and does not end in /32.
iface_net-IsSubnet :
    (w : World) (m : Machine) (iface : String) → All (IsSubnet w) (iface_net w m iface).routes
unfolding iface_net
iface_net-IsSubnet w m iface = elim (Bool-cases (is_empty iface)) [
  | inl e ↦ rw e tt
  | inr e ↦ rw e (iface_routes-IsSubnet w m iface)
]
