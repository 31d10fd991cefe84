-- ===== src/Net/Print.antt =====
-- Addresses and networks survive the way through their texts.
use polar_wg.Base.{
  ◌-◌, ℕ, ◌+◌, ◌*◌, ◌/◌, ◌%◌, ◌^◌, ◌≤◌, ◌<◌, String, ◌≡◌, refl, ap, ◌∙◌, some, [], ◌∷◌, arith,
  append, contains_char, cut, split, itoa, is_empty, is_space, true, false,
}
use polar_wg.Errors.{ok}
use polar_wg.Net.{
  World, MeshNet, parse_ipv4, ipv4_text, parse_cidr4, parse_cidr, net_text, masked, parse_mesh_cidr,
}
use polar_wg.Net.Chars.{
  split_last, split_dot, cut-append, contains_char-append, free_of, free_of-append, is_empty-append,
  trim_space_free,
}
use polar_wg.Net.Octets.{OctetText, itoa-OctetText}

pieces :
    (a b c d : String)
    → contains_char b'.' a ≡ false
    → contains_char b'.' b ≡ false
    → contains_char b'.' c ≡ false
    → contains_char b'.' d ≡ false
    → split b'.' (append a (append "." (append b (append "." (append c (append "." d))))))
      ≡ a ∷ b ∷ c ∷ d ∷ []
unfolding split
pieces a b c d ha hb hc hd =
    split_dot a _ ha
    ∙ ap (λ l. a ∷ l)
        (split_dot b _ hb
          ∙ ap (λ l. b ∷ l) (split_dot c _ hc ∙ ap (λ l. c ∷ l) (split_last b'.' d hd)))

-- The number that four octets make, and the text that they make.
abbrev quad_text : String → String → String → String → String
quad_text a b c d = append a (append "." (append b (append "." (append c (append "." d)))))

module _ (a b c d : ℕ) {s t u v : String} (hs : OctetText a s) (ht : OctetText b t)
    (hu : OctetText c u) (hv : OctetText d v) where
  parse_quad : parse_ipv4 (quad_text s t u v) ≡ some (((a * 256 + b) * 256 + c) * 256 + d)
  unfolding parse_ipv4
  parse_quad = rw (
    pieces s t u v hs.no_dot ht.no_dot hu.no_dot hv.no_dot,
    hs.parses,
    ht.parses,
    hu.parses,
    hv.parses,
  )

  quad_no_slash : contains_char b'/' (quad_text s t u v) ≡ false
  unfolding contains_char
  quad_no_slash = contains_char-append b'/' s _ hs.no_slash (
      contains_char-append b'/' t _ ht.no_slash
        (contains_char-append b'/' u _ hu.no_slash hv.no_slash))

  quad_no_space : free_of is_space (quad_text s t u v) ≡ true
  unfolding is_space
  quad_no_space = free_of-append is_space s _ hs.no_space (
      free_of-append is_space t _ ht.no_space (free_of-append is_space u _ hu.no_space hv.no_space))

-- Reading the text of an address gives the address back.
pub parse_ipv4-ipv4_text : (ip : ℕ) → ip < 2 ^ 32 → parse_ipv4 (ipv4_text ip) ≡ some ip
unfolding ipv4_text
parse_ipv4-ipv4_text ip h =
    parse_quad (ip / 16777216 % 256) (ip / 65536 % 256) (ip / 256 % 256) (ip % 256)
      (itoa-OctetText _ (omega arith)) (itoa-OctetText _ (omega arith))
      (itoa-OctetText _ (omega arith)) (itoa-OctetText _ (omega arith))
    ∙ ap some (omega arith)

-- So two addresses with one text are one address.
pub ipv4_text_injective : (a b : ℕ) → a < 2 ^ 32 → b < 2 ^ 32 → ipv4_text a ≡ ipv4_text b → a ≡ b
ipv4_text_injective a b ha hb e =
    cc (parse_ipv4-ipv4_text a ha, parse_ipv4-ipv4_text b hb, ap parse_ipv4 e)

ipv4_text_no_slash : (ip : ℕ) → contains_char b'/' (ipv4_text ip) ≡ false
unfolding ipv4_text
ipv4_text_no_slash ip =
    quad_no_slash (ip / 16777216 % 256) (ip / 65536 % 256) (ip / 256 % 256) (ip % 256)
      (itoa-OctetText _ (omega arith)) (itoa-OctetText _ (omega arith))
      (itoa-OctetText _ (omega arith)) (itoa-OctetText _ (omega arith))

ipv4_text_no_space : (ip : ℕ) → free_of is_space (ipv4_text ip) ≡ true
unfolding ipv4_text
ipv4_text_no_space ip =
    quad_no_space (ip / 16777216 % 256) (ip / 65536 % 256) (ip / 256 % 256) (ip % 256)
      (itoa-OctetText _ (omega arith)) (itoa-OctetText _ (omega arith))
      (itoa-OctetText _ (omega arith)) (itoa-OctetText _ (omega arith))

-- A network as `net.ParseCIDR` makes them: an IPv4 address with no bit set past the prefix.
pub record IsNetwork (m : MeshNet) : Type 0 where
  pub in_range : m.ip < 2 ^ 32
  pub prefix : m.ones ≤ 32
  pub host_bits : m.ip % 2 ^ (32 - m.ones) ≡ 0

masked_network : (m : MeshNet) → IsNetwork m → masked m.ip m.ones ≡ m.ip
masked_network m n = omega (arith, n.host_bits)

cut-net_text : (m : MeshNet) → cut b'/' (net_text m) ≡ some (ipv4_text m.ip, itoa m.ones)
unfolding net_text cut
cut-net_text m =
    cut-append b'/' (ipv4_text m.ip) (append "/" (itoa m.ones)) (itoa m.ones)
      (ipv4_text_no_slash m.ip) refl

parse_cidr4-net_text : (m : MeshNet) → IsNetwork m → parse_cidr4 (net_text m) ≡ some m
unfolding parse_cidr4
parse_cidr4-net_text m n = ground (
  arith,
  cut-net_text m,
  parse_ipv4-ipv4_text m.ip n.in_range,
  (itoa-OctetText m.ones (omega (arith, n.prefix))).decimal,
  masked_network m n,
)

net_text_no_space : (m : MeshNet) → IsNetwork m → free_of is_space (net_text m) ≡ true
unfolding net_text is_space
net_text_no_space m n =
    free_of-append is_space (ipv4_text m.ip) _ (ipv4_text_no_space m.ip)
      (itoa-OctetText m.ones (omega (arith, n.prefix))).no_space

net_text_not_empty : (m : MeshNet) → is_empty (net_text m) ≡ false
unfolding net_text ipv4_text
net_text_not_empty m =
    is_empty-append _ (append "/" (itoa m.ones))
      (is_empty-append _ _ (itoa-OctetText _ (omega arith)).not_empty)

-- `parseMeshCIDR` reads the text of an IPv4 network back as that network.
pub parse_mesh_cidr-net_text :
    (w : World) (m : MeshNet) → IsNetwork m → parse_mesh_cidr w (net_text m) ≡ ok m
unfolding parse_mesh_cidr parse_cidr
parse_mesh_cidr-net_text w m n = ground (
  arith,
  trim_space_free (net_text m) (net_text_no_space m n),
  net_text_not_empty m,
  parse_cidr4-net_text m n,
)
