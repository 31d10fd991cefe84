-- ===== src/Routing/Fabric.antt =====
-- The filter of the hubs that can be routed to: what it lets through, and that it misses no network.
use polar_wg.Routing.{other_configured_hubs, configured, Hub, hubs_unseen}
use polar_wg.Net.{hub_mesh_network, World}
use polar_wg.Base.{
  ap, str_eq_iff, inr, All-mono, inl, Bool-cases, arith, trim_space, is_empty, [], ◌||◌, ◌&&◌, true,
  false, ◌∷◌, ◌==◌, any, All, ◌≡◌, Pairs, not, str_eq, String, List, Bool, ℕ, if◌then◌else◌,
}

-- A hub that can be a peer of the hub `own`: another one, with a key, an endpoint and a network.
abbrev pub is_usable : World → ℕ → Hub → Bool
is_usable w own h =
    (not (h.id == own) && (configured h && not (is_empty (trim_space h.endpoint))))
    && not (is_empty (hub_mesh_network w h.mesh_cidr))

abbrev pub same_network : World → Hub → Hub → Bool
same_network w g h = str_eq (hub_mesh_network w g.mesh_cidr) (hub_mesh_network w h.mesh_cidr)

abbrev LetThrough : World → ℕ → List String → Hub → Type 0
LetThrough w own seen h =
    (is_usable w own h ≡ true) × (any (str_eq (hub_mesh_network w h.mesh_cidr)) seen ≡ false)

abbrev pub enters : World → ℕ → List String → Hub → Bool
enters w own seen h = is_usable w own h && not (any (str_eq (hub_mesh_network w h.mesh_cidr)) seen)

-- The two tests of the loop as one.
pub hubs_unseen_step :
    (w : World) (own : ℕ) (seen : List String) (h : Hub) (hubs : List Hub)
    → hubs_unseen w own seen (h ∷ hubs) ≡ (
        if enters w own seen h
        then h ∷ hubs_unseen w own (hub_mesh_network w h.mesh_cidr ∷ seen) hubs
        else hubs_unseen w own seen hubs)
unfolding hubs_unseen
hubs_unseen_step w own seen h hubs = ground arith

hubs_unseen-All :
    (w : World) (own : ℕ) (seen : List String) (hubs : List Hub)
    → All (LetThrough w own seen) (hubs_unseen w own seen hubs)
unfolding hubs_unseen
hubs_unseen-All w own seen [] = tt
hubs_unseen-All w own seen (h ∷ hubs) =
    rw (hubs_unseen_step w own seen h hubs) (elim (Bool-cases (enters w own seen h)) [
      | inl e ↦ rw e (
        (ground arith, ground arith),
        All-mono (LetThrough w own (hub_mesh_network w h.mesh_cidr ∷ seen)) (LetThrough w own seen)
            (λ g p. (p.0, ground (arith, p.1)))
            (hubs_unseen w own (hub_mesh_network w h.mesh_cidr ∷ seen) hubs)
            (hubs_unseen-All w own (hub_mesh_network w h.mesh_cidr ∷ seen) hubs),
      )
      | inr e ↦ rw e (hubs_unseen-All w own seen hubs)
    ])

hubs_unseen-Pairs :
    (w : World) (own : ℕ) (seen : List String) (hubs : List Hub)
    → Pairs (λ g h. same_network w h g ≡ false) (hubs_unseen w own seen hubs)
unfolding hubs_unseen
hubs_unseen-Pairs w own seen [] = tt
hubs_unseen-Pairs w own seen (h ∷ hubs) =
    rw (hubs_unseen_step w own seen h hubs) (elim (Bool-cases (enters w own seen h)) [
      | inl e ↦ rw e (
        All-mono (LetThrough w own (hub_mesh_network w h.mesh_cidr ∷ seen))
            (λ g. same_network w g h ≡ false) (λ g p. ground (arith, p.1))
            (hubs_unseen w own (hub_mesh_network w h.mesh_cidr ∷ seen) hubs)
            (hubs_unseen-All w own (hub_mesh_network w h.mesh_cidr ∷ seen) hubs),
        hubs_unseen-Pairs w own (hub_mesh_network w h.mesh_cidr ∷ seen) hubs,
      )
      | inr e ↦ rw e (hubs_unseen-Pairs w own seen hubs)
    ])

pub same_text : (a b : String) → str_eq a b ≡ true → a ≡ b
same_text a b e = ground (arith, str_eq_iff a b)

-- A usable hub's network is in the list, or has been seen.
hubs_unseen_covers :
    (w : World) (own : ℕ) (seen : List String) (hubs : List Hub) (h : Hub)
    → any (λ (g : Hub). is_usable w own g && same_network w h g) hubs ≡ true
    → (any (same_network w h) (hubs_unseen w own seen hubs)
        || any (str_eq (hub_mesh_network w h.mesh_cidr)) seen)
      ≡ true
hubs_unseen_covers w own seen [] h e = cc
hubs_unseen_covers w own seen (g ∷ hubs) h e =
    rw (hubs_unseen_step w own seen g hubs) (elim (Bool-cases (enters w own seen g)) [
      | inl c ↦
          rw c (
            ground (arith, hubs_unseen_covers w own (hub_mesh_network w g.mesh_cidr ∷ seen) hubs h))
      | inr c ↦ rw c (elim (Bool-cases (same_network w h g)) [
        | inl same ↦ elim (Bool-cases (is_usable w own g)) [
          | inl u ↦
              let again : any (str_eq (hub_mesh_network w h.mesh_cidr)) seen ≡ true =
                rw
                  (same_text (hub_mesh_network w h.mesh_cidr) (hub_mesh_network w g.mesh_cidr) same)
                  (ground arith) in
              ground arith
          | inr u ↦ ground (arith, hubs_unseen_covers w own seen hubs h)
        ]
        | inr other ↦ ground (arith, hubs_unseen_covers w own seen hubs h)
      ])
    ])

apart :
    (n own : String)
    → is_empty n ≡ false
    → any (str_eq n) (if is_empty own then [] else own ∷ []) ≡ false
    → str_eq n own ≡ false
apart n own e seen = elim (Bool-cases (str_eq n own)) [
  | inr f ↦ f
  | inl t ↦ let same : n ≡ own = same_text n own t in ground (arith, ap is_empty same)
]

-- The hubs that a hub is connected with are others that have a key, an endpoint and a network
-- that parses, and no two of them, nor one of them and the hub itself, have the same network.
pub other_configured_hubs-IsFabric :
    (w : World) (hubs : List Hub) (own : ℕ) (own_cidr : String)
    → All
        (λ h.
          (is_usable w own h ≡ true)
          × (str_eq (hub_mesh_network w h.mesh_cidr) (hub_mesh_network w own_cidr) ≡ false))
        (other_configured_hubs w hubs own own_cidr)
      × Pairs (λ g h. same_network w h g ≡ false) (other_configured_hubs w hubs own own_cidr)
unfolding other_configured_hubs
other_configured_hubs-IsFabric w hubs own own_cidr =
    let seen : List String =
      (if is_empty (hub_mesh_network w own_cidr) then [] else hub_mesh_network w own_cidr ∷ []) in
    (
      All-mono (LetThrough w own seen)
          (λ h.
            (is_usable w own h ≡ true)
            × (str_eq (hub_mesh_network w h.mesh_cidr) (hub_mesh_network w own_cidr) ≡ false))
          (λ h p. (
            p.0,
            apart (hub_mesh_network w h.mesh_cidr) (hub_mesh_network w own_cidr)
                (ground (arith, p.0)) p.1,
          ))
          (hubs_unseen w own seen hubs) (hubs_unseen-All w own seen hubs),
      hubs_unseen-Pairs w own seen hubs,
    )

-- Where a usable hub of the table has a network other than the hub's own, some hub that the hub
-- is connected with has this network.
other_configured_hubs_complete :
    (w : World) (hubs : List Hub) (own : ℕ) (own_cidr : String) (h : Hub)
    → any (λ (g : Hub). is_usable w own g && same_network w h g) hubs ≡ true
    → str_eq (hub_mesh_network w h.mesh_cidr) (hub_mesh_network w own_cidr) ≡ false
    → any (same_network w h) (other_configured_hubs w hubs own own_cidr) ≡ true
unfolding other_configured_hubs
other_configured_hubs_complete w hubs own own_cidr h there other = ground (
  arith,
  hubs_unseen_covers w own
      (if is_empty (hub_mesh_network w own_cidr) then [] else hub_mesh_network w own_cidr ∷ []) hubs
      h there,
)
