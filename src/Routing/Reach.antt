-- ===== src/Routing/Reach.antt =====
-- Which networks a spoke is given through its hub, read off the whole table of hubs.
use polar_wg.Routing.Fabric.{is_usable, hubs_unseen_step, same_text}
use polar_wg.Routing.{other_configured_hubs, cross_hub_allowed_extra, hubs_unseen}
use polar_wg.Net.{hub_mesh_network, World}
use polar_wg.Store.Rows.{Hub}
use polar_wg.Base.{
  ap, any-map-select, elem, str_eq_iff, inr, inl, Bool-cases, arith, is_empty, if◌then◌else◌, refl,
  [], ◌&&◌, true, false, ◌∷◌, any, find, ◌≡◌, not, str_eq, String, List, Bool, ℕ, Option, none,
  some, sym, ◌∙◌,
}

-- The usable hubs with the network `n`.
abbrev pub has_network : World → ℕ → String → Hub → Bool
has_network w own n h = is_usable w own h && str_eq (hub_mesh_network w h.mesh_cidr) n

abbrev pub passes : (Hub → Bool) → Option Hub → Bool
passes p none = false
passes p (some h) = p h

str_eq_sym : (a b : String) → str_eq a b ≡ str_eq b a
str_eq_sym a b = elim (Bool-cases (str_eq a b)) [
  | inl e ↦ ground (arith, str_eq_iff a b, str_eq_iff b a)
  | inr e ↦ elim (Bool-cases (str_eq b a)) [
    | inl f ↦ ground (arith, str_eq_iff a b, str_eq_iff b a)
    | inr f ↦ e ∙ sym f
  ]
]

-- The first usable hub of a network decides for it, if the network has not been seen.
hubs_unseen_first :
    (w : World) (own : ℕ) (p : Hub → Bool) (n : String) (seen : List String) (hubs : List Hub)
    → any
        (λ (h : Hub). p h && str_eq (hub_mesh_network w h.mesh_cidr) n)
        (hubs_unseen w own seen hubs)
      ≡ (not (any (str_eq n) seen) && passes p (find (has_network w own n) hubs))
unfolding hubs_unseen
hubs_unseen_first w own p n seen [] = ground arith
hubs_unseen_first w own p n seen (h ∷ hubs) =
    let m : String = hub_mesh_network w h.mesh_cidr in
    rw (hubs_unseen_step w own seen h hubs) (elim (Bool-cases (str_eq m n)) [
      | inl same ↦
          let there : any (str_eq m) seen ≡ any (str_eq n) seen =
            ap (λ x. any (str_eq x) seen) (same_text m n same) in
          let back : str_eq n m ≡ true = str_eq_sym n m ∙ same in
          ground (
            arith,
            there,
            hubs_unseen_first w own p n (m ∷ seen) hubs,
            hubs_unseen_first w own p n seen hubs,
          )
      | inr other ↦
          let back : str_eq n m ≡ false = str_eq_sym n m ∙ other in
          ground (
            arith,
            hubs_unseen_first w own p n (m ∷ seen) hubs,
            hubs_unseen_first w own p n seen hubs,
          )
    ])

-- No usable hub has the empty text for its network.
empty_network :
    (w : World) (own : ℕ) (n : String) (hubs : List Hub)
    → is_empty n ≡ true
    → find (has_network w own n) hubs ≡ none
empty_network w own n [] e = refl
empty_network w own n (h ∷ hubs) e =
    let m : String = hub_mesh_network w h.mesh_cidr in
    elim (Bool-cases (str_eq m n)) [
      | inl same ↦
          let gone : is_empty m ≡ is_empty n = ap is_empty (same_text m n same) in
          ground (arith, gone, empty_network w own n hubs)
      | inr other ↦ ground (arith, empty_network w own n hubs)
    ]

not_own :
    (w : World) (own : ℕ) (m n : String) (p : Hub → Bool) (hubs : List Hub)
    → (not (any (str_eq n) (if is_empty m then [] else m ∷ []))
        && passes p (find (has_network w own n) hubs))
      ≡ (not (str_eq n m) && passes p (find (has_network w own n) hubs))
not_own w own m n p hubs = elim (Bool-cases (str_eq n m)) [
  | inl same ↦
      let alike : is_empty n ≡ is_empty m = ap is_empty (same_text n m same) in
      ground (arith, alike, empty_network w own n hubs)
  | inr other ↦ ground arith
]

-- A text is among the networks that a spoke is given through its hub exactly when it is not the
-- hub's own network, some usable hub of the table has it, and the first of these hubs is linked
-- with the spoke's hub and not to be skipped.
pub cross_hub_allowed_extra_iff :
    (w : World) (hubs : List Hub) (own : ℕ) (own_cidr : String) (linked skip : List ℕ) (n : String)
    → any (λ r. str_eq r n) (cross_hub_allowed_extra w hubs own own_cidr linked skip) ≡ (
        not (str_eq n (hub_mesh_network w own_cidr))
        && passes (λ h. elem h.id linked && not (elem h.id skip)) (find (has_network w own n) hubs))
unfolding cross_hub_allowed_extra other_configured_hubs
cross_hub_allowed_extra_iff w hubs own own_cidr linked skip n =
    any-map-select (λ r. str_eq r n) (λ (h : Hub). hub_mesh_network w h.mesh_cidr)
      (λ (h : Hub). elem h.id linked && not (elem h.id skip))
      (other_configured_hubs w hubs own own_cidr)
    ∙ hubs_unseen_first w own (λ h. elem h.id linked && not (elem h.id skip)) n
        (if is_empty (hub_mesh_network w own_cidr) then [] else hub_mesh_network w own_cidr ∷ [])
        hubs
    ∙ not_own w own (hub_mesh_network w own_cidr) n (λ h. elem h.id linked && not (elem h.id skip))
        hubs
