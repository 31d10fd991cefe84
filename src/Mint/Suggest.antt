-- ===== src/Mint/Suggest.antt =====
-- The first free network, and what becomes of a hub's token that is asked for again without one.
use polar_wg.Errors.Ends.{returns, anything, Ends-bind, Ends-ok}
use mathlib.Core.Path.{ap, subst}
use polar_wg.Errors.{public_endpoint_required, hub_slug_required, label_required, require, ok_inj}
use polar_wg.Mint.{
  parse_mesh_cidr, HubInput, MintInput, World, ok, wanted_mesh, Hub, reuse_hub, hub_of_slug, Db,
  hub_for_token,
}
use polar_wg.Store.Hubs.{mesh_candidate, first_candidate, suggest_free_mesh_cidr, get_hub_by_slug}
use polar_wg.Base.{
  refl, str_eq_iff, ◌∙◌, not, some_inj, zero, inl, sym, inr, [], ◌≢◌, Bool-cases, true, ◌∷◌, arith,
  suc, false, map, is_empty, trim_space, str_eq, any, ◌+◌, some, find, ◌<◌, ◌≤◌, Bool, ◌≡◌, ℕ, List,
  String,
}

first_candidate_free :
    (rounds n : ℕ) (used : List String) (s : String)
    → first_candidate rounds n used ≡ ok s
    → (k : ℕ) × (n ≤ k) × (k < n + rounds) × (s ≡ mesh_candidate k) × (any (str_eq s) used ≡ false)
unfolding first_candidate
first_candidate_free zero n used s e = cc
first_candidate_free (suc rounds) n used s e =
    elim (Bool-cases (any (str_eq (mesh_candidate n)) used)) [
      | inr free ↦
          let here : mesh_candidate n ≡ s = ok_inj (mesh_candidate n) s (rw free at e) in
          (
            n,
            omega arith,
            omega arith,
            sym here,
            subst (λ t. any (str_eq t) used ≡ false) here free,
          )
      | inl taken ↦
          let (k, low, high, same, free) =
            first_candidate_free rounds (n + 1) used s (rw taken at e) in
          (k, omega (arith, low), omega (arith, high), same, free)
    ]

-- A suggested network is one of the 16384 candidates, and is not the text of any hub's network.
pub suggest_free_mesh_cidr_free :
    (db : Db) (s : String)
    → suggest_free_mesh_cidr db ≡ ok s
    → (k : ℕ) × (k < 16384)
      × (s ≡ mesh_candidate k)
      × (any (str_eq s) (map (λ (h : Hub). trim_space h.mesh_cidr) db.hubs) ≡ false)
unfolding suggest_free_mesh_cidr
suggest_free_mesh_cidr_free db s e =
    let (k, low, high, same, free) =
      first_candidate_free 16384 0 (map (λ (h : Hub). trim_space h.mesh_cidr) db.hubs) s e in
    (k, omega (arith, high), same, free)

candidate_full : (k : ℕ) → is_empty (mesh_candidate k) ≡ false
unfolding mesh_candidate
candidate_full k = refl

any_of_map :
    (s : String) (hubs : List Hub) (p : Hub → Bool) (h : Hub)
    → find p hubs ≡ some h
    → any (str_eq s) (map (λ (h : Hub). trim_space h.mesh_cidr) hubs) ≡ false
    → str_eq s (trim_space h.mesh_cidr) ≡ false
any_of_map s [] p h found free = cc
any_of_map s (x ∷ hubs) p h found free = elim (Bool-cases (p x)) [
  | inl t ↦
      let same : x ≡ h = some_inj x h (rw t at found) in
      let here : str_eq s (trim_space x.mesh_cidr) ≡ false = ground arith in
      subst (λ (y : Hub). str_eq s (trim_space y.mesh_cidr) ≡ false) same here
  | inr t ↦ any_of_map s hubs p h (rw t at found) (ground arith)
]

-- A token for a hub whose slug is taken cannot be issued without naming a network, where the
-- hub's network is stored without space around it: the call never succeeds.
pub reissue_without_mesh_refused :
    (w : World) (m : MintInput) (i : HubInput) (db : Db) (h : Hub) (r : (Db × Hub) × String)
    → get_hub_by_slug db (trim_space i.slug) ≡ some h
    → trim_space h.mesh_cidr ≡ h.mesh_cidr
    → is_empty i.mesh_cidr ≡ true
    → hub_for_token w m i db ≢ ok r
unfolding hub_for_token hub_of_slug reuse_hub wanted_mesh get_hub_by_slug
reissue_without_mesh_refused w m i db h r row plain none_given done =
    Ends-ok (λ _. ⊥) (λ _. Unit) (hub_for_token w m i db) r done
      (Ends-bind _ (anything (require (not (is_empty (trim_space m.label))) label_required)) λ _ _.
        Ends-bind _ (anything (require (not (is_empty (trim_space i.slug))) hub_slug_required))
          λ _ _.
            Ends-bind _
              (anything
                (require (not (is_empty (trim_space i.public_endpoint))) public_endpoint_required))
              λ _ _. Ends-bind _ (anything (wanted_mesh i db)) λ mesh picked.
                Ends-bind _ (anything (parse_mesh_cidr w mesh)) λ n parsed.
                  Ends-bind _
                    (anything (
                      hub_of_slug w i (trim_space i.slug) (trim_space i.public_endpoint) mesh m.now
                        (get_hub_by_slug db (trim_space i.slug)) db))
                    λ at made.
                      returns (at, mesh)
                        (other mesh at picked (
                          ap
                            (λ o.
                              hub_of_slug w i (trim_space i.slug) (trim_space i.public_endpoint)
                                mesh m.now o db)
                            (sym row)
                          ∙ made)))
  where
    other :
        (mesh : String) (at : Db × Hub)
        → wanted_mesh i db ≡ ok mesh
        → hub_of_slug w i (trim_space i.slug) (trim_space i.public_endpoint) mesh m.now (some h) db
          ≡ ok at
        → ⊥
    other mesh at picked made =
        let (k, high, same, free) = suggest_free_mesh_cidr_free db mesh (ground arith) in
        let listed : str_eq mesh (trim_space h.mesh_cidr) ≡ false =
          any_of_map mesh db.hubs (λ (x : Hub). str_eq x.slug (trim_space i.slug)) h row free in
        let apart : str_eq h.mesh_cidr mesh ≡ false =
          ground
            (arith, str_eq_iff mesh (trim_space h.mesh_cidr), str_eq_iff h.mesh_cidr mesh, plain) in
        let full : is_empty mesh ≡ false = ap is_empty same ∙ candidate_full k in ground arith
