-- ===== src/Steps/Calls.antt =====
-- The whole call POST /v1/register: its checks, its transactions, and the database that it leaves.
use polar_wg.Steps.Progress.{IsFirstCall, reachable_registration_succeeds}
use polar_wg.Steps.Machine.{Reachable, registered, next}
use polar_wg.Alloc.Joining.{Joined}
use polar_wg.Alloc.Sites.{resolve_or_create_site}
use polar_wg.Alloc.Index.{used_d_indexes}
use polar_wg.Alloc.{Attempts, attempt, is_serialization, retry, listen_port, allocate_wg_device}
use polar_wg.Alloc.Input.{Allocated, RegisterInput, Call}
use polar_wg.Store.Devices.{validate_pubkey}
use polar_wg.Store.Rows.{Device, Site, Db, Hub, Token, configured}
use polar_wg.Net.{World}
use mathlib.Core.Path.{subst}
use polar_wg.Errors.{Error, Result, ok, err, could_not_serialize, token_invalid, Result-cases}
use polar_wg.Errors.Ends.{Ends, returns, fails}
use polar_wg.Base.{
  ◌⊎◌, inl, inr, ◌≡◌, ◌≢◌, ◌<◌, ap, sym, ◌∙◌, refl, arith, true, false, none, some, any, str_eq,
  is_empty, length, trim_space, ℕ, Option-cases, Bool-cases,
}

serialization_only : (e : Error) → is_serialization e ≡ true → e ≡ could_not_serialize
serialization_only could_not_serialize h = refl
serialization_only e h = cc

serial_known : is_serialization could_not_serialize ≡ true
serial_known = refl

err_inj {ℓ} : {A : Type ℓ} (e f : Error) → ◌≡◌ {A = Result A} (err e) (err f) → e ≡ f
err_inj e f h = cc

module _ (w : World) (c : Call) (t : Attempts) (i : RegisterInput) where
  -- The input as the transactions see it, and how the n-th transaction ends.
  abbrev pub sent : RegisterInput
  sent = record i { wg_listen_port = listen_port i.wg_listen_port }

  abbrev pub tried : ℕ → Result (Db × Allocated)
  tried n = attempt w c t sent n

  -- The first transaction, or the second after one that could not be serialized.
  abbrev pub LastTried : Result (Db × Allocated) → Type 0
  LastTried o =
      ((tried 0 ≡ o) × (o ≢ err could_not_serialize))
      ⊎ ((tried 0 ≡ err could_not_serialize) × (tried 1 ≡ o))

  abbrev pub IsRefused : Error → Type 0
  IsRefused e =
      (validate_pubkey i.pubkey ≡ err e)
      ⊎ ((is_empty (trim_space i.token) ≡ true) × (e ≡ token_invalid))

  -- The rounds after the first, once it has ended with an error.
  second_round :
      (e : Error)
      → tried 0 ≡ err e
      → is_serialization e ≡ true
      → retry w c t sent 2 0 token_invalid ≡ tried 1
  unfolding retry
  second_round e first again = elim (Result-cases (tried 1)) [
    | inl (r, second) ↦ ground (arith, first, second)
    | inr (f, second) ↦ elim (Bool-cases (is_serialization f)) [
      | inl t ↦ ground (arith, first, second)
      | inr f ↦ ground (arith, first, second)
    ]
  ]

  retry-LastTried : LastTried (retry w c t sent 2 0 token_invalid)
  unfolding retry
  retry-LastTried = elim (Result-cases (tried 0)) [
    | inl (r, first) ↦
        let done : retry w c t sent 2 0 token_invalid ≡ ok r = ground (arith, first) in
        inl (first ∙ sym done, λ bad. cc)
    | inr (e, first) ↦ elim (Bool-cases (is_serialization e)) [
      | inl again ↦
          inr (first ∙ ap err (serialization_only e again), sym (second_round e first again))
      | inr final ↦
          let done : retry w c t sent 2 0 token_invalid ≡ err e = ground (arith, first) in
          inl (
            first ∙ sym done,
            λ bad. ground (arith, serial_known, err_inj e could_not_serialize (sym done ∙ bad)),
          )
    ]
  ]

  -- What a call does: it is refused before any transaction, or it ends as its last transaction.
  allocate_wg_device-cases :
      ((e : Error) × (allocate_wg_device w c t i ≡ err e) × IsRefused e)
      ⊎ ((validate_pubkey i.pubkey ≡ ok tt)
          × (is_empty (trim_space i.token) ≡ false)
          × LastTried (allocate_wg_device w c t i))
  unfolding allocate_wg_device
  allocate_wg_device-cases = elim (Result-cases (validate_pubkey i.pubkey)) [
    | inr (e, bad) ↦ inl (e, ground (arith, bad), inl bad)
    | inl (u, good) ↦ elim (Bool-cases (is_empty (trim_space i.token))) [
      | inl blank ↦ inl (token_invalid, ground (arith, good), inr (blank, refl))
      | inr text ↦
          let run : allocate_wg_device w c t i ≡ retry w c t sent 2 0 token_invalid =
            ground (arith, good) in
          inr (good, text, subst LastTried (sym run) retry-LastTried)
    ]
  ]

  module _ (reached : (n : ℕ) → n < 2 → Reachable w (t.snapshot n))
      (fresh : (n : ℕ)
        → n < 2
        → any (λ (d : Device). str_eq d.device_id c.device_id) (t.snapshot n).devices ≡ false) where
    tried-Reachable : (n : ℕ) (r : Db × Allocated) → n < 2 → tried n ≡ ok r → Reachable w r.0
    tried-Reachable n r below done = elim (Option-cases (t.fault n)) [
      | inl e ↦ next (reached n below) (registered c sent r (fresh n below) (ground (arith, e)))
      | inr (f, e) ↦ ground (arith, e)
    ]

    -- Where the databases that the two transactions of a call read are reached ones, with no row
    -- that has the call's device id, the call ends in one of two ways. It succeeds, with a
    -- usable key and a token that is not blank, as its first transaction, or as its second where
    -- the first could not be serialized, and leaves a reached database. Or it ends with the
    -- error of the key or of the blank token, or with that of its first transaction where this
    -- is no failed serialization, or else with that of its second.
    pub allocate_wg_device-Ends :
        Ends
          (λ r.
            Reachable w r.0
            × (validate_pubkey i.pubkey ≡ ok tt)
            × (is_empty (trim_space i.token) ≡ false)
            × LastTried (ok r))
          (λ e. IsRefused e ⊎ LastTried (err e))
          (allocate_wg_device w c t i)
    allocate_wg_device-Ends = elim (Result-cases (allocate_wg_device w c t i)) [
      | inr (e, done) ↦ rw done (fails e (why e done))
      | inl (r, done) ↦ rw done (returns r (committed r done))
    ]
      where
        why : (e : Error) → allocate_wg_device w c t i ≡ err e → IsRefused e ⊎ LastTried (err e)
        why e done = elim allocate_wg_device-cases [
          | inl (f, early, refused) ↦ inl (subst IsRefused (err_inj f e (sym early ∙ done)) refused)
          | inr (good, text, last) ↦ inr (subst LastTried done last)
        ]

        committed :
            (r : Db × Allocated)
            → allocate_wg_device w c t i ≡ ok r
            → Reachable w r.0
              × (validate_pubkey i.pubkey ≡ ok tt)
              × (is_empty (trim_space i.token) ≡ false)
              × LastTried (ok r)
        committed r done = elim allocate_wg_device-cases [
          | inl (f, early, refused) ↦ cc
          | inr (good, text, last) ↦
              let last' : LastTried (ok r) = subst LastTried done last in
              (
                elim last' [
                  | inl (first, final) ↦ tried-Reachable 0 r (omega arith) first
                  | inr (first, second) ↦ tried-Reachable 1 r (omega arith) second
                ],
                good,
                text,
                last',
              )
        ]

-- Where PostgreSQL ends the first transaction of a call because it cannot be serialized, and not
-- the second, the call succeeds if the second one reads a reached database in which it is a
-- first call with an unused device token of a hub that is up, its site is found or made, and
-- fewer than 253 live devices are then at the hub's sites, and if its key is usable and its
-- token not blank: a device has joined that database, and the database that is left is a reached
-- one.
pub retried_registration_succeeds :
    (w : World) (c : Call) (t : Attempts) (i : RegisterInput) (tok : Token) (h : Hub)
    (at : Db × Site)
    → t.fault 0 ≡ some could_not_serialize
    → t.fault 1 ≡ none
    → validate_pubkey i.pubkey ≡ ok tt
    → is_empty (trim_space i.token) ≡ false
    → Reachable w (t.snapshot 1)
    → IsFirstCall w c (sent w c t i) tok h (t.snapshot 1)
    → configured h ≡ true
    → resolve_or_create_site w h.id (sent w c t i) c.now (t.snapshot 1) ≡ ok at
    → length (used_d_indexes at.0 h.id) < 253
    → (r : Db × Allocated) × (allocate_wg_device w c t i ≡ ok r)
      × Joined w c (sent w c t i) tok h (t.snapshot 1) r
      × Reachable w r.0
retried_registration_succeeds w c t i tok h at lost kept good text path call up site room =
    let (r, done, joined) =
      reachable_registration_succeeds w c (sent w c t i) tok h (t.snapshot 1) path call at up site
        room in
    let first : tried w c t i 0 ≡ err could_not_serialize = ground (arith, lost) in
    let second : tried w c t i 1 ≡ ok r = ground (arith, kept, done) in
    (
      r,
      elim (allocate_wg_device-cases w c t i) [
        | inl (e, early, inl bad) ↦ cc
        | inl (e, early, inr (blank, same)) ↦ cc
        | inr (g, x, inl (other, final)) ↦ absurd (final (sym other ∙ first))
        | inr (g, x, inr (lost', last)) ↦ sym last ∙ second
      ],
      joined,
      next path (registered c (sent w c t i) r call.fresh done),
    )
