-- ===== src/Status/Rounds.antt =====
-- The loop of polls against its description: the cache shows the last round that dock answered, and a
-- missing endpoint is logged once a minute.
use polar_wg.Status.Cache.{replace-lookup, last_of, or_stamped}
use polar_wg.Status.{no_entries, with_age, lookup, Entries, replace, Sample}
use polar_wg.Base.{
  Bool, not, All-mono, [], ◌∙◌, ◌∷◌, Option-cases, arith, ◌&&◌, true, false, ◌==◌, Bool-cases,
  is_empty, ◌≤◌, ◌≡◌, All, String, Pairs, ◌+◌, Option, ℕ, List, if◌then◌else◌, none, some, inl, inr,
  refl,
}
use mathlib.Core.Path.{ap, subst, sym}
use polar_wg.Status.Poll.{
  decode_samples, log_due, log_interval, is_success, Answer, poll_start, poll_loop, fetch_once,
  poll_ticks, Poll, poll_tick, Decoding, failed, responded,
}

missing : (n : ℕ) → (n == 404) ≡ true → is_success n ≡ false
unfolding is_success
missing n e = ground arith

abbrev pub Newest : Option ℕ → List ℕ → Type 0
Newest none logged = logged ≡ []
Newest (some t) logged = All (λ (u : ℕ). u ≤ t) logged

-- Any two times, the later one first, at least the interval apart.
abbrev pub Apart : ℕ → ℕ → Type 0
Apart t u = u + log_interval ≤ t

module _ {ℓ} {B R D : Type ℓ} (dec : Decoding B R D) where
  -- The samples that a round delivers: dock has answered with success, and the body has been decoded.
  abbrev pub delivery : ℕ → Option (Answer B) → Option (ℕ × List (Sample D))
  delivery now none = none
  delivery now (some failed) = none
  delivery now (some (responded status body)) =
      if not (is_success status) then none else elim (dec.samples_of body) [
        | none ↦ none
        | some raws ↦ some (now, decode_samples dec now raws)
      ]

  -- The last delivery of some rounds.
  abbrev pub last_delivery : List (ℕ × Option (Answer B)) → Option (ℕ × List (Sample D))
  last_delivery [] = none
  last_delivery ((now, answer) ∷ later) = elim (last_delivery later) [
    | some d ↦ some d
    | none ↦ delivery now answer
  ]

  abbrev pub delivered : Option (ℕ × List (Sample D)) → Entries D → Entries D
  delivered none entries = entries
  delivered (some (t, samples)) entries = replace t samples entries

  fetch_once-delivered :
      (now : ℕ) (answer : Option (Answer B)) (entries : Entries D)
      → (fetch_once dec now answer entries).entries ≡ delivered (delivery now answer) entries
  unfolding fetch_once
  fetch_once-delivered now none entries = refl
  fetch_once-delivered now (some failed) entries = refl
  fetch_once-delivered now (some (responded status body)) entries =
      elim (Bool-cases (status == 404)) [
        | inl e ↦ rw (e, missing status e) refl
        | inr e ↦ elim (Bool-cases (is_success status)) [
          | inr f ↦ rw (e, f) refl
          | inl f ↦ elim (Option-cases (dec.samples_of body)) [
            | inl g ↦ rw (e, f, g) refl
            | inr (raws, g) ↦ rw (e, f, g) refl
          ]
        ]
      ]

  poll_tick-delivered :
      (now : ℕ) (answer : Option (Answer B)) (p : Poll D)
      → (poll_tick dec now answer p).entries ≡ delivered (delivery now answer) p.entries
  unfolding poll_tick
  poll_tick-delivered now answer p =
      elim (Bool-cases
        ((fetch_once dec now answer p.entries).not_found && log_due now p.last_not_found_log)) [
          | inl e ↦ rw e (fetch_once-delivered now answer p.entries)
          | inr e ↦ rw e (fetch_once-delivered now answer p.entries)
        ]

  poll_ticks-delivered :
      (later : List (ℕ × Option (Answer B))) (p : Poll D)
      → (poll_ticks dec later p).entries ≡ delivered (last_delivery later) p.entries
  unfolding poll_ticks replace
  poll_ticks-delivered [] p = refl
  poll_ticks-delivered ((now, answer) ∷ later) p =
      poll_ticks-delivered later (poll_tick dec now answer p)
      ∙ elim (Option-cases (last_delivery later)) [
        | inl e ↦ rw e (poll_tick-delivered now answer p)
        | inr (d, e) ↦ rw e refl
      ]

  -- What an entry of the cache shows of a delivery.
  abbrev pub sample_in : ℕ → ℕ → String → Option (ℕ × List (Sample D)) → Option (Sample D × Bool)
  sample_in ttl at key none = none
  sample_in ttl at key (some (t, samples)) =
      with_age ttl at (or_stamped t (last_of key samples) none)

  lookup-delivered :
      (ttl at : ℕ) (key : String) (d : Option (ℕ × List (Sample D)))
      → is_empty key ≡ false
      → lookup ttl at key (delivered d no_entries) ≡ sample_in ttl at key d
  lookup-delivered ttl at key none named = unfold lookup in rw named refl
  lookup-delivered ttl at key (some (t, samples)) named =
      replace-lookup ttl t at samples no_entries key named

  poll_loop-delivered :
      (now : ℕ) (answer : Option (Answer B)) (later : List (ℕ × Option (Answer B)))
      → (poll_loop dec now answer later).entries
        ≡ delivered (last_delivery ((now, answer) ∷ later)) no_entries
  unfolding poll_loop poll_start replace
  poll_loop-delivered now answer later =
      poll_ticks-delivered later (poll_start dec now answer)
      ∙ elim (Option-cases (last_delivery later)) [
        | inl e ↦ rw e (fetch_once-delivered now answer no_entries)
        | inr (d, e) ↦ rw e refl
      ]

  -- After the polls of the loop, a lookup under a key that is not empty finds what the last
  -- round that delivered samples has for the key: the last of its samples with this key, with
  -- its time or that of the round. A round delivers where dock answers with a success and the
  -- body is decoded; a round that does not leaves the cache as it is, and without any nothing is
  -- found.
  pub poll_loop-lookup :
      (ttl now at : ℕ) (answer : Option (Answer B)) (later : List (ℕ × Option (Answer B)))
      (key : String)
      → is_empty key ≡ false
      → lookup ttl at key (poll_loop dec now answer later).entries
        ≡ sample_in ttl at key (last_delivery ((now, answer) ∷ later))
  poll_loop-lookup ttl now at answer later key named =
      ap (lookup ttl at key) (poll_loop-delivered now answer later)
      ∙ lookup-delivered ttl at key (last_delivery ((now, answer) ∷ later)) named

  abbrev IsLog : Poll D → Type 0
  IsLog p = Pairs Apart p.logged × Newest p.last_not_found_log p.logged

  log_due-Apart :
      (now : ℕ) (last : Option ℕ) (logged : List ℕ)
      → log_due now last ≡ true
      → Newest last logged
      → All (Apart now) logged
  log_due-Apart now none logged due h = subst (All (Apart now)) (sym h) tt
  log_due-Apart now (some t) logged due h =
      All-mono (λ (u : ℕ). u ≤ t) (Apart now) (λ u k. ground arith) logged h

  poll_tick-IsLog :
      (now : ℕ) (answer : Option (Answer B)) (p : Poll D)
      → IsLog p
      → IsLog (poll_tick dec now answer p)
  unfolding poll_tick
  poll_tick-IsLog now answer p h =
      elim (Bool-cases
        ((fetch_once dec now answer p.entries).not_found && log_due now p.last_not_found_log)) [
          | inr e ↦ rw e h
          | inl e ↦
              let apart : All (Apart now) p.logged =
                log_due-Apart now p.last_not_found_log p.logged (ground arith) h.1 in
              rw e (
                (apart, h.0),
                (
                  omega arith,
                  All-mono (Apart now) (λ (u : ℕ). u ≤ now) (λ u k. omega (arith, k)) p.logged
                      apart,
                ),
              )
        ]

  poll_ticks-IsLog :
      (later : List (ℕ × Option (Answer B))) (p : Poll D) → IsLog p → IsLog (poll_ticks dec later p)
  unfolding poll_ticks
  poll_ticks-IsLog [] p h = h
  poll_ticks-IsLog ((now, answer) ∷ later) p h =
      poll_ticks-IsLog later (poll_tick dec now answer p) (poll_tick-IsLog now answer p h)

  -- Any two lines about a missing endpoint are logged at least a minute apart.
  poll_loop-Apart :
      (now : ℕ) (answer : Option (Answer B)) (later : List (ℕ × Option (Answer B)))
      → Pairs Apart (poll_loop dec now answer later).logged
  unfolding poll_loop poll_start
  poll_loop-Apart now answer later =
      (poll_ticks-IsLog later (poll_start dec now answer) (tt, refl)).0
