-- ===== src/Gc/Sweep.antt =====
-- What is left after a sweep.
use mathlib.Core.Path.{sym, subst}
use polar_wg.Gc.{
  cutoff_of, is_live, unbind, Hub, is_stale, remove_victim, remove_victims, Db, sweep,
}
use polar_wg.Store.Rows.{Device}
use polar_wg.Base.{
  select_none, some, inr, refl, ==_refl, [], ◌&&◌, All-intro, inl, Bool-cases, All-update_where,
  ◌==◌, select, arith, ◌∷◌, any, is_some_of, All-mono, false, true, All, ◌≡◌, List, Bool, ℕ,
}

-- Every row that passes a test has its id among the rows that pass it.
select-any :
    (p : Device → Bool) (xs : List Device)
    → All (λ (x : Device). p x ≡ true → any (λ (v : Device). v.id == x.id) (select p xs) ≡ true) xs
select-any p [] = tt
select-any p (x ∷ xs) = elim (Bool-cases (p x)) [
  | inl e ↦
      let here : select p (x ∷ xs) ≡ x ∷ select p xs = rw e refl in
      subst
        (λ l.
          All (λ (y : Device). p y ≡ true → any (λ (v : Device). v.id == y.id) l ≡ true) (x ∷ xs))
        (sym here)
        (
          (λ _. rw (==_refl x.id)),
          All-mono
              (λ (y : Device). p y ≡ true → any (λ (v : Device). v.id == y.id) (select p xs) ≡ true)
              (λ (y : Device).
                p y ≡ true → any (λ (v : Device). v.id == y.id) (x ∷ select p xs) ≡ true)
              (λ y h t. ground (arith, h t)) xs (select-any p xs),
        )
  | inr e ↦
      let here : select p (x ∷ xs) ≡ select p xs = rw e refl in
      subst
        (λ l.
          All (λ (y : Device). p y ≡ true → any (λ (v : Device). v.id == y.id) l ≡ true) (x ∷ xs))
        (sym here) ((λ t. cc), select-any p xs)
]

module _ (now cutoff : ℕ) where
  abbrev Listed : List Device → Device → Type 0
  Listed vs x = is_stale cutoff x ≡ true → any (λ (v : Device). v.id == x.id) vs ≡ true

  remove_victims-fresh :
      (vs : List Device) (db : Db)
      → All (Listed vs) db.devices
      → All (λ x. is_stale cutoff x ≡ false) (remove_victims now vs db).devices
  unfolding remove_victims remove_victim is_stale
  remove_victims-fresh [] db h =
      All-mono (Listed []) (λ x. is_stale cutoff x ≡ false) (λ x k. ground arith) db.devices h
  remove_victims-fresh (v ∷ vs) db h = remove_victims-fresh vs (remove_victim now v.id db) (
      All-update_where (Listed (v ∷ vs)) (Listed vs) (λ (d : Device). d.id == v.id && is_live d)
        (λ d. record d { removed_at = some now }) (λ x e k s. ground arith)
        (λ x e k s. ground (arith, k s)) db.devices h)

  remove_victims-unbound :
      (vs : List Device) (p : Hub → Bool) (db : Db)
      → ((h : Hub) → p h ≡ false → p (unbind now h) ≡ false)
      → All (λ h. p h ≡ false) db.hubs
      → All (λ h. p h ≡ false) (remove_victims now vs db).hubs
  unfolding remove_victims remove_victim
  remove_victims-unbound [] p db keeps h = h
  remove_victims-unbound (v ∷ vs) p db keeps h =
      remove_victims-unbound vs p (remove_victim now v.id db) keeps (
        All-update_where (λ h. p h ≡ false) (λ h. p h ≡ false)
          (λ (h : Hub). is_some_of h.bound_device_id v.id) (unbind now) (λ h e k. keeps h k)
          (λ h e k. k) db.hubs h)

  remove_victims-released :
      (vs : List Device) (db : Db)
      → All
          (λ v.
            All
              (λ (h : Hub). is_some_of h.bound_device_id v.id ≡ false)
              (remove_victims now vs db).hubs)
          vs
  unfolding remove_victims remove_victim
  remove_victims-released [] db = tt
  remove_victims-released (v ∷ vs) db = (
    remove_victims-unbound vs (λ h. is_some_of h.bound_device_id v.id) (remove_victim now v.id db)
        (λ h k. refl)
        (All-update_where (λ (h : Hub). Unit {0})
          (λ (h : Hub). is_some_of h.bound_device_id v.id ≡ false)
          (λ (h : Hub). is_some_of h.bound_device_id v.id) (unbind now) (λ h e k. refl) (λ h e k. e)
          db.hubs (All-intro (λ (h : Hub). Unit {0}) (λ h. tt) db.hubs)),
    remove_victims-released vs (remove_victim now v.id db),
  )

-- After a sweep no device is live and stale, and no hub is bound to a device that was before it.
pub sweep-fresh :
    (now ttl : ℕ) (db : Db)
    → All (λ x. is_stale (cutoff_of now ttl) x ≡ false) (sweep now ttl db).0.devices
      × All
          (λ v.
            All (λ (h : Hub). is_some_of h.bound_device_id v.id ≡ false) (sweep now ttl db).0.hubs)
          (select (is_stale (cutoff_of now ttl)) db.devices)
unfolding sweep
sweep-fresh now ttl db = (
  remove_victims-fresh now (cutoff_of now ttl) (select (is_stale (cutoff_of now ttl)) db.devices) db
      (select-any (is_stale (cutoff_of now ttl)) db.devices),
  remove_victims-released now (cutoff_of now ttl) (select (is_stale (cutoff_of now ttl)) db.devices)
      db,
)

-- A second sweep with the same time and time to live changes nothing and counts no device.
sweep_again :
    (now ttl : ℕ) (db : Db) → sweep now ttl (sweep now ttl db).0 ≡ ((sweep now ttl db).0, 0)
unfolding sweep remove_victims
sweep_again now ttl db = rw (
    select_none (is_stale (cutoff_of now ttl)) (sweep now ttl db).0.devices
      (sweep-fresh now ttl db).0)
