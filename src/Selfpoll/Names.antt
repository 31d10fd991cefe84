-- ===== src/Selfpoll/Names.antt =====
-- Which interface and key the pushes of the hub's own poll are under.
use polar_wg.Base.{
  Option, [], ◌∷◌, All, some_inj, ℕ, Option-cases, List, false, trim_space, is_empty, Bool-cases,
  ◌≡◌, String, none, some, inl, inr, refl,
}
use polar_wg.Errors.{Result-cases}
use polar_wg.Wgctl.{parse_wgctl_show}
use mathlib.Core.Path.{subst}
use polar_wg.Selfpoll.{
  parse_wg_show_dump, Flavor, read_tool, run_tool, pick_backend, self_poll_loop, self_poll_once,
  self_poll, lacks_key, iface_pub_key, cons_some, Push, Scaled, Report, Started, World, Machine,
  start_self_poll, of_ctl, of_dump, wgctl, wg,
}

-- The key of a push, by the parser that its data come from.
abbrev pub IsKeyed : String → String → Report → Type 0
IsKeyed configured key (of_ctl d) =
    (key ≡ configured) × (is_empty key ≡ false) × (d.iface_public_key ≡ key)
IsKeyed configured key (of_dump d) = d.iface_public_key ≡ key

-- A push of the started poll: under the interface and, by wgctl, under the key that are configured,
-- which are not empty; by wg, under the key that the tool printed.
abbrev pub IsNamed : Machine → Push → Type 0
IsNamed m p =
    (p.iface ≡ trim_space (m.getenv "POLAR_WG_HUB_LOCAL_POLL_IFACE"))
    × (is_empty p.iface ≡ false)
    × IsKeyed (iface_pub_key m) p.iface_public_key p.report

record IsStarted (m : Machine) (s : Started) : Type 0 where
  iface : s.iface ≡ trim_space (m.getenv "POLAR_WG_HUB_LOCAL_POLL_IFACE")
  iface_named : is_empty s.iface ≡ false
  key : s.iface_public_key ≡ iface_pub_key m
  key_named : lacks_key s.backend.flavor s.iface_public_key ≡ false

no_result {ℓ} : {A : Type ℓ} (a : A) → none ≡ some a → ⊥
no_result a e = cc

start_self_poll-IsStarted : (m : Machine) (s : Started) → start_self_poll m ≡ some s → IsStarted m s
unfolding start_self_poll
start_self_poll-IsStarted m s e =
    elim (Bool-cases (is_empty (trim_space (m.getenv "POLAR_WG_HUB_LOCAL_POLL_IFACE")))) [
      | inl f ↦ absurd (no_result s (rw f at e))
      | inr f ↦ elim (Option-cases (pick_backend m)) [
        | inl g ↦ absurd (no_result s (rw (f, g) at e))
        | inr (b, g) ↦ elim (Bool-cases (lacks_key b.flavor (iface_pub_key m))) [
          | inl k ↦ absurd (no_result s (rw (f, g, k) at e))
          | inr k ↦
              subst (IsStarted m) (some_inj _ _ (rw (f, g, k) at e))
                (record { iface = refl; iface_named = f; key = refl; key_named = k })
        ]
      ]
    ]

abbrev KeyedPair : String → String × Report → Type 0
KeyedPair configured q = IsKeyed configured q.0 q.1

read_tool-IsKeyed :
    (scaled : Scaled) (now : ℕ) (flavor : Flavor) (iface configured out : String)
    (q : String × Report)
    → lacks_key flavor configured ≡ false
    → read_tool scaled now flavor iface configured out ≡ some q
    → KeyedPair configured q
unfolding parse_wgctl_show
read_tool-IsKeyed scaled now wgctl iface configured out q h e =
    elim (Bool-cases (is_empty (trim_space out))) [
      | inl f ↦ absurd (no_result q (rw f at e))
      | inr f ↦ subst (KeyedPair configured) (some_inj _ q (rw f at e)) (refl, h, refl)
    ]
read_tool-IsKeyed scaled now wg iface configured out q h e =
    elim (Result-cases (parse_wg_show_dump now iface out)) [
      | inr (failure, f) ↦ absurd (no_result q (rw f at e))
      | inl (d, f) ↦ subst (KeyedPair configured) (some_inj _ q (rw f at e)) refl
    ]

cons_some-All {ℓ κ} :
    {A : Type ℓ} (P : A → Type κ) (o : Option A) (xs : List A)
    → ((a : A) → o ≡ some a → P a)
    → All P xs
    → All P (cons_some o xs)
cons_some-All P none xs f h = h
cons_some-All P (some a) xs f h = (f a refl, h)

module _ (w : World) (scaled : Scaled) (m : Machine) (s : Started) (started : IsStarted m s) where
  self_poll_once-IsNamed :
      (now : ℕ) (machine : Machine) (p : Push)
      → self_poll_once w scaled s (now, machine) ≡ some p
      → IsNamed m p
  unfolding self_poll_once
  self_poll_once-IsNamed now machine p e =
      elim (Option-cases (run_tool machine s.backend s.iface)) [
        | inl f ↦ absurd (no_result p (rw (self_poll_once, f) at e))
        | inr (out, f) ↦
            elim (Option-cases
              (read_tool scaled now s.backend.flavor s.iface s.iface_public_key out)) [
                | inl g ↦ absurd (no_result p (rw (self_poll_once, f, g) at e))
                | inr (q, g) ↦ subst (IsNamed m) (some_inj _ p (rw (self_poll_once, f, g) at e)) (
                  started.iface,
                  started.iface_named,
                  subst (λ key. IsKeyed key q.0 q.1) started.key
                      (read_tool-IsKeyed scaled now s.backend.flavor s.iface s.iface_public_key out
                        q started.key_named g),
                )
              ]
      ]

  self_poll_loop-IsNamed :
      (rounds : List (ℕ × Machine)) → All (IsNamed m) (self_poll_loop w scaled s rounds)
  unfolding self_poll_loop
  self_poll_loop-IsNamed [] = tt
  self_poll_loop-IsNamed ((now, machine) ∷ rounds) =
      cons_some-All (IsNamed m) (self_poll_once w scaled s (now, machine))
        (self_poll_loop w scaled s rounds) (self_poll_once-IsNamed now machine)
        (self_poll_loop-IsNamed rounds)

-- Each push of a plugin's own poll is under the interface that is configured, which is not
-- empty. If its data come from wgctl, its key is the configured one, which is not empty, and if
-- they come from wg, the key is that of the data.
pub self_poll-IsNamed :
    (w : World) (scaled : Scaled) (m : Machine) (rounds : List (ℕ × Machine))
    → All (IsNamed m) (self_poll w scaled m rounds)
unfolding self_poll
self_poll-IsNamed w scaled m rounds = elim (Option-cases (start_self_poll m)) [
  | inl e ↦ rw (self_poll, e) tt
  | inr (s, e) ↦
      rw (self_poll, e)
        (self_poll_loop-IsNamed w scaled m s (start_self_poll-IsStarted m s e) rounds)
]
