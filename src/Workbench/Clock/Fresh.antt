-- ===== src/Workbench/Clock/Fresh.antt =====
-- The codes that the TOTP effect of workbench-context.tsx sets, and the secret of the page.
use dotnet_web_api_startpack.Prelude.{
  ℕ, zero, suc, ◌<◌, Text, List, [], ◌∷◌, true, Option, none, some, some-injective, ◌≡◌, refl,
  subst, sym, ap, ◌∙◌, arith, All, Bool-cases, Option-cases, inl, inr, text_eq, get_elem?,
}
use dotnet_web_api_startpack.Template.{is_empty}
use dotnet_web_api_startpack.Workbench.Clock.{
  Computation, Clock, Tick, change, render, tick, computed, no_clock, update, run_effect, Setting,
  remove_at, is_active, code_set, advance, codes_set,
}

-- A computation of the active run has the secret of the last effects; runs are numbered below the next one.
abbrev pub IsFresh : Clock → Computation → Type 0
IsFresh clock c =
    (c.run < clock.next) × (is_active clock.active c.run ≡ true → c.secret ≡ clock.seen)

pub record IsClock (clock : Clock) : Type 0 where
  pub fresh : All (IsFresh clock) clock.computing
  pub below : (k : ℕ) → clock.active ≡ some k → k < clock.next

remove-All {ℓ} :
    (P : Computation → Type ℓ) (i : ℕ) (cs : List Computation) → All P cs → All P (remove_at i cs)
remove-All P i [] h = tt
remove-All P zero (c ∷ cs) h = h.1
remove-All P (suc i) (c ∷ cs) h = (h.0, remove-All P i cs h.1)

get-IsFresh :
    (clock : Clock) (i : ℕ) (cs : List Computation) (c : Computation)
    → All (IsFresh clock) cs
    → get_elem? cs i ≡ some c
    → IsFresh clock c
get-IsFresh clock i [] c h e = absurd (ground arith)
get-IsFresh clock zero (d ∷ cs) c h e =
    subst (λ (x : Computation). IsFresh clock x) (some-injective d c e) h.0
get-IsFresh clock (suc i) (d ∷ cs) c h e = get-IsFresh clock i cs c h.1 e

-- What was computed for an earlier run is of no account for a new secret.
renew-All :
    (secret : Text) (clock : Clock) (cs : List Computation)
    → All (IsFresh clock) cs
    → All
        (IsFresh (record clock { seen = secret; active = some clock.next; next = suc clock.next }))
        cs
renew-All secret clock [] h = tt
renew-All secret clock (c ∷ cs) (h, hs) = (ground arith, renew-All secret clock cs hs)

stop-All :
    (secret : Text) (clock : Clock) (cs : List Computation)
    → All (IsFresh clock) cs
    → All (IsFresh (record clock { seen = secret; active = none })) cs
stop-All secret clock [] h = tt
stop-All secret clock (c ∷ cs) (h, hs) = (ground arith, stop-All secret clock cs hs)

change-All :
    (secret : Text) (clock : Clock) (cs : List Computation)
    → All (IsFresh clock) cs
    → All (IsFresh (record clock { secret = secret })) cs
change-All secret clock [] h = tt
change-All secret clock (c ∷ cs) (h, hs) = (h, change-All secret clock cs hs)

update-IsClock : (clock : Clock) → IsClock clock → IsClock (update clock)
update-IsClock clock v = elim (Option-cases clock.active) [
  | inl e ↦ rw (e, update) v
  | inr (k, e) ↦
      rw (e, update) (record { fresh = ((v.below k e, (λ _. refl)), v.fresh); below = v.below })
]

advance-IsClock : (t : Tick) (clock : Clock) → IsClock clock → IsClock (advance t clock)
unfolding advance run_effect
advance-IsClock (change secret) clock v = record {
  fresh = change-All secret clock clock.computing v.fresh;
  below = v.below;
}
advance-IsClock render clock v = elim (Bool-cases (text_eq clock.secret clock.seen)) [
  | inl same ↦ rw same v
  | inr other ↦ elim (Bool-cases (is_empty clock.secret)) [
    | inl blank ↦
        rw (other, blank)
          (record {
            fresh = stop-All clock.secret clock clock.computing v.fresh;
            below = λ k e. absurd (ground arith);
          })
    | inr full ↦
        rw (other, full)
          (update-IsClock
            (record clock { seen = clock.secret; active = some clock.next; next = suc clock.next })
            (record {
              fresh = renew-All clock.secret clock clock.computing v.fresh;
              below = λ k e. ground arith;
            }))
  ]
]
advance-IsClock tick clock v = update-IsClock clock v
advance-IsClock (computed i result) clock v = record {
  fresh = remove-All (IsFresh clock) i clock.computing v.fresh;
  below = v.below;
}

code_set-secret :
    (i : ℕ) (result : Option Text) (clock : Clock) (secret code : Text)
    → IsClock clock
    → code_set i result clock ≡ some (secret, code)
    → secret ≡ clock.seen
unfolding code_set
code_set-secret i none clock secret code v e = elim (Option-cases (get_elem? clock.computing i)) [
  | inl e1 ↦ absurd (ground (arith, (rw (e1, code_set) at e)))
  | inr (computation, e1) ↦ absurd (ground (arith, (rw (e1, code_set) at e)))
]
code_set-secret i (some c) clock secret code v e =
    elim (Option-cases (get_elem? clock.computing i)) [
      | inl e1 ↦ absurd (ground (arith, (rw (e1, code_set) at e)))
      | inr (computation, e1) ↦ elim (Bool-cases (is_active clock.active computation.run)) [
        | inr off ↦ absurd (ground (arith, (rw (e1, off, code_set) at e)))
        | inl on ↦
            let fresh = get-IsFresh clock i clock.computing computation v.fresh e1 in
            let same = some-injective _ (secret, code) (rw (e1, on, code_set) at e) in
            ap (λ (r : Text × Text). r.0) (sym same) ∙ fresh.1 on
      ]
    ]

abbrev pub AreCurrent : List Setting → Type 0
AreCurrent = All (λ (r : Setting). r.used ≡ r.seen)

codes_set-current :
    (ticks : List Tick) (clock : Clock) → IsClock clock → AreCurrent (codes_set ticks clock)
unfolding codes_set
codes_set-current [] clock v = tt
codes_set-current (computed i result ∷ ticks) clock v =
    let later =
      codes_set-current ticks (advance (computed i result) clock)
        (advance-IsClock (computed i result) clock v) in
    elim (Option-cases (code_set i result clock)) [
      | inl e ↦ rw (e, codes_set) later
      | inr (r, e) ↦ rw (e, codes_set) (code_set-secret i result clock r.0 r.1 v e, later)
    ]
codes_set-current (t ∷ ticks) clock v =
    codes_set-current ticks (advance t clock) (advance-IsClock t clock v)

-- However changes of the secret, renders with their effects, ticks and ends of computations follow each
-- other, from the mounting of the provider on, a code that is set was computed for the secret of the
-- render whose effects ran last. It may differ from that of the state, between a change of the secret and
-- the effects of its render.
pub codes_set-no_clock : (ticks : List Tick) → AreCurrent (codes_set ticks no_clock)
codes_set-no_clock ticks =
    codes_set-current ticks no_clock (record { fresh = tt; below = λ k e. ground arith })
