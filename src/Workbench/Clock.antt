-- ===== src/Workbench/Clock.antt =====
-- The effect of workbench-context.tsx that keeps the one-time code up to date: it computes a code at once
-- and then each second, and drops what was computed for an earlier run of the effect.
pub mod Fresh
use dotnet_web_api_startpack.Prelude.{
  ℕ, zero, suc, ◌<◌, Text, List, [], ◌∷◌, Bool, true, false, Option, none, some, some-injective,
  ◌≡◌, refl, subst, sym, ap, ◌∙◌, arith, All, Bool-cases, Option-cases, inl, inr, ◌==◌, text_eq,
  get_elem?, if◌then◌else◌,
}
use dotnet_web_api_startpack.Template.{is_empty}

-- A code that is being computed: the run of the effect that asked for it, and its secret.
pub record Computation : Type 0 where
  pub run : ℕ
  pub secret : Text

-- `secret` is `variables.totpSecret` of the state, `seen` that of the render whose effects ran last,
-- `active` the run of the effect whose flag `active` is true, `next` the number of the next run.
pub record Clock : Type 0 where
  pub secret : Text
  pub seen : Text
  pub active : Option ℕ
  pub next : ℕ
  pub computing : List Computation

-- What happens: the state has another secret, a render with that of the state and its effects, a tick of
-- the interval, or the end of the computation at a place of the list, where `none` is a failure.
pub data Tick : Type 0 where
  change : Text → Tick
  render : Tick
  tick : Tick
  computed : ℕ → Option Text → Tick

abbrev pub no_clock : Clock
no_clock = record { secret = []; seen = []; active = none; next = 0; computing = [] }

-- `update`
abbrev pub update : Clock → Clock
update clock = elim clock.active [
  | none ↦ clock
  | some run ↦ record clock {
    computing = record { run = run; secret = clock.seen } ∷ clock.computing;
  }
]

-- The effects of a render: where the secret is another one than before, the run before is cleaned up, and
-- the effect runs again.
unfoldable pub run_effect : Clock → Clock
run_effect clock =
    if text_eq clock.secret clock.seen
    then clock
    else if is_empty clock.secret
    then record clock { seen = clock.secret; active = none }
    else update
        (record clock { seen = clock.secret; active = some clock.next; next = suc clock.next })

abbrev pub remove_at {ℓ} : {A : Type ℓ} → ℕ → List A → List A
remove_at i [] = []
remove_at zero (x ∷ xs) = xs
remove_at (suc i) (x ∷ xs) = x ∷ remove_at i xs

abbrev pub is_active : Option ℕ → ℕ → Bool
is_active none run = false
is_active (some k) run = k == run

-- What the end of a computation sets: the secret that was used, and the code.
unfoldable pub code_set : ℕ → Option Text → Clock → Option (Text × Text)
code_set i result clock = elim (get_elem? clock.computing i) [
  | none ↦ none
  | some computation ↦ elim result [
    | none ↦ none
    | some code ↦
        if is_active clock.active computation.run then some (computation.secret, code) else none
  ]
]

unfoldable pub advance : Tick → Clock → Clock
advance (change secret) clock = record clock { secret = secret }
advance render clock = run_effect clock
advance tick clock = update clock
advance (computed i result) clock = record clock { computing = remove_at i clock.computing }

-- A code that is set: the secret that it was computed for, and at that time that of the last effects.
pub record Setting : Type 0 where
  pub used : Text
  pub seen : Text

-- The codes that are set along a sequence of ticks.
unfoldable pub codes_set : List Tick → Clock → List Setting
codes_set [] clock = []
codes_set (computed i result ∷ ticks) clock =
    let rest = codes_set ticks (advance (computed i result) clock) in
    elim (code_set i result clock) [
      | none ↦ rest
      | some (secret, code) ↦ record { used = secret; seen = clock.seen } ∷ rest
    ]
codes_set (t ∷ ticks) clock = codes_set ticks (advance t clock)
