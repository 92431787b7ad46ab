-- ===== src/Detail/Confirmation.antt =====
-- How often the endpoint panel sends the request of a destructive endpoint.
use dotnet_web_api_startpack.Prelude.{
  ℕ, suc, ◌+◌, ◌*◌, ◌≤◌, List, [], ◌∷◌, Bool, true, false, none, some, ◌≡◌, arith, All,
  Option-cases, inl, inr, length,
}
use dotnet_web_api_startpack.Platform.{Platform}
use dotnet_web_api_startpack.Workbench.State.{RunRequestOptions}
use dotnet_web_api_startpack.Detail.{
  Detail, View, Outcome, sent, Action, step, execute, attempt_send, format_json, copy_curl,
  set_path_value, set_query_value, choose_tab,
}

-- The actions that press a button or the shortcut for sending.
abbrev pub presses : List (View × Action) → ℕ
presses [] = 0
presses ((_, Action.press_send) ∷ steps) = suc (presses steps)
presses ((_, Action.shortcut) ∷ steps) = suc (presses steps)
presses ((_, Action.press_confirm) ∷ steps) = suc (presses steps)
presses (_ ∷ steps) = presses steps

abbrev pub add_sent : Outcome → List RunRequestOptions → List RunRequestOptions
add_sent (sent options) requests = options ∷ requests
add_sent _ requests = requests

abbrev pub pending : Bool → ℕ
pending true = 1
pending false = 0

module _ ⦃p : Platform⦄ where
  -- The requests that a sequence of actions sends, each action with the render in which it is taken;
  -- an exception of the render ends the sequence.
  abbrev pub replay : List (View × Action) → Detail → List RunRequestOptions
  replay [] d = []
  replay ((view, action) ∷ steps) d = elim (step view action d) [
    | none ↦ []
    | some (d', outcome) ↦ add_sent outcome (replay steps d')
  ]

  abbrev pub cost : Outcome → ℕ
  cost (sent _) = 2
  cost _ = 0

  abbrev press : Action → ℕ
  press Action.press_send = 1
  press Action.shortcut = 1
  press Action.press_confirm = 1
  press _ = 0

  -- A step pays for what it sends with the confirmation that it closes and its own press.
  step-paid :
      (view : View) (action : Action) (d d' : Detail) (outcome : Outcome)
      → view.endpoint.destructive ≡ true
      → step view action d ≡ some (d', outcome)
      → cost outcome + pending d'.confirming ≤ press action + pending d.confirming
  unfolding step execute attempt_send copy_curl format_json set_path_value set_query_value
      choose_tab
  step-paid view Action.shortcut d d' outcome h e = ground arith
  step-paid view action d d' outcome h e = ground arith

  presses-cons :
      (view : View) (action : Action) (steps : List (View × Action))
      → presses ((view, action) ∷ steps) ≡ press action + presses steps
  presses-cons view Action.shortcut steps = omega arith
  presses-cons view action steps = ground arith

  replay-add :
      (outcome : Outcome) (requests : List RunRequestOptions)
      → 2 * length (add_sent outcome requests) ≡ cost outcome + 2 * length requests
  replay-add (sent options) requests = omega arith
  replay-add outcome requests = ground arith

  -- On a destructive endpoint, each request that a sequence of actions sends takes two presses of the
  -- buttons or the shortcut, one of which may be the press that has opened the confirmation before:
  -- twice the number of requests is at most the number of presses, and one more if a confirmation is
  -- open at the beginning.
  pub replay-presses :
      (steps : List (View × Action)) (d : Detail)
      → All (λ s. s.0.endpoint.destructive ≡ true) steps
      → 2 * length (replay steps d) ≤ presses steps + pending d.confirming
  replay-presses [] d h = omega arith
  replay-presses ((view, action) ∷ steps) d (h, hs) = elim (Option-cases (step view action d)) [
    | inl e ↦ rw (e, replay) (omega arith)
    | inr ((d', outcome), e) ↦
        let paid = step-paid view action d d' outcome h e in
        let rest = replay-presses steps d' hs in
        let count = presses-cons view action steps in
        let sum = replay-add outcome (replay steps d') in
        rw (e, replay) (omega (arith, paid, rest, count, sum))
  ]
