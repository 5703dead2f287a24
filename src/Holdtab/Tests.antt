-- ===== src/Holdtab/Tests.antt =====
-- Two keys, with callbacks named by numbers.
use okws.Prelude.{ℕ, ◌≡◌, refl, List, [], ◌∷◌, codes, true, false}
use okws.Holdtab.{inq, finish}
use okws.Holdtab.History.{
  Event, queued, finished, under_way, called, failed, run, spec_run, run-Waiting,
}

abbrev events : List (Event ℕ ℕ)
events =
    queued (codes "a") 1
    ∷ queued (codes "b") 2
    ∷ queued (codes "a") 3
    ∷ finished (codes "a") 70
    ∷ queued (codes "a") 4
    ∷ finished (codes "b") 80
    ∷ finished (codes "b") 90
    ∷ []

outcomes :
    run events []
    ≡ under_way false
      ∷ under_way false
      ∷ under_way true
      ∷ called ((1, 70) ∷ (3, 70) ∷ [])
      ∷ under_way false
      ∷ called ((2, 80) ∷ [])
      ∷ failed
      ∷ []
unfolding run inq finish
outcomes = refl

run-Waiting_example : run events [] ≡ spec_run events (λ k. [])
run-Waiting_example = run-Waiting events
