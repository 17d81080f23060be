-- ===== src/App/Verifications/Tests.antt =====
-- A call that has its slot, and one that waits.
use gin_di.Prelude.{◌≤◌, ◌≡◌, ◌⊎◌, ◌<◌, [], ◌∷◌, arith}
use gin_di.App.Verifications.{
  waiting, checking, Semaphore, Step, call, send, Reach, start, next, work, new_user_service,
}
use gin_di.App.Verifications.Slots.{IsBounded, reach-IsBounded, reach_progress}

abbrev two_calls : Semaphore
two_calls = record { held = 1; calls = waiting ∷ checking ∷ [] }

two_calls_reached : Reach two_calls
two_calls_reached =
    next (record { held = 1; calls = checking ∷ [] }) two_calls
      (next (record { held = 0; calls = waiting ∷ [] }) _
        (next new_user_service _ start (call 0 [])) (send 0 [] [] (omega arith)))
      (call 1 (checking ∷ []))

reach-IsBounded_example : IsBounded two_calls
reach-IsBounded_example = reach-IsBounded two_calls two_calls_reached

reach_progress_example :
    (1 ≤ work two_calls.calls
      → (t : Semaphore) × Step two_calls t × (work t.calls < work two_calls.calls))
    × ((t : Semaphore)
        → Step two_calls t
        → (t ≡ record { held = 1; calls = waiting ∷ waiting ∷ checking ∷ [] })
          ⊎ (work t.calls < work two_calls.calls))
reach_progress_example = reach_progress two_calls two_calls_reached
