-- ===== src/App/Verifications.antt =====
-- app/services/user_service.go: the slots of `verify`. Any number of logins run at once, each as a
-- goroutine; a buffered channel is a count of its values, and a send waits while it is full.
use gin_di.Prelude.{
  ℕ, zero, suc, ◌+◌, ◌-◌, ◌*◌, ◌/◌, ◌%◌, ◌^◌, ◌≤◌, ◌<◌, Text, codes, same, same_refl, same_iff,
  ne_of_same, List, [], ◌∷◌, ◌++◌, map, append-nil, append_assoc, Option, none, some, Option-cases,
  Bool, true, false, not, ◌&&◌, ◌||◌, Bool-cases, ltb, leb, ◌==◌, if◌then◌else◌, ◌≡◌, ◌≢◌, ◌↔◌,
  refl, sym, ap, subst, ◌∙◌, ◌⊎◌, inl, inr, length, All, lookup, has, put, delete, lookup-put,
  Result, ok, err, Result-cases, ok_inj, err_not_ok, arith,
}
pub mod Slots
mod Tests

abbrev pub max_concurrent_verifications : ℕ
max_concurrent_verifications = 4

-- Where a call of `verify` is: before the send, at hash.Check, or behind the deferred receive.
pub data Phase : Type 0 where
  waiting : Phase
  checking : Phase
  answered : Phase

-- How many values the channel holds, and the calls.
pub record Semaphore : Type 0 where
  pub held : ℕ
  pub calls : List Phase

abbrev pub new_user_service : Semaphore
new_user_service = record { held = 0; calls = [] }

-- One step of one of the calls, in any order.
pub data Step : Semaphore → Semaphore → Type 0 where
  call :
      (n : ℕ) (xs : List Phase)
      → Step (record { held = n; calls = xs }) (record { held = n; calls = waiting ∷ xs })
  send :
      (n : ℕ) (xs ys : List Phase)
      → n < max_concurrent_verifications
      → Step
          (record { held = n; calls = xs ++ waiting ∷ ys })
          (record { held = suc n; calls = xs ++ checking ∷ ys })
  receive :
      (n : ℕ) (xs ys : List Phase)
      → Step
          (record { held = suc n; calls = xs ++ checking ∷ ys })
          (record { held = n; calls = xs ++ answered ∷ ys })

pub data Reach : Semaphore → Type 0 where
  start : Reach new_user_service
  next : (s t : Semaphore) → Reach s → Step s t → Reach t

-- The calls that check a password.
unfoldable pub running : List Phase → ℕ
running [] = 0
running (waiting ∷ calls) = running calls
running (checking ∷ calls) = suc (running calls)
running (answered ∷ calls) = running calls

-- The steps that the calls have before them.
unfoldable pub work : List Phase → ℕ
work [] = 0
work (waiting ∷ calls) = 2 + work calls
work (checking ∷ calls) = 1 + work calls
work (answered ∷ calls) = work calls
