-- ===== src/App/Verifications/Slots.antt =====
-- The slots bound the checks, and the calls that have come can go on to their end.
use gin_di.Prelude.{
  ℕ, zero, suc, ◌+◌, ◌≤◌, ◌<◌, List, [], ◌∷◌, ◌++◌, ◌≡◌, refl, sym, ap, subst, ◌∙◌, ◌⊎◌, inl, inr,
  arith,
}
use gin_di.App.Verifications.{
  Phase, waiting, checking, answered, Semaphore, Step, call, send, receive, Reach, start, next,
  running, work,
}

running-append : (xs ys : List Phase) → running (xs ++ ys) ≡ running xs + running ys
unfolding running
running-append [] ys = omega arith
running-append (waiting ∷ xs) ys = running-append xs ys
running-append (checking ∷ xs) ys = omega (arith, running-append xs ys)
running-append (answered ∷ xs) ys = running-append xs ys

work-append : (xs ys : List Phase) → work (xs ++ ys) ≡ work xs + work ys
unfolding work
work-append [] ys = omega arith
work-append (waiting ∷ xs) ys = omega (arith, work-append xs ys)
work-append (checking ∷ xs) ys = omega (arith, work-append xs ys)
work-append (answered ∷ xs) ys = work-append xs ys

-- The channel holds a value for each check that runs, and not more than it has room for.
abbrev pub IsBounded : Semaphore → Type 0
IsBounded s = (s.held ≡ running s.calls) × (s.held ≤ 4)

step-IsBounded : (s t : Semaphore) → Step s t → IsBounded s → IsBounded t
unfolding running
step-IsBounded _ _ (call n xs) (count, room) = (count, room)
step-IsBounded _ _ (send n xs ys free) (count, room) = (
  omega (arith, count, running-append xs (waiting ∷ ys), running-append xs (checking ∷ ys)),
  omega (arith, free),
)
step-IsBounded _ _ (receive n xs ys) (count, room) = (
  omega (arith, count, running-append xs (checking ∷ ys), running-append xs (answered ∷ ys)),
  omega (arith, room),
)

-- However the logins interleave, at most four passwords are checked at once: the values in the
-- channel are the checks that run.
pub reach-IsBounded : (s : Semaphore) → Reach s → IsBounded s
unfolding running
reach-IsBounded _ start = (refl, omega arith)
reach-IsBounded _ (next s t r step) = step-IsBounded s t step (reach-IsBounded s r)

-- A call at a phase, with those around it.
abbrev At : Phase → List Phase → Type 0
At phase calls = (xs : List Phase) × (ys : List Phase) × (calls ≡ xs ++ phase ∷ ys)

further : (phase other : Phase) (calls : List Phase) → At phase calls → At phase (other ∷ calls)
further phase other calls (xs, ys, q) = (other ∷ xs, ys, ap (λ c. other ∷ c) q)

find_running : (calls : List Phase) → 1 ≤ running calls → At checking calls
unfolding running
find_running [] h = absurd (omega (arith, h))
find_running (waiting ∷ calls) h = further checking waiting calls (find_running calls h)
find_running (checking ∷ calls) h = ([], calls, refl)
find_running (answered ∷ calls) h = further checking answered calls (find_running calls h)

find_waiting : (calls : List Phase) → running calls ≡ 0 → 1 ≤ work calls → At waiting calls
unfolding running work
find_waiting [] h w = absurd (omega (arith, w))
find_waiting (waiting ∷ calls) h w = ([], calls, refl)
find_waiting (checking ∷ calls) h w = absurd (omega (arith, h))
find_waiting (answered ∷ calls) h w = further waiting answered calls (find_waiting calls h w)

zero_or_more : (n : ℕ) → (n ≡ 0) ⊎ ((m : ℕ) × (n ≡ suc m))
zero_or_more zero = inl refl
zero_or_more (suc m) = inr (m, refl)

less_checking : (xs ys : List Phase) → work (xs ++ answered ∷ ys) < work (xs ++ checking ∷ ys)
unfolding work
less_checking xs ys = omega (arith, work-append xs (answered ∷ ys), work-append xs (checking ∷ ys))

less_waiting : (xs ys : List Phase) → work (xs ++ checking ∷ ys) < work (xs ++ waiting ∷ ys)
unfolding work
less_waiting xs ys = omega (arith, work-append xs (checking ∷ ys), work-append xs (waiting ∷ ys))

-- A step is a new call, or it leaves less to do.
step-less :
    (s t : Semaphore)
    → Step s t
    → (t ≡ record s { calls = waiting ∷ s.calls }) ⊎ (work t.calls < work s.calls)
step-less _ _ (call n xs) = inl refl
step-less _ _ (send n xs ys free) = inr (less_waiting xs ys)
step-less _ _ (receive n xs ys) = inr (less_checking xs ys)

goes_on :
    (s : Semaphore)
    → Reach s
    → 1 ≤ work s.calls
    → (t : Semaphore) × Step s t × (work t.calls < work s.calls)
goes_on s r w = elim (zero_or_more s.held) [
  | inr (m, held) ↦
      let (xs, ys, q) =
        find_running s.calls (positive s.held m held (running s.calls) (reach-IsBounded s r).0) in
      (
        record { held = m; calls = xs ++ answered ∷ ys },
        subst (λ u. Step u (record { held = m; calls = xs ++ answered ∷ ys }))
            (is (suc m) (xs ++ checking ∷ ys) held q) (receive m xs ys),
        subst (λ c. work (xs ++ answered ∷ ys) < work c) (sym q) (less_checking xs ys),
      )
  | inl none_held ↦
      let (xs, ys, q) = find_waiting s.calls (sym (reach-IsBounded s r).0 ∙ none_held) w in
      (
        record { held = 1; calls = xs ++ checking ∷ ys },
        subst (λ u. Step u (record { held = 1; calls = xs ++ checking ∷ ys }))
            (is 0 (xs ++ waiting ∷ ys) none_held q) (send 0 xs ys (omega arith)),
        subst (λ c. work (xs ++ checking ∷ ys) < work c) (sym q) (less_waiting xs ys),
      )
]
  where
    positive : (n m : ℕ) → n ≡ suc m → (k : ℕ) → n ≡ k → 1 ≤ k
    positive n m h k e = omega arith

    is :
        (n : ℕ) (calls : List Phase)
        → s.held ≡ n
        → s.calls ≡ calls
        → ◌≡◌ {A = Semaphore} (record { held = n; calls = calls }) s
    is n calls h q =
        ap (λ k. record { held = k; calls = calls }) (sym h)
        ∙ ap (λ c. record { held = s.held; calls = c }) (sym q)

-- The calls are never stuck: while one has not been answered, some call can take a step without
-- waiting, after which there is less to do; and every step, whichever call takes it, leaves less to
-- do, unless it is a new call that comes.
pub reach_progress :
    (s : Semaphore)
    → Reach s
    → (1 ≤ work s.calls → (t : Semaphore) × Step s t × (work t.calls < work s.calls))
      × ((t : Semaphore)
          → Step s t
          → (t ≡ record s { calls = waiting ∷ s.calls }) ⊎ (work t.calls < work s.calls))
reach_progress s r = (goes_on s r, step-less s)
