-- ===== src/Throttle/Memory/Tests.antt =====
-- Concrete runs of the store: five requests a minute, and two.
use gin_di.Prelude.{
  ℕ, ◌+◌, ◌≡◌, refl, codes, List, [], ◌∷◌, true, false, inl, inr, lookup, put, same, ne_of_same,
  arith,
}
use gin_di.Prelude.Int.{pos}
use gin_di.Prelude.{leb, min}
use gin_di.Throttle.Limit.{IsUsable, Limit, refill_per_second}
use gin_di.Throttle.Float64.{
  one, significands, half_even, round_in, round, of_int, add, sub, mul, div, ceil, truncate,
  seconds,
}
use gin_di.Throttle.Memory.Bounds.{IsBounded, allow-IsBounded}
use gin_di.Throttle.Memory.Burst.{granted, own, burst-granted}
use gin_di.Throttle.Memory.Alone.{Request, answers, Alone, answers-Alone}
use gin_di.Throttle.Memory.{
  Bucket, MemoryStore, allow, find_bucket, sweep, keep_after, make_room, top_up, settle, decide,
  spend, retry_after, reset_at, seconds_to_duration,
}

abbrev tight : Limit
tight = record { name = codes "login"; requests = pos 5; per = pos 60_000_000_000 }

-- The rounded wait after a bucket is spent, and 8109723335 ns have passed.
rounded_wait :
    retry_after tight (top_up tight 8_109_723_335 (record { tokens = 0; seen_at = 0; full_at = 0 }))
    ≡ 3_890_276_666
unfolding retry_after top_up refill_per_second one significands half_even round_in round of_int add
    sub mul div ceil truncate seconds seconds_to_duration
rounded_wait = refl

abbrev start : ℕ
start = 63_000_000_000_000_000_000

abbrev tiny : Limit
tiny = record { name = codes "login"; requests = pos 2; per = pos 60_000_000_000 }

-- Three requests at the start, among those of another caller, and two after thirty seconds.
abbrev at_start : Request
at_start = record { caller = codes "login|a"; limit = tiny; now = start }

abbrev other_caller : Request
other_caller = record { caller = codes "login|b"; limit = tiny; now = start }

abbrev after_half : Request
after_half = record { caller = codes "login|a"; limit = tiny; now = start + 30_000_000_000 }

abbrev history : List Request
history = at_start ∷ other_caller ∷ at_start ∷ at_start ∷ after_half ∷ after_half ∷ []

abbrev fresh : MemoryStore
fresh = record { buckets = []; max_keys = 3; pruned_at = 0 }

history-answers : answers (codes "login|a") fresh history ≡ true ∷ true ∷ false ∷ true ∷ false ∷ []
unfolding answers same allow find_bucket sweep keep_after make_room top_up settle decide spend
    retry_after reset_at seconds_to_duration refill_per_second lookup put one significands half_even
    round_in round of_int add sub mul div ceil truncate seconds
history-answers = refl

allow-IsBounded_example : IsBounded (allow fresh (codes "login|a") tiny start).0
allow-IsBounded_example =
    allow-IsBounded fresh (codes "login|a") tiny start (omega arith, omega arith)

answers-Alone_example :
    Alone
      (codes "login|a")
      (lookup (codes "login|a") fresh.buckets)
      (at_start ∷ other_caller ∷ [])
      (answers (codes "login|a") fresh (at_start ∷ other_caller ∷ []))
unfolding same allow find_bucket sweep keep_after make_room top_up settle decide spend retry_after
    reset_at seconds_to_duration refill_per_second lookup put one significands half_even round_in
    round of_int add sub mul div ceil truncate seconds
answers-Alone_example =
    answers-Alone (codes "login|a") fresh (at_start ∷ other_caller ∷ []) tt
      (inl refl, (inr (ne_of_same _ _ refl, omega arith), tt))

abbrev at_once : List Request
at_once = at_start ∷ other_caller ∷ at_start ∷ at_start ∷ []

usable : IsUsable tiny
unfolding refill_per_second one significands half_even round_in round of_int add div seconds
usable = omega arith

burst-granted_example :
    granted (answers (codes "login|a") fresh at_once) ≡ min (own (codes "login|a") at_once) 2
unfolding lookup same allow find_bucket sweep keep_after make_room top_up settle decide spend
    retry_after reset_at seconds_to_duration refill_per_second put one significands half_even
    round_in round of_int add sub mul div ceil truncate seconds
burst-granted_example =
    burst-granted (codes "login|a") tiny start usable (omega arith, omega arith) fresh at_once tt
      refl (inl refl, (inr (ne_of_same _ _ refl, omega arith), (inl refl, (inl refl, tt))))
      (refl, λ q. refl, (refl, λ q. refl, (refl, λ q. refl, (refl, λ q. refl, tt))))

-- A caller that is refused 2261696820 ns after its bucket was spent.
abbrev refused : Bucket
refused = top_up tight 2_261_696_820 (record { tokens = 0; seen_at = 0; full_at = 0 })

-- The wait that it is told.
told_wait : retry_after tight refused ≡ 9_738_303_180
unfolding retry_after top_up refill_per_second one significands half_even round_in round of_int add
    sub mul div ceil seconds seconds_to_duration
told_wait = refl

-- After it there is not yet a whole token, by rounding.
refused_again : leb one (top_up tight (2_261_696_820 + 9_738_303_180) refused).tokens ≡ false
unfolding top_up refill_per_second one significands half_even round_in round of_int add mul div
    seconds
refused_again = refl
