-- ===== src/Throttle/Memory.antt =====
-- app/services/throttle/memory.go: a bounded map of token buckets, one for each caller.
-- A time is a count of nanoseconds from Go's zero time, so `now.Sub(t)` of a later `t` reads 0: the
-- code only tests such a difference for being positive or short. The map is in the order of one
-- iteration.
pub mod Bounds
pub mod Keys
pub mod Alone
pub mod Burst
mod Tests
use gin_di.Prelude.{
  ℕ, ◌+◌, ◌-◌, ◌*◌, ◌/◌, min, ltb, leb, if◌then◌else◌, Bool, true, false, not, ◌&&◌, none, some,
  List, [], ◌∷◌, length, Text, lookup, put, delete,
}
use gin_di.Prelude.Int.{ℤ, pos, is_non_positive, pos_part, ◌+ℤ◌}
use gin_di.Throttle.Float64.{one, add, sub, mul, div, of_int, ceil, truncate, seconds}
use gin_di.Throttle.Limit.{Limit, Decision, refill_per_second, burst}

abbrev pub default_max_keys : ℕ
default_max_keys = 10_000

-- One minute.
abbrev pub prune_interval : ℕ
prune_interval = 60_000_000_000

-- `now.Sub(t).Seconds()` reads a difference that is positive; Sub keeps it within a duration.
abbrev pub since : ℕ → ℕ → ℕ
since now t = min (now - t) 9_223_372_036_854_775_807

pub record Bucket : Type 0 where
  pub tokens : ℕ
  pub seen_at : ℕ
  pub full_at : ℕ

pub record MemoryStore : Type 0 where
  pub buckets : List (Text × Bucket)
  pub max_keys : ℕ
  pub pruned_at : ℕ

unfoldable pub new_memory_store : ℤ → MemoryStore
new_memory_store max_keys = record {
  buckets = [];
  max_keys = if is_non_positive max_keys then default_max_keys else pos_part max_keys;
  pruned_at = 0;
}

-- Rounded up to whole nanoseconds. Seconds are at most those of a window, which is a duration.
unfoldable pub seconds_to_duration : ℕ → ℕ
seconds_to_duration t = if leb t 0 then 0 else ceil (mul t (of_int 1_000_000_000))

pub len : MemoryStore → ℕ
len store = length store.buckets

-- The loop of `sweep`.
unfoldable pub keep_after : ℕ → List (Text × Bucket) → List (Text × Bucket)
keep_after now [] = []
keep_after now ((k, e) ∷ m) =
    let rest = keep_after now m in if ltb now e.full_at then (k, e) ∷ rest else rest

unfoldable pub sweep : MemoryStore → ℕ → Bool → MemoryStore
sweep store now forced =
    if not forced && ltb (now - store.pruned_at) prune_interval
    then store
    else record store { pruned_at = now; buckets = keep_after now store.buckets }

-- `sort.Slice` by `seenAt`.
insert_aged : Text × ℕ → List (Text × ℕ) → List (Text × ℕ)
insert_aged a [] = a ∷ []
insert_aged a (b ∷ bs) = let rest = insert_aged a bs in if ltb b.1 a.1 then b ∷ rest else a ∷ b ∷ bs

sort_aged : List (Text × ℕ) → List (Text × ℕ)
unfolding insert_aged
sort_aged [] = []
sort_aged (a ∷ as') = insert_aged a (sort_aged as')

aged : List (Text × Bucket) → List (Text × ℕ)
aged [] = []
aged ((k, e) ∷ m) = (k, e.seen_at) ∷ aged m

-- The loop that deletes the oldest entries until the target is met.
evict : List (Text × ℕ) → ℕ → List (Text × Bucket) → List (Text × Bucket)
evict [] target m = m
evict (a ∷ as') target m =
    let rest = evict as' target (delete a.0 m) in if ltb target (length m) then rest else m

-- `int(float64(maxKeys) * evictionLowWater)`: the float64 next to 0.9 is above it, by too little for a
-- difference below 2 ^ 49.
low_water : ℕ → ℕ
low_water max_keys = max_keys * 9 / 10

unfoldable pub make_room : MemoryStore → ℕ → MemoryStore
unfolding sort_aged aged evict low_water sweep
make_room store now =
    if ltb (length store.buckets) store.max_keys
    then store
    else (let swept = sweep store now true in
        if ltb (length swept.buckets) store.max_keys then swept else record swept {
          buckets = evict (sort_aged (aged swept.buckets)) (low_water store.max_keys) swept.buckets;
        })

-- Replenishes a known bucket. A clock that stepped backwards takes nothing away.
unfoldable pub top_up : Limit → ℕ → Bucket → Bucket
top_up limit now e =
    let elapsed = seconds (since now e.seen_at) in
    if ltb 0 elapsed
    then record e {
      tokens = min (burst limit) (add e.tokens (mul elapsed (refill_per_second limit)));
      seen_at = now;
    }
    else e

-- Takes one token if there is one.
unfoldable pub spend : Bucket → Bucket
spend e = if leb one e.tokens then record e { tokens = sub e.tokens one } else e

-- The wait for a missing token; the bucket is the one before spending.
unfoldable pub retry_after : Limit → Bucket → ℕ
retry_after limit e =
    if leb one e.tokens
    then 0
    else seconds_to_duration (div (sub one e.tokens) (refill_per_second limit))

-- When so many tokens are whole again.
unfoldable pub reset_at : Limit → ℕ → ℕ → ℕ
reset_at limit now tokens =
    now + seconds_to_duration (div (sub (burst limit) tokens) (refill_per_second limit))

unfoldable pub decide : Limit → ℕ → Bucket → Decision
decide limit now e = record {
  allowed = leb one e.tokens;
  limit = limit.requests;
  remaining = truncate (spend e).tokens;
  retry_after = pos (retry_after limit e);
  reset_at = pos (reset_at limit now (spend e).tokens);
}

unfoldable pub settle : Limit → ℕ → Bucket → Bucket
settle limit now e = record (spend e) { full_at = reset_at limit now (spend e).tokens }

-- The bucket that a request finds, and the store that it stands in.
unfoldable pub find_bucket : MemoryStore → Text → Limit → ℕ → MemoryStore × Bucket
find_bucket store k limit now = elim (lookup k store.buckets) [
  | none ↦ (make_room store now, record { tokens = burst limit; seen_at = now; full_at = 0 })
  | some e ↦ (store, top_up limit now e)
]

unfoldable pub allow : MemoryStore → Text → Limit → ℕ → MemoryStore × Decision
allow store k limit now =
    if leb (refill_per_second limit) 0
    then (
      store,
      record {
        allowed = false;
        limit = limit.requests;
        remaining = 0;
        retry_after = limit.per;
        reset_at = pos now +ℤ limit.per;
      },
    )
    else (let (s, e) = find_bucket (sweep store now false) k limit now in
        (record s { buckets = put k (settle limit now e) s.buckets }, decide limit now e))
