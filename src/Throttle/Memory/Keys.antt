-- ===== src/Throttle/Memory/Keys.antt =====
-- A caller has one bucket, which only a sweep or an eviction takes away.
use gin_di.Prelude.{
  true, leb, same_iff, same, refl, Bool-cases, length, ◌≢◌, lookup-put, put-Distinct, has, not,
  ◌&&◌, ltb, false, Bool, ℕ, ◌-◌, ◌≤◌, ◌<◌, ◌≡◌, ◌⊎◌, inl, inr, Option-cases, Option, none, some,
  List, [], ◌∷◌, Text, lookup, delete, Distinct, delete-Distinct, lookup_of_not_has, if◌then◌else◌,
  arith,
}
use gin_di.Throttle.Limit.{Limit, refill_per_second}
use gin_di.Throttle.Memory.{
  allow, Bucket, MemoryStore, prune_interval, keep_after, sweep, evict, make_room, sort_aged, aged,
  low_water, settle, find_bucket,
}
use gin_di.Throttle.Memory.Bounds.{sweep-length-le, sweep-max_keys}

has-keep_after :
    (now : ℕ) (k : Text) (m : List (Text × Bucket))
    → has k m ≡ false
    → has k (keep_after now m) ≡ false
unfolding has keep_after
has-keep_after now k [] h = refl
has-keep_after now k ((j, e) ∷ m) h = ground (arith, has-keep_after now k m)

keep_after-Distinct :
    (now : ℕ) (m : List (Text × Bucket)) → Distinct m → Distinct (keep_after now m)
unfolding keep_after
keep_after-Distinct now [] d = tt
keep_after-Distinct now ((j, e) ∷ m) (h, d) =
    ground (arith, has-keep_after now j m h, keep_after-Distinct now m d)

abbrev unless_full : ℕ → Option Bucket → Option Bucket
unless_full now none = none
unless_full now (some e) = if ltb now e.full_at then some e else none

lookup-keep_after :
    (now : ℕ) (k : Text) (m : List (Text × Bucket))
    → Distinct m
    → lookup k (keep_after now m) ≡ unless_full now (lookup k m)
unfolding lookup keep_after
lookup-keep_after now k [] d = refl
lookup-keep_after now k ((j, e) ∷ m) (h, d) =
    ground (arith, same_iff j k, lookup_of_not_has k m, lookup-keep_after now k m d)

-- What a caller holds is kept, or it is forgotten once it is due to be full.
abbrev pub IsKept : ℕ → Option Bucket → Option Bucket → Type 0
IsKept now held later =
    (later ≡ held) ⊎ ((e : Bucket) × (held ≡ some e) × (e.full_at ≤ now) × (later ≡ none))

unless_full-IsKept : (now : ℕ) (o : Option Bucket) → IsKept now o (unless_full now o)
unless_full-IsKept now none = inl refl
unless_full-IsKept now (some e) = elim (Bool-cases (ltb now e.full_at)) [
  | inl c ↦ rw c (inl refl)
  | inr c ↦ rw c (inr (e, refl, ground arith, refl))
]

pub sweep-IsKept :
    (k : Text) (store : MemoryStore) (now : ℕ) (forced : Bool)
    → Distinct store.buckets
    → IsKept now (lookup k store.buckets) (lookup k (sweep store now forced).buckets)
unfolding sweep
sweep-IsKept k store now forced d =
    elim (Bool-cases (not forced && ltb (now - store.pruned_at) prune_interval)) [
      | inl c ↦ rw c (inl refl)
      | inr c ↦
          rw (c, lookup-keep_after now k store.buckets d)
            (unless_full-IsKept now (lookup k store.buckets))
    ]

pub sweep-Distinct :
    (store : MemoryStore) (now : ℕ) (forced : Bool)
    → Distinct store.buckets
    → Distinct (sweep store now forced).buckets
unfolding sweep
sweep-Distinct store now forced d =
    elim (Bool-cases (not forced && ltb (now - store.pruned_at) prune_interval)) [
      | inl c ↦ rw c d
      | inr c ↦ rw c (keep_after-Distinct now store.buckets d)
    ]

evict-Distinct :
    (as' : List (Text × ℕ)) (target : ℕ) (m : List (Text × Bucket))
    → Distinct m
    → Distinct (evict as' target m)
unfolding evict
evict-Distinct [] target m d = d
evict-Distinct (a ∷ as') target m d =
    ground (arith, evict-Distinct as' target (delete a.0 m) (delete-Distinct a.0 m d))

make_room-Distinct :
    (store : MemoryStore) (now : ℕ)
    → Distinct store.buckets
    → Distinct (make_room store now).buckets
unfolding make_room
make_room-Distinct store now d =
    let swept = (sweep store now true).buckets in
    ground (
      arith,
      sweep-Distinct store now true d,
      evict-Distinct (sort_aged (aged swept)) (low_water store.max_keys) swept
          (sweep-Distinct store now true d),
    )

find_bucket-Distinct :
    (limit : Limit) (k : Text) (store : MemoryStore) (now : ℕ)
    → Distinct store.buckets
    → Distinct (find_bucket store k limit now).0.buckets
unfolding find_bucket
find_bucket-Distinct limit k store now d = elim (Option-cases (lookup k store.buckets)) [
  | inl e ↦ rw (e, find_bucket) (make_room-Distinct store now d)
  | inr (b, e) ↦ rw (e, find_bucket) d
]

-- Only a new caller needs room.
find_bucket-found :
    (limit : Limit) (k : Text) (store : MemoryStore) (now : ℕ)
    → length store.buckets < store.max_keys
    → (find_bucket store k limit now).0 ≡ store
unfolding find_bucket make_room
find_bucket-found limit k store now h = elim (Option-cases (lookup k store.buckets)) [
  | inl e ↦ rw (e, find_bucket) (ground arith)
  | inr (b, e) ↦ rw (e, find_bucket) refl
]

pub allow-Distinct :
    (k : Text) (limit : Limit) (store : MemoryStore) (now : ℕ)
    → Distinct store.buckets
    → Distinct (allow store k limit now).0.buckets
unfolding allow
allow-Distinct k limit store now d = elim (Bool-cases (leb (refill_per_second limit) 0)) [
  | inl c ↦ rw c d
  | inr c ↦ rw c (
      put-Distinct k _ _ (
        find_bucket-Distinct limit k (sweep store now false) now
          (sweep-Distinct store now false d)))
]

-- A request of another caller leaves what this one holds, or forgets it once it is due to be full.
pub allow_other-IsKept :
    (k j : Text) (limit : Limit) (store : MemoryStore) (now : ℕ)
    → Distinct store.buckets
    → j ≢ k
    → length store.buckets < store.max_keys
    → IsKept now (lookup k store.buckets) (lookup k (allow store j limit now).0.buckets)
unfolding allow
allow_other-IsKept k j limit store now d differs room =
    elim (Bool-cases (leb (refill_per_second limit) 0)) [
      | inl c ↦ rw c (inl refl)
      | inr c ↦
          rw
            (
              c,
              find_bucket-found limit j (sweep store now false) now sweep_room,
              lookup-put j k (settle limit now (find_bucket (sweep store now false) j limit now).1)
                  (sweep store now false).buckets,
              not_same,
            )
            (sweep-IsKept k store now false d)
    ]
  where
    sweep_room : length (sweep store now false).buckets < (sweep store now false).max_keys
    sweep_room = ground (arith, sweep-length-le store now false, sweep-max_keys store now false)

    not_same : same j k ≡ false
    not_same = ground (arith, same_iff j k)
