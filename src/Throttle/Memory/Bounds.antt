-- ===== src/Throttle/Memory/Bounds.antt =====
-- The store tracks at most `max_keys` callers, and no caller holds more than a full allowance.
use gin_di.Prelude.{
  All-weaken, ap, same, ℕ, ◌≤◌, ◌<◌, ◌≡◌, refl, ◌≢◌, inl, inr, Bool, true, false, none,
  Option-cases, Bool-cases, List, [], ◌∷◌, length, All, In, Text, lookup, put, delete, same_iff,
  length-put-le, length-put_found, arith, leb,
}
use gin_di.Throttle.Limit.{Limit, refill_per_second}
use gin_di.Throttle.Memory.{
  Bucket, MemoryStore, keep_after, sweep, insert_aged, sort_aged, aged, evict, low_water, make_room,
  find_bucket, allow,
}

pub length-keep_after-le :
    (now : ℕ) (m : List (Text × Bucket)) → length (keep_after now m) ≤ length m
unfolding keep_after
length-keep_after-le now [] = omega arith
length-keep_after-le now ((k, e) ∷ m) = ground (arith, length-keep_after-le now m)

-- Every key of the map stands among the aged entries.
abbrev Covers : List (Text × ℕ) → List (Text × Bucket) → Type 0
Covers as' m = All (λ e. (t : ℕ) × In (e.0, t) as') m

In-insert_aged :
    (b a : Text × ℕ) (as' : List (Text × ℕ)) → In b (a ∷ as') → In b (insert_aged a as')
unfolding insert_aged
In-insert_aged b a [] h = h
In-insert_aged b a (c ∷ cs) h = ground (arith, In-insert_aged b a cs)

In-sort_aged : (b : Text × ℕ) (as' : List (Text × ℕ)) → In b as' → In b (sort_aged as')
unfolding sort_aged
In-sort_aged b [] h = h
In-sort_aged b (a ∷ as') (inl e) = In-insert_aged b a (sort_aged as') (inl e)
In-sort_aged b (a ∷ as') (inr h) = In-insert_aged b a (sort_aged as') (inr (In-sort_aged b as' h))

Covers-aged : (m : List (Text × Bucket)) → Covers (aged m) m
unfolding aged
Covers-aged [] = tt
Covers-aged ((k, e) ∷ m) =
    ((e.seen_at, inl refl), All-weaken _ _ m (λ x h. (h.0, inr h.1)) (Covers-aged m))

Covers-sort_aged : (m : List (Text × Bucket)) → Covers (sort_aged (aged m)) m
Covers-sort_aged m =
    All-weaken _ _ m (λ x h. (h.0, In-sort_aged (x.0, h.0) (aged m) h.1)) (Covers-aged m)

Covers-delete :
    (a : Text × ℕ) (as' : List (Text × ℕ)) (m : List (Text × Bucket))
    → Covers (a ∷ as') m
    → Covers as' (delete a.0 m)
unfolding delete
Covers-delete a as' [] h = tt
Covers-delete a as' ((k, e) ∷ m) ((t, inl i), h) =
    rw ((same_iff k a.0).1 (ap (λ (p : Text × ℕ). p.0) i)) (Covers-delete a as' m h)
Covers-delete a as' ((k, e) ∷ m) ((t, inr i), h) = elim (Bool-cases (same k a.0)) [
  | inl c ↦ rw c (Covers-delete a as' m h)
  | inr c ↦ rw c ((t, i), Covers-delete a as' m h)
]

-- With every key among the entries, the loop reaches its target.
evict-le-target :
    (as' : List (Text × ℕ)) (target : ℕ) (m : List (Text × Bucket))
    → Covers as' m
    → length (evict as' target m) ≤ target
unfolding evict
evict-le-target [] target [] h = omega arith
evict-le-target [] target (e ∷ m) ((t, i), h) = absurd i
evict-le-target (a ∷ as') target m h =
    ground (arith, evict-le-target as' target (delete a.0 m) (Covers-delete a as' m h))

low_water-lt : (n : ℕ) → 0 < n → low_water n < n
unfolding low_water
low_water-lt n h = omega arith

-- After `makeRoom` there is room for one more key.
make_room-lt :
    (store : MemoryStore) (now : ℕ)
    → 0 < store.max_keys
    → length (make_room store now).buckets < store.max_keys
unfolding make_room
make_room-lt store now h =
    let swept = (sweep store now true).buckets in
    let covered : length (evict (sort_aged (aged swept)) (low_water store.max_keys) swept)
        ≤ low_water store.max_keys =
      evict-le-target (sort_aged (aged swept)) (low_water store.max_keys) swept
        (Covers-sort_aged swept) in
    ground (arith, covered, low_water-lt store.max_keys)

pub make_room-max_keys :
    (store : MemoryStore) (now : ℕ) → (make_room store now).max_keys ≡ store.max_keys
unfolding make_room
make_room-max_keys store now = ground arith

pub sweep-length-le :
    (store : MemoryStore) (now : ℕ) (forced : Bool)
    → length (sweep store now forced).buckets ≤ length store.buckets
unfolding sweep
sweep-length-le store now forced = ground (arith, length-keep_after-le now store.buckets)

pub sweep-max_keys :
    (store : MemoryStore) (now : ℕ) (forced : Bool)
    → (sweep store now forced).max_keys ≡ store.max_keys
unfolding sweep
sweep-max_keys store now forced = ground arith

-- The store that a request leaves, by the three ways through `Allow`.
allow_cases {ℓ} :
    (P : MemoryStore → Type ℓ) (store : MemoryStore) (k : Text) (limit : Limit) (now : ℕ)
    → P store
    → ((s : MemoryStore) (e : Bucket)
        → s ≡ sweep store now false
        → lookup k s.buckets ≢ none
        → P (record s { buckets = put k e s.buckets }))
    → ((s : MemoryStore) (e : Bucket)
        → s ≡ make_room (sweep store now false) now
        → P (record s { buckets = put k e s.buckets }))
    → P (allow store k limit now).0
unfolding allow find_bucket
allow_cases P store k limit now refused known fresh =
    elim (Bool-cases (leb (refill_per_second limit) 0)) [
      | inl c ↦ rw c refused
      | inr c ↦ elim (Option-cases (lookup k (sweep store now false).buckets)) [
        | inl e ↦ rw (c, e, find_bucket) (fresh _ _ refl)
        | inr (b, e) ↦ rw (c, e, find_bucket) (known _ _ refl (λ n. cc))
      ]
    ]

abbrev pub IsBounded : MemoryStore → Type 0
IsBounded store = (0 < store.max_keys) × (length store.buckets ≤ store.max_keys)

-- Whatever is asked of it, a store that tracks at most `max_keys` callers goes on to do so.
pub allow-IsBounded :
    (store : MemoryStore) (k : Text) (limit : Limit) (now : ℕ)
    → IsBounded store
    → IsBounded (allow store k limit now).0
allow-IsBounded store k limit now h =
    allow_cases IsBounded store k limit now h
      (λ s e q known. ground (
        arith,
        length-put_found k e s.buckets known,
        ap (λ (t : MemoryStore). t.max_keys) q,
        ap (λ (t : MemoryStore). length t.buckets) q,
        sweep-length-le store now false,
        sweep-max_keys store now false,
      ))
      (λ s e q. ground (
        arith,
        length-put-le k e s.buckets,
        ap (λ (t : MemoryStore). t.max_keys) q,
        ap (λ (t : MemoryStore). length t.buckets) q,
        make_room-lt (sweep store now false) now,
        make_room-max_keys (sweep store now false) now,
        sweep-max_keys store now false,
      ))
