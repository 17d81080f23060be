-- ===== src/Throttle/Memory/Alone.antt =====
-- The store answers each caller as a bucket of its own would, which may be forgotten when it is full.
use gin_di.Prelude.{
  ℕ, ◌≤◌, ◌<◌, min, Text, same, same_iff, same_refl, lookup, lookup-put, Distinct, List, [], ◌∷◌,
  length, Option, none, some, Option-cases, Bool, false, Bool-cases, ltb, leb, if◌then◌else◌, ◌≡◌,
  ◌≢◌, refl, sym, ap, subst, ◌∙◌, ◌⊎◌, inl, inr, arith,
}
use gin_di.Throttle.Float64.{one, add, sub, mul, seconds}
use gin_di.Throttle.Limit.{Limit, Decision, IsUsable, burst, refill_per_second}
use gin_di.Throttle.Memory.{
  Bucket, MemoryStore, since, allow, find_bucket, sweep, top_up, spend, settle, decide, reset_at,
}
use gin_di.Throttle.Memory.Keys.{IsKept, sweep-IsKept, allow-Distinct, allow_other-IsKept}

-- One call of `Allow`.
pub record Request : Type 0 where
  pub caller : Text
  pub limit : Limit
  pub now : ℕ

abbrev pub serve : MemoryStore → Request → MemoryStore × Decision
serve store r = allow store r.caller r.limit r.now

-- What the store answers the requests of caller `k`, in their order.
unfoldable pub answers : Text → MemoryStore → List Request → List Bool
answers k store [] = []
answers k store (r ∷ rs) =
    let rest = answers k (serve store r).0 rs in
    if same r.caller k then (serve store r).1.allowed ∷ rest else rest

-- While others are served the store has room, so that nobody is evicted for them.
abbrev pub HasRoom : Text → MemoryStore → List Request → Type 0
HasRoom k store [] = Unit
HasRoom k store (r ∷ rs) =
    ((r.caller ≡ k) ⊎ ((r.caller ≢ k) × (length store.buckets < store.max_keys)))
    × HasRoom k (serve store r).0 rs

-- The tokens that a caller finds: the burst at first, and what it held with the refill of the seconds
-- since, up to the burst; and the time at which it has them.
abbrev pub risen : Limit → ℕ → Option Bucket → ℕ
risen limit now none = burst limit
risen limit now (some e) =
    let elapsed = seconds (since now e.seen_at) in
    if ltb 0 elapsed
    then min (burst limit) (add e.tokens (mul elapsed (refill_per_second limit)))
    else e.tokens

abbrev pub risen_at : ℕ → Option Bucket → ℕ
risen_at now none = now
risen_at now (some e) = if ltb 0 (seconds (since now e.seen_at)) then now else e.seen_at

-- A grant costs one token.
abbrev pub left : ℕ → ℕ
left tokens = if leb one tokens then sub tokens one else tokens

-- What a caller holds after a request.
abbrev pub after : Limit → ℕ → Option Bucket → Bucket
after limit now held = record {
  tokens = left (risen limit now held);
  seen_at = risen_at now held;
  full_at = reset_at limit now (left (risen limit now held));
}

-- The runs of caller `k` alone: of what it holds, the requests, and the answers to its own ones.
pub data Alone (k : Text) : Option Bucket → List Request → List Bool → Type 0 where
  done : (held : Option Bucket) → Alone k held [] []
  -- What is due to be full may be forgotten.
  forgets :
      (e : Bucket) (r : Request) (rs : List Request) (bs : List Bool)
      → e.full_at ≤ r.now
      → Alone k none (r ∷ rs) bs
      → Alone k (some e) (r ∷ rs) bs
  refuses :
      (held : Option Bucket) (r : Request) (rs : List Request) (bs : List Bool)
      → r.caller ≡ k
      → refill_per_second r.limit ≡ 0
      → Alone k held rs bs
      → Alone k held (r ∷ rs) (false ∷ bs)
  spends :
      (held : Option Bucket) (r : Request) (rs : List Request) (bs : List Bool)
      → r.caller ≡ k
      → IsUsable r.limit
      → Alone k (some (after r.limit r.now held)) rs bs
      → Alone k held (r ∷ rs) (leb one (risen r.limit r.now held) ∷ bs)
  -- The requests of others change nothing.
  passes :
      (held : Option Bucket) (r : Request) (rs : List Request) (bs : List Bool)
      → r.caller ≢ k
      → Alone k held rs bs
      → Alone k held (r ∷ rs) bs

settle-found :
    (k : Text) (limit : Limit) (store : MemoryStore) (now : ℕ)
    → settle limit now (find_bucket store k limit now).1 ≡ after limit now (lookup k store.buckets)
unfolding settle spend find_bucket top_up
settle-found k limit store now = elim (Option-cases (lookup k store.buckets)) [
  | inl e ↦ rw (e, find_bucket) (ground arith)
  | inr (b, e) ↦ rw (e, find_bucket) (ground arith)
]

decide-found :
    (k : Text) (limit : Limit) (store : MemoryStore) (now : ℕ)
    → (decide limit now (find_bucket store k limit now).1).allowed
      ≡ leb one (risen limit now (lookup k store.buckets))
unfolding decide find_bucket top_up
decide-found k limit store now = elim (Option-cases (lookup k store.buckets)) [
  | inl e ↦ rw (e, find_bucket) refl
  | inr (b, e) ↦ rw (e, find_bucket) (ground arith)
]

forgotten :
    (k : Text) (held later : Option Bucket) (r : Request) (rs : List Request) (bs : List Bool)
    → IsKept r.now held later
    → Alone k later (r ∷ rs) bs
    → Alone k held (r ∷ rs) bs
forgotten k held later r rs bs (inl same_held) h = subst (λ o. Alone k o (r ∷ rs) bs) same_held h
forgotten k held later r rs bs (inr (e, was, due, gone)) h =
    subst (λ o. Alone k o (r ∷ rs) bs) (sym was)
      (forgets e r rs bs due (subst (λ o. Alone k o (r ∷ rs) bs) gone h))

-- How a caller's own request ends: refused under a limit that permits nothing, or served from what is
-- left after the sweep.
own_cases :
    (k : Text) (limit : Limit) (store : MemoryStore) (now : ℕ)
    → ((refill_per_second limit ≡ 0)
        × ((allow store k limit now).1.allowed ≡ false)
        × ((allow store k limit now).0 ≡ store))
      ⊎ (IsUsable limit
          × ((allow store k limit now).1.allowed
              ≡ leb one (risen limit now (lookup k (sweep store now false).buckets)))
          × (lookup k (allow store k limit now).0.buckets
              ≡ some (after limit now (lookup k (sweep store now false).buckets))))
unfolding allow
own_cases k limit store now = elim (Bool-cases (leb (refill_per_second limit) 0)) [
  | inl c ↦ rw c (inl (ground arith, refl, refl))
  | inr c ↦
      rw
        (
          c,
          lookup-put k k (settle limit now (find_bucket (sweep store now false) k limit now).1)
              (find_bucket (sweep store now false) k limit now).0.buckets,
          same_refl k,
        )
        (inr (
          ground arith,
          decide-found k limit (sweep store now false) now,
          ap some (settle-found k limit (sweep store now false) now),
        ))
]

-- Whatever the others send and however buckets are swept, and also when the clock steps back or the
-- limits differ, a caller is answered as in a run of its own, in a store with one bucket for a key and
-- with room for the others: its bucket rises by the rounded refill up to the burst, a request is
-- granted and charged if there is a whole token, and the bucket may be forgotten once it is due to be
-- full, which makes it a full one. Under a limit that permits nothing, it is refused.
pub answers-Alone :
    (k : Text) (store : MemoryStore) (rs : List Request)
    → Distinct store.buckets
    → HasRoom k store rs
    → Alone k (lookup k store.buckets) rs (answers k store rs)
unfolding answers
answers-Alone k store [] d h = done (lookup k store.buckets)
answers-Alone k store (r ∷ rs) d (inl own, later) =
    let rest =
      answers-Alone k (serve store r).0 rs (allow-Distinct r.caller r.limit store r.now d) later in
    let caller : serve store r ≡ allow store k r.limit r.now =
      ap (λ c. allow store c r.limit r.now) own in
    rw (answers, (same_iff r.caller k).1 own)
      (elim (own_cases k r.limit store r.now) [
        | inl (none_left, refused, kept) ↦
            subst
              (λ b. Alone k (lookup k store.buckets) (r ∷ rs) (b ∷ answers k (serve store r).0 rs))
              (sym (ap (λ s. s.1.allowed) caller ∙ refused))
              (refuses (lookup k store.buckets) r rs (answers k (serve store r).0 rs) own none_left
                (subst (λ s. Alone k (lookup k s.buckets) rs (answers k (serve store r).0 rs))
                  (ap (λ s. s.0) caller ∙ kept) rest))
        | inr (usable, granted, left_with) ↦
            subst
              (λ b. Alone k (lookup k store.buckets) (r ∷ rs) (b ∷ answers k (serve store r).0 rs))
              (sym (ap (λ s. s.1.allowed) caller ∙ granted))
              (forgotten k _ (lookup k (sweep store r.now false).buckets) r rs _
                (sweep-IsKept k store r.now false d)
                (spends (lookup k (sweep store r.now false).buckets) r rs
                  (answers k (serve store r).0 rs) own usable
                  (subst (λ o. Alone k o rs (answers k (serve store r).0 rs))
                    (ap (λ s. lookup k s.0.buckets) caller ∙ left_with) rest)))
      ])
answers-Alone k store (r ∷ rs) d (inr (other, room), later) =
    let rest =
      answers-Alone k (serve store r).0 rs (allow-Distinct r.caller r.limit store r.now d) later in
    rw (answers, differs r.caller other)
      (forgotten k _ (lookup k (serve store r).0.buckets) r rs _
        (allow_other-IsKept k r.caller r.limit store r.now d other room)
        (passes (lookup k (serve store r).0.buckets) r rs (answers k (serve store r).0 rs) other
          rest))
  where
    differs : (j : Text) → j ≢ k → same j k ≡ false
    differs j e = elim (Bool-cases (same j k)) [
      | inr a ↦ a
      | inl a ↦ absurd (e ((same_iff j k).0 a))
    ]
