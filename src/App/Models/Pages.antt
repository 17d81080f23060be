-- ===== src/App/Models/Pages.antt =====
-- The pages of a listing lie side by side, as long as the offset fits an int.
use gin_di.Prelude.{
  lt→ltb, ℕ, ◌+◌, ◌-◌, ◌*◌, ◌%◌, ◌^◌, ◌≤◌, ◌<◌, false, ◌==◌, ◌≡◌, refl, ap, subst, ◌∙◌, arith,
}
use gin_di.App.Models.{or_default, page_bounds}
use gin_di.Prelude.Int.{to_int64, pos}

to_int64-pos : (n : ℕ) → n < 2 ^ 63 → to_int64 n ≡ pos n
unfolding to_int64
to_int64-pos n h =
    let same_bits : n % 2 ^ 64 ≡ n = omega arith in
    rw (to_int64, same_bits, lt→ltb n (2 ^ 63) h) refl

-- For a positive page size and page whose product fits an int, the offset is what the pages before
-- hold, and the next page starts where this one ends.
pub page_bounds-adjoin :
    (size page : ℕ)
    → 1 ≤ size
    → 1 ≤ page
    → page * size < 2 ^ 63
    → ((offset : ℕ) × (page_bounds (pos size) (pos page) ≡ (pos size, pos offset))
        × (offset ≡ (page - 1) * size)
        × (page_bounds (pos size) (pos (page + 1)) ≡ (pos size, pos (offset + size))))
unfolding page_bounds or_default
page_bounds-adjoin size page s p h = (
  (page - 1) * size,
  bounds page p here,
  refl,
  bounds (page + 1) (omega arith) there ∙ ap (λ n. (pos size, pos n)) step,
)
  where
    before : ℕ
    before = page - 1

    one_more : page * size ≡ before * size + size
    one_more = subst (λ n. n * size ≡ before * size + size) (omega arith) (distribute before)
      where
        distribute : (n : ℕ) → (n + 1) * size ≡ n * size + size
        distribute n = omega arith

    here : (page - 1) * size < 2 ^ 63
    here = omega (arith, one_more)

    step : (page + 1 - 1) * size ≡ (page - 1) * size + size
    step = ap (λ n. n * size) (omega arith) ∙ one_more

    there : (page + 1 - 1) * size < 2 ^ 63
    there = subst (λ n. n * size < 2 ^ 63) (omega arith) h

    positive : (n : ℕ) → 1 ≤ n → (n == 0) ≡ false
    positive n q = ground arith

    bounds :
        (n : ℕ)
        → 1 ≤ n
        → (n - 1) * size < 2 ^ 63
        → page_bounds (pos size) (pos n) ≡ (pos size, pos ((n - 1) * size))
    bounds n q b =
        rw (page_bounds, or_default, positive size s, positive n q)
          (ap (λ x. (pos size, x)) (to_int64-pos _ b))
