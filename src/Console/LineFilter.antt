-- ===== src/Console/LineFilter.antt =====
-- app/console/test/line_filter.go: output forwarded line by line, some lines dropped. `write_out` is
-- the method Write of the writer behind the filter, whose state is `W`.
use gin_di.Prelude.{
  ℕ, zero, suc, ◌+◌, ◌-◌, ◌*◌, ◌/◌, ◌%◌, ◌≤◌, ◌<◌, Text, codes, same, same_refl, same_iff,
  ne_of_same, List, [], ◌∷◌, ◌++◌, map, append-nil, append_assoc, Option, none, some, Option-cases,
  Bool, true, false, not, ◌&&◌, ◌||◌, Bool-cases, ltb, leb, ◌==◌, if◌then◌else◌, ◌≡◌, ◌≢◌, ◌↔◌,
  refl, sym, ap, subst, ◌∙◌, ◌⊎◌, inl, inr, length, All, lookup, has, put, delete, lookup-put,
  Result, ok, err, Result-cases, arith,
}
pub mod Chunks
mod Tests

pub record LineFilter (W : Type 0) : Type 0 where
  pub out : W
  -- The nil function drops nothing.
  pub drop : Option (Text → Bool)
  pub dropped : ℕ
  pub pending : Text

abbrev newline : ℕ
newline = 10

-- The front up to the first newline with it, and what follows: IndexByte and the two slices.
unfoldable pub cut_line : Text → Option (Text × Text)
cut_line [] = none
cut_line (c ∷ s) =
    let rest = cut_line s in
    if c == newline
    then some (c ∷ [], s)
    else elim rest [ none ↦ none | some (line, behind) ↦ some (c ∷ line, behind) ]

abbrev drops : Option (Text → Bool) → Text → Bool
drops none line = false
drops (some f) line = f line

module _ {W E : Type 0} where
  -- An error ends the loop.
  abbrev proceed :
      LineFilter W × Option E → (LineFilter W → LineFilter W × Option E) → LineFilter W × Option E
  proceed (filter, none) k = k filter
  proceed (filter, some e) k = (filter, some e)

  abbrev count : LineFilter W × Option E → ℕ → LineFilter W × Result E ℕ
  count (filter, none) n = (filter, ok n)
  count (filter, some e) n = (filter, err e)

module _ {W E : Type 0} (write_out : W → Text → W × Option E) where
  -- What Write and Flush do with a line.
  pub emit : Text → LineFilter W → LineFilter W × Option E
  emit line filter =
      let (out, e) = write_out filter.out line in
      if drops filter.drop line
      then (record filter { dropped = filter.dropped + 1 }, none)
      else (record filter { out = out }, e)

  -- The loop of Write, which takes at least one byte from `pending` in each round.
  write_lines : ℕ → LineFilter W → LineFilter W × Option E
  write_lines zero filter = (filter, none)
  write_lines (suc fuel) filter = elim (cut_line filter.pending) [
    | none ↦ (filter, none)
    | some (line, rest) ↦ proceed (emit line (record filter { pending = rest })) (write_lines fuel)
  ]

  pub write : Text → LineFilter W → LineFilter W × Result E ℕ
  write p filter =
      let pending = filter.pending ++ p in
      count (write_lines (1 + length pending) (record filter { pending = pending })) (length p)

  pub flush : LineFilter W → LineFilter W × Option E
  flush filter =
      if same filter.pending []
      then (filter, none)
      else emit filter.pending (record filter { pending = [] })

-- strings.Contains
unfoldable pub starts_with : Text → Text → Bool
starts_with s [] = true
starts_with [] (p ∷ ps) = false
starts_with (c ∷ s) (p ∷ ps) = let rest = starts_with s ps in if c == p then rest else false

unfoldable pub contains : Text → Text → Bool
contains [] p = starts_with [] p
contains (c ∷ s) p = let rest = contains s p in if starts_with (c ∷ s) p then true else rest

pub is_no_test_files_line : Text → Bool
is_no_test_files_line line = contains line (codes "[no test files]")
