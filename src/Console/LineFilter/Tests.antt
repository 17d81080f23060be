-- ===== src/Console/LineFilter/Tests.antt =====
-- A filter on output that arrives in two pieces.
use gin_di.Prelude.{ℕ, Text, codes, same, [], ◌++◌, Option, none, some, ◌≡◌, refl, length}
use gin_di.Console.LineFilter.{
  LineFilter, write, flush, count, emit, write_lines, cut_line, contains, starts_with,
  is_no_test_files_line,
}
use gin_di.Console.LineFilter.Chunks.{write-append}

-- A writer that keeps what it is given and never fails.
abbrev keep : Text → Text → Text × Option ℕ
keep out line = (out ++ line, none)

abbrev filter : LineFilter Text
filter = record { out = []; drop = some is_no_test_files_line; dropped = 0; pending = [] }

abbrev half : LineFilter Text
half = record filter { pending = codes "ok a" }

flushed : (flush keep half).0.out ≡ codes "ok a"
unfolding flush emit is_no_test_files_line contains starts_with same
flushed = refl

write-append_example :
    (4 ≡ length (codes "ok a"))
    × (cut_line half.pending ≡ none)
    × ((r : LineFilter Text × Option ℕ) × (write keep (codes "b\nc") half
          ≡ count r (length (codes "b\nc")))
        × (write keep (codes "ok a" ++ codes "b\nc") filter
            ≡ count r (length (codes "ok a" ++ codes "b\nc"))))
unfolding write write_lines cut_line
write-append_example = write-append keep filter half (codes "ok a") (codes "b\nc") 4 refl refl
