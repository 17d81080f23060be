-- ===== src/Logs/Tests.antt =====
-- A day that begins, with an old log file and a .gitkeep.
use gin_di.Prelude.Trim.{trim_right, trim_left, trim_space}
use gin_di.Http.Exceptions.{to_lower}
use gin_di.Prelude.{
  has, lookup, ℕ, Text, codes, same, [], ◌∷◌, ◌++◌, none, some, false, ◌≡◌, refl, delete, arith,
}
use gin_di.Logs.{
  extension, level_of, prune_entries, Entry, Files, Os, DailyWriter, prune_logs, write, parse_level,
  warn_level, info_level,
}
use gin_di.Logs.Daily.{IsWriting, text_of, write_appends}
use gin_di.Logs.Prune.{Swept, prune_logs-Swept}

abbrev os : Os
os = record {
  mkdir_error = none;
  open_error = λ name. none;
  read_dir_error = none;
  info_error = λ name. none;
  remove_error = λ name. none;
  write_error = none;
  close_error = none;
}

abbrev at : ℕ → Text → Entry
at modified bytes = record { is_dir = false; modified = modified; bytes = bytes }

abbrev files : Files
files =
    (codes ".gitkeep", at 1 [])
    ∷ (codes "gin-old.log", at 2 (codes "x"))
    ∷ (codes "gin-day1.log", at 40 (codes "a"))
    ∷ []

abbrev writer : DailyWriter
writer = record { prefix = codes "gin"; file = some (codes "gin-day1.log"); date = codes "day1" }

write_appends_example :
    let (state, result) = write os 50 20 (codes "day2") (codes "b") (writer, files) in
    IsWriting state
    × (state.0.date ≡ codes "day2")
    × (result ≡ (1, none))
    × (text_of (codes "gin-day2.log") state.1 ≡ text_of (codes "gin-day2.log") files ++ codes "b")
unfolding has same lookup
write_appends_example =
    write_appends os 20 50 (codes "day2") (codes "b") writer files
      ((refl, (refl, (refl, tt))), refl, (at 40 (codes "a"), refl)) (omega arith)
      (λ entry h. not_missing h) refl refl
  where
    not_missing : {A : Type 0} {a : Entry} → none ≡ some a → A
    not_missing h = cc

prune_logs-Swept_example : Swept os 20 files files (codes "gin-old.log") (prune_logs os 20 files).0
prune_logs-Swept_example = prune_logs-Swept os 20 files (codes "gin-old.log")

keeps_gitkeep :
    (prune_logs os 20 files).0
    ≡ (codes ".gitkeep", at 1 []) ∷ (codes "gin-day1.log", at 40 (codes "a")) ∷ []
unfolding prune_logs prune_entries same extension delete
keeps_gitkeep = refl

warns : parse_level (codes " Warning ") ≡ warn_level
unfolding parse_level level_of same to_lower trim_space trim_right trim_left
warns = refl

informs : parse_level (codes "verbose") ≡ info_level
unfolding parse_level level_of same to_lower trim_space trim_right trim_left
informs = refl
