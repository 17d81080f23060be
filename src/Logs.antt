-- ===== src/Logs.antt =====
-- app/services/core/log_service.go: the log files. The calls of package os and what they answer are
-- parameters; a file has a name in the directory of the logs. What is printed to stderr is left out.
use gin_di.Prelude.{
  ℕ, zero, suc, ◌+◌, ◌-◌, ◌*◌, ◌/◌, ◌%◌, ◌^◌, ◌≤◌, ◌<◌, Text, codes, same, same_refl, same_iff,
  ne_of_same, List, [], ◌∷◌, ◌++◌, map, append-nil, append_assoc, Option, none, some, Option-cases,
  Bool, true, false, not, ◌&&◌, ◌||◌, Bool-cases, ltb, leb, ◌==◌, if◌then◌else◌, ◌≡◌, ◌≢◌, ◌↔◌,
  refl, sym, ap, subst, ◌∙◌, ◌⊎◌, inl, inr, length, All, lookup, has, put, delete, lookup-put,
  Result, ok, err, Result-cases, ok_inj, err_not_ok, arith,
}
use gin_di.Http.Errors.{GoError, plain, wrap}
use gin_di.Http.Exceptions.{to_lower}
use gin_di.Prelude.Trim.{trim_space}
use gin_di.Settings.App.{AppConfig}
pub mod Prune
pub mod Daily
mod Tests

pub data Level : Type 0 where
  debug_level : Level
  info_level : Level
  warn_level : Level
  error_level : Level

-- strings.ToLower, on ASCII.
unfoldable pub level_of : Text → Level
level_of name =
    if same name (codes "debug")
    then debug_level
    else (if same name (codes "warn") || same name (codes "warning")
        then warn_level
        else (if same name (codes "error") then error_level else info_level))

unfoldable pub parse_level : Text → Level
parse_level name = level_of (to_lower (trim_space name))

-- A directory entry. Times are instants.
pub record Entry : Type 0 where
  pub is_dir : Bool
  pub modified : ℕ
  pub bytes : Text

abbrev pub Files : Type 0
Files = List (Text × Entry)

-- What the operating system answers: an error, or none. A write that fails has taken some bytes.
pub record Os : Type 0 where
  pub mkdir_error : Option GoError
  pub open_error : Text → Option GoError
  pub read_dir_error : Option GoError
  pub info_error : Text → Option GoError
  pub remove_error : Text → Option GoError
  pub write_error : Option (Text × GoError)
  pub close_error : Option GoError

abbrev pub log_file_extension : Text
log_file_extension = codes ".log"

-- filepath.Ext of a name: from its last dot on.
unfoldable pub extension : Text → Text
extension [] = []
extension (c ∷ s) = elim (extension s) [ ◌∷◌ d t ↦ d ∷ t | [] ↦ if c == b'.' then c ∷ s else [] ]

-- What the sweep looks at: a file, of the extension.
abbrev pub is_log : Text → Entry → Bool
is_log name entry = not (entry.is_dir || not (same (extension name) log_file_extension))

-- The loop of `pruneLogs`, over the entries that ReadDir gave.
unfoldable pub prune_entries : Os → ℕ → List (Text × Entry) → Files → Files × Option GoError
prune_entries os cutoff [] files = (files, none)
prune_entries os cutoff ((name, entry) ∷ rest) files =
    let next = prune_entries os cutoff rest in
    if not (is_log name entry) then next files else elim (os.info_error name) [
      | some e ↦ (files, some (wrap (codes "inspecting: ") e))
      | none ↦ if ltb cutoff entry.modified then next files else elim (os.remove_error name) [
        | some e ↦ (files, some (wrap (codes "removing: ") e))
        | none ↦ next (delete name files)
      ]
    ]

-- `pruneLogs`, where `cutoff` is the time of thirty days ago.
unfoldable pub prune_logs : Os → ℕ → Files → Files × Option GoError
prune_logs os cutoff files = elim os.read_dir_error [
  | some e ↦ (files, some (wrap (codes "reading log directory: ") e))
  | none ↦ prune_entries os cutoff files files
]

-- `dailyWriter`: the name of the open file, and its date.
pub record DailyWriter : Type 0 where
  pub prefix : Text
  pub file : Option Text
  pub date : Text

abbrev pub log_name : Text → Text → Text
log_name prefix date = prefix ++ codes "-" ++ date ++ log_file_extension

-- os.OpenFile to append, which creates an empty file.
abbrev pub opened : Text → ℕ → Files → Files
opened name now files = elim (lookup name files) [
  | some entry ↦ files
  | none ↦ put name (record { is_dir = false; modified = now; bytes = [] }) files
]

abbrev pub State : Type 0
State = DailyWriter × Files

-- `rotate`. An error of the close of the previous file and one of the sweep are only printed.
unfoldable pub rotate : Os → ℕ → ℕ → Text → State → State × Option GoError
rotate os now cutoff date (writer, files) =
    let name = log_name writer.prefix date in
    elim (os.open_error name) [
      | some e ↦ ((writer, files), some (wrap (codes "opening log file: ") e))
      | none ↦ (
        (
          record writer { file = some name; date = date },
          (prune_logs os cutoff (opened name now files)).0,
        ),
        none,
      )
    ]

abbrev pub created : State × Option GoError → Files × Result GoError DailyWriter
created ((writer, files), some e) = (files, err e)
created ((writer, files), none) = (files, ok writer)

-- `newDailyWriter`
unfoldable pub new_daily_writer :
    Os → ℕ → ℕ → Text → Text → Files → Files × Result GoError DailyWriter
new_daily_writer os now cutoff prefix today files = elim os.mkdir_error [
  | some e ↦ (files, err (wrap (codes "preparing log directory: ") e))
  | none ↦
      created
        (rotate os now cutoff today (record { prefix = prefix; file = none; date = [] }, files))
]

-- How many bytes were written, and the error.
abbrev pub Written : Type 0
Written = ℕ × Option GoError

-- The bytes that reach the open file: a file that has been removed takes them, too.
abbrev pub put_bytes : Text → ℕ → Text → Files → Files
put_bytes name now bytes files = elim (lookup name files) [
  | none ↦ files
  | some entry ↦ put name (record entry { modified = now; bytes = entry.bytes ++ bytes }) files
]

-- `writer.file.Write`
unfoldable pub write_file : Os → ℕ → Text → State → State × Written
write_file os now bytes (writer, files) = elim writer.file [
  | none ↦ ((writer, files), (0, some (plain (codes "invalid argument"))))
  | some name ↦ elim os.write_error [
    | none ↦ ((writer, put_bytes name now bytes files), (length bytes, none))
    | some (taken, e) ↦ ((writer, put_bytes name now taken files), (length taken, some e))
  ]
]

-- A record after the switch of the file, which may fail.
abbrev pub rotated : Os → ℕ → Text → State × Option GoError → State × Written
rotated os now bytes (state, some e) = (state, (0, some e))
rotated os now bytes (state, none) = write_file os now bytes state

-- `Write`: `today` is the date of `now`.
unfoldable pub write : Os → ℕ → ℕ → Text → Text → State → State × Written
write os now cutoff today bytes (writer, files) =
    if not (same today writer.date)
    then rotated os now bytes (rotate os now cutoff today (writer, files))
    else write_file os now bytes (writer, files)

-- `Close`
unfoldable pub close_writer : Os → DailyWriter → DailyWriter × Option GoError
close_writer os writer = elim writer.file [
  | none ↦ (writer, none)
  | some name ↦ (record writer { file = none }, os.close_error)
]

-- The settings of the logger: JSON but for the local environment.
pub record Logger : Type 0 where
  pub level : Level
  pub as_text : Bool

-- `NewLogger`
unfoldable pub new_logger :
    Os → ℕ → ℕ → Text → AppConfig → Files → Files × Result GoError (Logger × DailyWriter)
new_logger os now cutoff today app files =
    let (after, made) = new_daily_writer os now cutoff app.name today files in
    elim made [
      | err e ↦ (after, err e)
      | ok writer ↦ (
        after,
        ok (
          record { level = parse_level app.log_level; as_text = same app.env (codes "local") },
          writer,
        ),
      )
    ]
