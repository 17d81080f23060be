-- ===== src/Console/TestCommand.antt =====
-- app/console/test/command.go: running the toolchain. The process is a parameter: whether it starts, the
-- lines it prints and how it ends.
use gin_di.Prelude.{
  ℕ, zero, suc, ◌+◌, ◌-◌, ◌*◌, ◌/◌, ◌%◌, ◌^◌, ◌≤◌, ◌<◌, Text, codes, same, same_refl, same_iff,
  ne_of_same, List, [], ◌∷◌, ◌++◌, map, append-nil, append_assoc, Option, none, some, Option-cases,
  Bool, true, false, not, ◌&&◌, ◌||◌, Bool-cases, ltb, leb, ◌==◌, if◌then◌else◌, ◌≡◌, ◌≢◌, ◌↔◌,
  refl, sym, ap, subst, ◌∙◌, ◌⊎◌, inl, inr, length, All, lookup, has, put, delete, lookup-put,
  Result, ok, err, Result-cases, ok_inj, err_not_ok, arith,
}
use gin_di.Http.Errors.{GoError, plain, wrap}
use gin_di.Console.Commands.{Flags, help, invalid, given}
use gin_di.Console.Reporter.{Event, Reporter, handle, new_reporter, summary}
pub mod Verdict
mod Tests

pub record Options : Type 0 where
  pub filter : Text
  pub coverage : Bool
  pub race : Bool
  pub cache : Bool
  pub raw : Bool
  pub database : Bool
  pub extra : List Text

abbrev test_packages : Text
test_packages = codes "./..."

abbrev only_if : Bool → List Text → List Text
only_if b args = if b then args else []

-- `GoTestArgs`
unfoldable pub go_test_args : Options → List Text
go_test_args options =
    (codes "test" ∷ (if options.raw then codes "-v" else codes "-json") ∷ [])
    ++ only_if options.race (codes "-race" ∷ [])
    ++ only_if options.coverage (codes "-cover" ∷ (codes "-coverpkg=" ++ test_packages) ∷ [])
    ++ only_if (not options.cache) (codes "-count=1" ∷ [])
    ++ only_if options.database (codes "-p" ∷ codes "1" ∷ [])
    ++ only_if (not (same options.filter [])) (codes "-run" ∷ options.filter ∷ [])
    ++ options.extra
    ++ test_packages ∷ []

-- A line of the output: a record, or something else.
pub data Line : Type 0 where
  json : Event → Line
  notice : Text → Line

-- How a process ends: well, with an exit status, or otherwise.
pub data ProcessEnd : Type 0 where
  exited : ProcessEnd
  exit_error : ProcessEnd
  run_error : GoError → ProcessEnd

pub record Suite : Type 0 where
  pub pipe_error : Option GoError
  pub start_error : Option GoError
  pub lines : List Line
  pub scan_error : Option GoError
  pub end : ProcessEnd

abbrev pub suite_failed : GoError
suite_failed = plain (codes "test suite failed")

-- The loop over the lines: notices are passed through.
unfoldable pub scan : List Line → Reporter × List Text → Reporter × List Text
scan [] state = state
scan (json event ∷ lines) (reporter, through) = scan lines (handle event reporter, through)
scan (notice text ∷ lines) (reporter, through) = scan lines (reporter, through ++ text ∷ [])

abbrev pub run_result : ProcessEnd → Bool → Option GoError
run_result (run_error e) verdict = some (wrap (codes "running the test suite: ") e)
run_result exit_error verdict = some suite_failed
run_result exited verdict = if verdict then none else some suite_failed

-- `runReported`: the reporter, what is passed through, and the error.
unfoldable pub run_reported : Suite → (Reporter × List Text) × Option GoError
run_reported suite = elim suite.pipe_error [
  | some e ↦ ((new_reporter, []), some (wrap (codes "capturing test output: ") e))
  | none ↦ elim suite.start_error [
    | some e ↦ ((new_reporter, []), some (wrap (codes "starting the test suite: ") e))
    | none ↦
        let (reporter, through) = scan suite.lines (new_reporter, []) in
        let (ended, verdict) = summary reporter in
        (
          (ended, through),
          elim suite.scan_error [
            | some e ↦ some (wrap (codes "reading test output: ") e)
            | none ↦ run_result suite.end verdict
          ],
        )
  ]
]

-- `runRaw`: what the flush of the filter says, and how the process ended.
unfoldable pub run_raw : Option GoError → ProcessEnd → Option GoError
run_raw flush_error end = elim flush_error [
  | some e ↦ some (wrap (codes "writing test output: ") e)
  | none ↦ run_result end true
]

abbrev database_tests_env : Text
database_tests_env = codes "TEST_DB=1"

-- What `exec.Command` is given: the arguments, and what the environment gets in addition.
pub record Invocation : Type 0 where
  pub args : List Text
  pub added : List Text

abbrev pub invocation : Options → Invocation
invocation options = record {
  args = go_test_args options;
  added = only_if options.database (database_tests_env ∷ []);
}

-- `Handle`: `look_path` is the error of exec.LookPath, the runs are those of the invocation.
unfoldable pub handle_test_command :
    Flags Options GoError
    → Option GoError
    → (Invocation → Option GoError)
    → (Invocation → Suite)
    → Option GoError
handle_test_command help look_path raw suite = none
handle_test_command (invalid e) look_path raw suite = some (wrap (codes "parsing flags: ") e)
handle_test_command (given options) look_path raw suite = elim look_path [
  | some e ↦ some (wrap (codes "finding the go toolchain: ") e)
  | none ↦
      if options.raw
      then raw (invocation options)
      else (run_reported (suite (invocation options))).1
]
