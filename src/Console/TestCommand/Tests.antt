-- ===== src/Console/TestCommand/Tests.antt =====
-- The arguments of a filtered database run, and a run that passes.
use gin_di.Prelude.{codes, same, [], ◌∷◌, none, true, false, ◌≡◌, refl, lookup, put, delete}
use gin_di.Console.Reporter.{
  Event, pass, handle_all, new_reporter, summary, failed, flush_all, handle, handle_package, flush,
  flush_results, flush_result, record_event,
}
use gin_di.Console.Reporter.Counts.{count_of}
use gin_di.Console.TestCommand.{
  Options, go_test_args, Suite, json, notice, exited, run_reported, scan,
}
use gin_di.Console.TestCommand.Verdict.{run_reported-eq-none, events_of}

abbrev options : Options
options = record {
  filter = codes "Login";
  coverage = false;
  race = true;
  cache = false;
  raw = false;
  database = true;
  extra = [];
}

arguments :
    go_test_args options
    ≡ codes "test"
      ∷ codes "-json"
      ∷ codes "-race"
      ∷ codes "-count=1"
      ∷ codes "-p"
      ∷ codes "1"
      ∷ codes "-run"
      ∷ codes "Login"
      ∷ codes "./..."
      ∷ []
unfolding go_test_args same
arguments = refl

abbrev passing : Event
passing = record {
  action = pass;
  pkg = codes "web-app/a";
  test = codes "TestA";
  elapsed = 0;
  text = [];
}

abbrev suite : Suite
suite = record {
  pipe_error = none;
  start_error = none;
  lines =
      notice (codes "go: downloading") ∷ json passing ∷ json (record passing { test = [] }) ∷ [];
  scan_error = none;
  end = exited;
}

passes : (run_reported suite).1 ≡ none
unfolding run_reported scan summary flush_all handle handle_package flush flush_results flush_result
    record_event lookup put delete same
passes = refl

run_reported-eq-none_example :
    (suite.pipe_error ≡ none)
    × (suite.start_error ≡ none)
    × (suite.scan_error ≡ none)
    × (suite.end ≡ exited)
    × ((run_reported suite).0.0 ≡ (summary (handle_all (events_of suite.lines) new_reporter)).0)
    × (count_of failed (run_reported suite).0.0.printed ≡ 0)
run_reported-eq-none_example = run_reported-eq-none suite passes
