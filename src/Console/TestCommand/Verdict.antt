-- ===== src/Console/TestCommand/Verdict.antt =====
-- A run that succeeds reported no failure.
use gin_di.Prelude.{
  Text, List, [], ◌∷◌, ◌++◌, none, some, Option-cases, Bool, true, false, ◌≡◌, refl, sym, ap, ◌∙◌,
  inl, inr,
}
use gin_di.Console.Reporter.{Event, Reporter, handle, handle_all, new_reporter, summary, failed}
use gin_di.Console.Reporter.Counts.{count_of, summary-IsCounted}
use gin_di.Console.TestCommand.{
  Suite, Line, json, notice, ProcessEnd, exited, exit_error, run_error, scan, run_reported,
  run_result,
}

-- The records among the lines.
abbrev pub events_of : List Line → List Event
events_of [] = []
events_of (json event ∷ lines) = event ∷ events_of lines
events_of (notice text ∷ lines) = events_of lines

scan-handle_all :
    (lines : List Line) (reporter : Reporter) (through : List Text)
    → (scan lines (reporter, through)).0 ≡ handle_all (events_of lines) reporter
unfolding scan handle_all
scan-handle_all [] reporter through = refl
scan-handle_all (json event ∷ lines) reporter through =
    scan-handle_all lines (handle event reporter) through
scan-handle_all (notice text ∷ lines) reporter through =
    scan-handle_all lines reporter (through ++ text ∷ [])

not_none : {A B : Type 0} {a : A} → some a ≡ none → B
not_none h = cc

ended_well :
    (end : ProcessEnd) (verdict : Bool)
    → run_result end verdict ≡ none
    → (end ≡ exited) × (verdict ≡ true)
ended_well exited true h = (refl, refl)
ended_well exited false h = not_none h
ended_well exit_error verdict h = not_none h
ended_well (run_error e) verdict h = not_none h

-- A reported run that returns no error started, its whole output was read, the process exited well,
-- and the report of its records shows no failed test.
pub run_reported-eq-none :
    (suite : Suite)
    → (run_reported suite).1 ≡ none
    → (suite.pipe_error ≡ none)
      × (suite.start_error ≡ none)
      × (suite.scan_error ≡ none)
      × (suite.end ≡ exited)
      × ((run_reported suite).0.0 ≡ (summary (handle_all (events_of suite.lines) new_reporter)).0)
      × (count_of failed (run_reported suite).0.0.printed ≡ 0)
unfolding run_reported
run_reported-eq-none suite h = elim (Option-cases suite.pipe_error) [
  | inr (e, a) ↦ not_none (rw (run_reported, a) at h)
  | inl a ↦ elim (Option-cases suite.start_error) [
    | inr (e, b) ↦ not_none (rw (run_reported, a, b) at h)
    | inl b ↦ elim (Option-cases suite.scan_error) [
      | inr (e, c) ↦ not_none (rw (run_reported, a, b, c) at h)
      | inl c ↦
          let (well, verdict) = ended_well suite.end _ (rw (run_reported, a, b, c) at h) in
          let all_events = scan-handle_all suite.lines new_reporter [] in
          let reported : (run_reported suite).0.0
              ≡ (summary (handle_all (events_of suite.lines) new_reporter)).0 =
            rw (run_reported, a, b) (ap (λ r. (summary r).0) all_events) in
          (
            a,
            b,
            c,
            well,
            reported,
            ap (λ r. count_of failed r.printed) reported
                ∙ (summary-IsCounted (events_of suite.lines)).1.0
                    (ap (λ r. (summary r).1) (sym all_events) ∙ verdict),
          )
    ]
  ]
]
