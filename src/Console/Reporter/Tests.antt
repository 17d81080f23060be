-- ===== src/Console/Reporter/Tests.antt =====
-- A package with a failing subtest, and the readable names.
use gin_di.Http.Middlewares.{cut_prefix}
use gin_di.Prelude.{same, lookup, put, delete, codes, List, String, [], ◌∷◌, true, ◌≡◌, ◌↔◌, refl}
use gin_di.Console.Reporter.{
  delete, put, lookup, same, flush_all, handle, handle_package, flush, flush_results, flush_result,
  record_event, slashes, spaced, words, phrase, leaf, Action, output, fail, other, Event, failed,
  handle_all, new_reporter, summary, humanize_test_name, short_package_name,
}
use gin_di.Console.Reporter.Counts.{IsCounted, count_of, summary-IsCounted}

abbrev of_test : Action → String → Event
of_test action name = record {
  action = action;
  pkg = codes "web-app/tests/Unit";
  test = codes name;
  elapsed = 0;
  text = codes "    boom";
}

abbrev events : List Event
events =
    of_test other "TestLogin"
    ∷ of_test other "TestLogin/wrong_password"
    ∷ of_test output "TestLogin/wrong_password"
    ∷ of_test fail "TestLogin/wrong_password"
    ∷ of_test fail "TestLogin"
    ∷ of_test other "TestLost"
    ∷ of_test fail ""
    ∷ []

summary-IsCounted_example :
    let (reporter, verdict) = summary (handle_all events new_reporter) in
    IsCounted reporter × ((verdict ≡ true) ↔ (count_of failed reporter.printed ≡ 0))
summary-IsCounted_example = summary-IsCounted events

-- The test that never ended is not counted.
two_failed : (summary (handle_all events new_reporter)).0.fails ≡ 2
unfolding summary flush_all handle_all handle same handle_package flush flush_results flush_result
    record_event lookup put delete
two_failed = refl

readable : humanize_test_name (codes "TestGenerateToken") ≡ codes "generate token"
unfolding humanize_test_name slashes phrase cut_prefix words
readable = refl

acronym : humanize_test_name (codes "TestHTTPServer2Go") ≡ codes "http server2 go"
unfolding humanize_test_name slashes phrase cut_prefix words
acronym = refl

subtest : humanize_test_name (codes "TestLogin/wrong_password") ≡ codes "wrong password"
unfolding humanize_test_name slashes spaced leaf
subtest = refl

shortened : short_package_name (codes "web-app/tests/Unit") ≡ codes "tests/Unit"
unfolding short_package_name
shortened = refl
