-- ===== src/Console/Reporter/Counts.antt =====
-- The counts are those of the results that are printed.
use gin_di.Prelude.{
  ℕ, suc, ◌+◌, Text, same, List, [], ◌∷◌, ◌++◌, Option-cases, Bool, true, false, Bool-cases, ltb,
  ◌==◌, if◌then◌else◌, ◌≡◌, ◌↔◌, refl, inl, inr, length, lookup, put, delete, arith,
}
use gin_di.Prelude.{length-append}
use gin_di.Console.Reporter.{
  trim_space, is_framing, humanize_test_name, Action, output, pass, fail, skip, other, Event,
  Status, passed, failed, skipped, TestResult, PackageResults, Printed, heading, result, failure,
  detail, totals, without_tests, Reporter, result_line, flush_result, flush_results, flush,
  handle_package, handle, handle_all, new_reporter, flush_all, summary, names_of, failure_lines,
  details, short_package_name, package_of, record_event,
}

-- The result lines of a status.
abbrev is_of : Status → Printed → Bool
is_of passed (result passed depth name duration) = true
is_of failed (result failed depth name duration) = true
is_of skipped (result skipped depth name duration) = true
is_of status line = false

unfoldable pub count_of : Status → List Printed → ℕ
count_of status [] = 0
count_of status (line ∷ lines) =
    let rest = count_of status lines in if is_of status line then suc rest else rest

count_of-append :
    (status : Status) (xs ys : List Printed)
    → count_of status (xs ++ ys) ≡ count_of status xs + count_of status ys
unfolding count_of
count_of-append status [] ys = omega arith
count_of-append status (line ∷ xs) ys = elim (Bool-cases (is_of status line)) [
  | inl a ↦ rw (a) (omega (arith, count_of-append status xs ys))
  | inr a ↦ rw (a) (count_of-append status xs ys)
]

-- Each counter is the number of the lines with its symbol, and the failures are as many as counted.
pub record IsCounted (r : Reporter) : Type 0 where
  pub passes_printed : r.passes ≡ count_of passed r.printed
  pub fails_printed : r.fails ≡ count_of failed r.printed
  pub skips_printed : r.skips ≡ count_of skipped r.printed
  pub fails_kept : r.fails ≡ length r.failures

flush_result-IsCounted :
    (pkg : Text) (t : TestResult) (r : Reporter) → IsCounted r → IsCounted (flush_result pkg t r)
unfolding flush_result count_of
flush_result-IsCounted pkg t r v = elim (Option-cases t.status) [
  | inl a ↦ rw (flush_result, a) v
  | inr (status, a) ↦ rw (flush_result, a) (by_status status)
]
  where
    by_status :
        (status : Status)
        → IsCounted (elim status [
          | passed ↦ record r {
            passes = suc r.passes;
            printed = r.printed ++ result_line passed t ∷ [];
          }
          | failed ↦ record r {
            fails = suc r.fails;
            printed = r.printed ++ result_line failed t ∷ [];
            failures = r.failures ++ t ∷ [];
            failed_in = put t.name pkg r.failed_in;
          }
          | skipped ↦ record r {
            skips = suc r.skips;
            printed = r.printed ++ result_line skipped t ∷ [];
          }
        ])
    by_status passed = record {
      passes_printed =
          omega
            (arith, v.passes_printed, count_of-append passed r.printed (result_line passed t ∷ []));
      fails_printed =
          omega
            (arith, v.fails_printed, count_of-append failed r.printed (result_line passed t ∷ []));
      skips_printed =
          omega
            (arith, v.skips_printed, count_of-append skipped r.printed (result_line passed t ∷ []));
      fails_kept = v.fails_kept;
    }
    by_status failed = record {
      passes_printed =
          omega
            (arith, v.passes_printed, count_of-append passed r.printed (result_line failed t ∷ []));
      fails_printed =
          omega
            (arith, v.fails_printed, count_of-append failed r.printed (result_line failed t ∷ []));
      skips_printed =
          omega
            (arith, v.skips_printed, count_of-append skipped r.printed (result_line failed t ∷ []));
      fails_kept = omega (arith, v.fails_kept, length-append r.failures (t ∷ []));
    }
    by_status skipped = record {
      passes_printed =
          omega (
            arith,
            v.passes_printed,
            count_of-append passed r.printed (result_line skipped t ∷ []),
          );
      fails_printed =
          omega
            (arith, v.fails_printed, count_of-append failed r.printed (result_line skipped t ∷ []));
      skips_printed =
          omega (
            arith,
            v.skips_printed,
            count_of-append skipped r.printed (result_line skipped t ∷ []),
          );
      fails_kept = v.fails_kept;
    }

flush_results-IsCounted :
    (pkg : Text) (results : List (Text × TestResult)) (names : List Text) (r : Reporter)
    → IsCounted r
    → IsCounted (flush_results pkg results names r)
unfolding flush_results
flush_results-IsCounted pkg results [] r v = v
flush_results-IsCounted pkg results (name ∷ names) r v = elim (Option-cases (lookup name results)) [
  | inl a ↦ rw (flush_results, a) (flush_results-IsCounted pkg results names r v)
  | inr (t, a) ↦
      rw (flush_results, a)
        (flush_results-IsCounted pkg results names (flush_result pkg t r)
          (flush_result-IsCounted pkg t r v))
]

-- A line that is no result changes no count.
headed :
    (r : Reporter) (name : Text) (packages : List (Text × PackageResults))
    → IsCounted r
    → IsCounted (record r { packages = packages; printed = r.printed ++ heading name ∷ [] })
unfolding count_of
headed r name packages v = record {
  passes_printed =
      omega (arith, v.passes_printed, count_of-append passed r.printed (heading name ∷ []));
  fails_printed =
      omega (arith, v.fails_printed, count_of-append failed r.printed (heading name ∷ []));
  skips_printed =
      omega (arith, v.skips_printed, count_of-append skipped r.printed (heading name ∷ []));
  fails_kept = v.fails_kept;
}

kept :
    (r : Reporter) (packages : List (Text × PackageResults))
    → IsCounted r
    → IsCounted (record r { packages = packages })
kept r packages v = record {
  passes_printed = v.passes_printed;
  fails_printed = v.fails_printed;
  skips_printed = v.skips_printed;
  fails_kept = v.fails_kept;
}

flush-IsCounted : (name : Text) (r : Reporter) → IsCounted r → IsCounted (flush name r)
unfolding flush
flush-IsCounted name r v = elim (Option-cases (lookup name r.packages)) [
  | inl a ↦ rw (flush, a) v
  | inr (found, a) ↦ rw (flush, a) (by_order found found.order)
]
  where
    by_order :
        (found : PackageResults) (order : List Text)
        → IsCounted (elim order [
          | [] ↦ record r { packages = delete name r.packages }
          | ◌∷◌ first rest ↦ flush_results name found.results (first ∷ rest) (record r {
            packages = delete name r.packages;
            printed = r.printed ++ heading (short_package_name name) ∷ [];
          })
        ])
    by_order found [] = kept r (delete name r.packages) v
    by_order found (first ∷ rest) =
        flush_results-IsCounted name found.results (first ∷ rest) _
          (headed r (short_package_name name) (delete name r.packages) v)

handle_package-IsCounted :
    (event : Event) (r : Reporter) → IsCounted r → IsCounted (handle_package event r)
unfolding handle_package
handle_package-IsCounted event r v = by_action event.action
  where
    by_action :
        (action : Action)
        → IsCounted (elim action [
          | skip ↦ record r { no_tests = suc r.no_tests }
          | pass ↦ flush event.pkg r
          | fail ↦ flush event.pkg r
          | output ↦ r
          | other ↦ r
        ])
    by_action skip = record {
      passes_printed = v.passes_printed;
      fails_printed = v.fails_printed;
      skips_printed = v.skips_printed;
      fails_kept = v.fails_kept;
    }
    by_action pass = flush-IsCounted event.pkg r v
    by_action fail = flush-IsCounted event.pkg r v
    by_action output = v
    by_action other = v

handle-IsCounted : (event : Event) (r : Reporter) → IsCounted r → IsCounted (handle event r)
unfolding handle
handle-IsCounted event r v = elim (Bool-cases (same event.test [])) [
  | inl a ↦ rw (handle, a) (handle_package-IsCounted event r v)
  | inr a ↦
      rw (handle, a)
        (kept r (put event.pkg (record_event event (package_of event.pkg r)) r.packages) v)
]

handle_all-IsCounted :
    (events : List Event) (r : Reporter) → IsCounted r → IsCounted (handle_all events r)
unfolding handle_all
handle_all-IsCounted [] r v = v
handle_all-IsCounted (event ∷ events) r v =
    handle_all-IsCounted events (handle event r) (handle-IsCounted event r v)

flush_all-IsCounted :
    (names : List Text) (r : Reporter) → IsCounted r → IsCounted (flush_all names r)
unfolding flush_all
flush_all-IsCounted [] r v = v
flush_all-IsCounted (name ∷ names) r v =
    flush_all-IsCounted names (flush name r) (flush-IsCounted name r v)

new_reporter-IsCounted : IsCounted new_reporter
unfolding count_of
new_reporter-IsCounted = record {
  passes_printed = refl;
  fails_printed = refl;
  skips_printed = refl;
  fails_kept = refl;
}

not_detail : (status : Status) (line : Text) → is_of status (detail line) ≡ false
not_detail passed line = refl
not_detail failed line = refl
not_detail skipped line = refl

details-none : (status : Status) (lines : List Text) → count_of status (details lines) ≡ 0
unfolding details count_of
details-none status [] = refl
details-none status (line ∷ lines) = elim (Bool-cases (is_framing (trim_space line))) [
  | inl a ↦ rw (details, a) (details-none status lines)
  | inr a ↦ rw (details, a, not_detail status (trim_space line)) (details-none status lines)
]

not_failure : (status : Status) (pkg name : Text) → is_of status (failure pkg name) ≡ false
not_failure passed pkg name = refl
not_failure failed pkg name = refl
not_failure skipped pkg name = refl

failure_lines-none :
    (status : Status) (failed_in : List (Text × Text)) (failures : List TestResult)
    → count_of status (failure_lines failed_in failures) ≡ 0
unfolding failure_lines count_of
failure_lines-none status failed_in [] = refl
failure_lines-none status failed_in (r ∷ rest) =
    rw (failure_lines, count_of, not_failure status _ (humanize_test_name r.name))
      (omega (
        arith,
        count_of-append status (details r.outputs) (failure_lines failed_in rest),
        details-none status r.outputs,
        failure_lines-none status failed_in rest,
      ))

-- What the summary prints behind the results.
closing : ℕ → ℕ → ℕ → ℕ → List Printed
closing f s p n = totals f s p (p + f + s) ∷ (if ltb 0 n then without_tests n ∷ [] else [])

closing-none : (status : Status) (f s p n : ℕ) → count_of status (closing f s p n) ≡ 0
unfolding closing count_of
closing-none status f s p n = elim (Bool-cases (ltb 0 n)) [
  | inl a ↦ rw (closing, a) (both status)
  | inr a ↦ rw (closing, a) (one status)
]
  where
    both : (t : Status) → count_of t (totals f s p (p + f + s) ∷ without_tests n ∷ []) ≡ 0
    both passed = refl
    both failed = refl
    both skipped = refl

    one : (t : Status) → count_of t (totals f s p (p + f + s) ∷ []) ≡ 0
    one passed = refl
    one failed = refl
    one skipped = refl

-- A run that is reported to the end counts what it prints: the passed, failed and skipped tests are
-- the lines with these symbols, there are as many failures to repeat as failed tests, and the verdict
-- is that nothing failed.
pub summary-IsCounted :
    (events : List Event)
    → let (reporter, verdict) = summary (handle_all events new_reporter) in
      IsCounted reporter × ((verdict ≡ true) ↔ (count_of failed reporter.printed ≡ 0))
unfolding summary closing
summary-IsCounted events = (
  record {
    passes_printed = omega (arith, v.passes_printed, more passed);
    fails_printed = omega (arith, v.fails_printed, more failed);
    skips_printed = omega (arith, v.skips_printed, more skipped);
    fails_kept = v.fails_kept;
  },
  (
    λ h. omega (arith, v.fails_printed, more failed, (zero_iff left.fails).0 h),
    λ h. (zero_iff left.fails).1 (omega (arith, v.fails_printed, more failed, h)),
  ),
)
  where
    ended : Reporter
    ended = handle_all events new_reporter

    left : Reporter
    left = flush_all (names_of ended.packages) ended

    v : IsCounted left
    v =
        flush_all-IsCounted (names_of ended.packages) ended
          (handle_all-IsCounted events new_reporter new_reporter-IsCounted)

    zero_iff : (n : ℕ) → ((n == 0) ≡ true) ↔ (n ≡ 0)
    zero_iff n = ground arith

    end : List Printed
    end = closing left.fails left.skips left.passes left.no_tests

    more :
        (status : Status)
        → count_of status (left.printed ++ failure_lines left.failed_in left.failures ++ end)
          ≡ count_of status left.printed
    more status = omega (
      arith,
      count_of-append status (left.printed ++ failure_lines left.failed_in left.failures) end,
      count_of-append status left.printed (failure_lines left.failed_in left.failures),
      failure_lines-none status left.failed_in left.failures,
      closing-none status left.fails left.skips left.passes left.no_tests,
    )
