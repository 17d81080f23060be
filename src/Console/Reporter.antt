-- ===== src/Console/Reporter.antt =====
-- app/console/test/reporter.go: the report of the tests. What is printed is a list of its lines; the
-- colours are left out.
use gin_di.Prelude.{
  ℕ, zero, suc, ◌+◌, ◌-◌, ◌*◌, ◌/◌, ◌%◌, ◌^◌, ◌≤◌, ◌<◌, Text, codes, same, same_refl, same_iff,
  ne_of_same, List, [], ◌∷◌, ◌++◌, map, append-nil, append_assoc, Option, none, some, Option-cases,
  Bool, true, false, not, ◌&&◌, ◌||◌, Bool-cases, ltb, leb, ◌==◌, if◌then◌else◌, ◌≡◌, ◌≢◌, ◌↔◌,
  refl, sym, ap, subst, ◌∙◌, ◌⊎◌, inl, inr, length, All, lookup, has, put, delete, lookup-put,
  Result, ok, err, Result-cases, ok_inj, err_not_ok, arith,
}
use gin_di.Prelude.Trim.{trim_space}
use gin_di.Http.Middlewares.{cut_prefix}
pub mod Counts
mod Tests

-- The actions that the code tells apart.
pub data Action : Type 0 where
  output : Action
  pass : Action
  fail : Action
  skip : Action
  other : Action

pub record Event : Type 0 where
  pub action : Action
  pub pkg : Text
  pub test : Text
  -- Nanoseconds.
  pub elapsed : ℕ
  pub text : Text

-- What a test ended with.
pub data Status : Type 0 where
  passed : Status
  failed : Status
  skipped : Status

pub record TestResult : Type 0 where
  pub name : Text
  pub status : Option Status
  pub elapsed : ℕ
  pub outputs : List Text

pub record PackageResults : Type 0 where
  pub order : List Text
  pub results : List (Text × TestResult)

pub data Printed : Type 0 where
  heading : Text → Printed
  -- The status, the depth, the readable name and a duration that is worth noticing.
  result : Status → ℕ → Text → Option ℕ → Printed
  failure : Text → Text → Printed
  detail : Text → Printed
  totals : ℕ → ℕ → ℕ → ℕ → Printed
  without_tests : ℕ → Printed

pub record Reporter : Type 0 where
  pub passes : ℕ
  pub fails : ℕ
  pub skips : ℕ
  pub no_tests : ℕ
  pub packages : List (Text × PackageResults)
  pub failures : List TestResult
  pub failed_in : List (Text × Text)
  pub printed : List Printed

-- How many slashes.
unfoldable pub slashes : Text → ℕ
slashes [] = 0
slashes (c ∷ s) = let rest = slashes s in if c == b'/' then suc rest else rest

unfoldable pub short_package_name : Text → Text
short_package_name pkg = elim (behind_slash pkg) [ none ↦ pkg | some path ↦ path ]
  where
    behind_slash : Text → Option Text
    behind_slash [] = none
    behind_slash (c ∷ s) = let rest = behind_slash s in if c == b'/' then some s else rest

abbrev is_upper : ℕ → Bool
is_upper c = leb b'A' c && leb c b'Z'

abbrev is_lower : ℕ → Bool
is_lower c = leb b'a' c && leb c b'z'

abbrev is_digit : ℕ → Bool
is_digit c = leb b'0' c && leb c b'9'

abbrev pub lower : ℕ → ℕ
lower c = if is_upper c then c + 32 else c

abbrev starts_lower : Text → Bool
starts_lower [] = false
starts_lower (c ∷ s) = is_lower c

-- The loop of `HumanizeTestName` behind its first character, on ASCII.
unfoldable pub words : ℕ → Text → Text
words previous [] = []
words previous (c ∷ s) =
    let rest = lower c ∷ words c s in
    if is_upper c && ((is_lower previous || is_digit previous) || starts_lower s)
    then 32 ∷ rest
    else rest

unfoldable pub phrase : Text → Text
phrase [] = []
phrase (c ∷ s) = lower c ∷ words c s

-- strings.TrimPrefix of "Test".
abbrev pub trim_test : Text → Text
trim_test s = elim (cut_prefix s (codes "Test")) [ none ↦ s | some rest ↦ rest ]

-- The last part behind a slash, and its underscores as spaces.
unfoldable pub leaf : Text → Text
leaf [] = []
leaf (c ∷ s) = let rest = leaf s in if slashes (c ∷ s) == 0 then c ∷ s else rest

unfoldable pub spaced : Text → Text
spaced [] = []
spaced (c ∷ s) = (if c == b'_' then 32 else c) ∷ spaced s

unfoldable pub humanize_test_name : Text → Text
humanize_test_name name = if slashes name == 0 then phrase (trim_test name) else spaced (leaf name)

-- `printResult`
abbrev pub result_line : Status → TestResult → Printed
result_line status r =
    result status (slashes r.name + 1) (humanize_test_name r.name)
      (if leb 10_000_000 r.elapsed then some r.elapsed else none)

-- The body of the loop of `flush`, for a result with its status.
unfoldable pub flush_result : Text → TestResult → Reporter → Reporter
flush_result pkg r reporter = elim r.status [
  | none ↦ reporter
  | some status ↦ elim status [
    | passed ↦ record reporter {
      passes = suc reporter.passes;
      printed = reporter.printed ++ result_line passed r ∷ [];
    }
    | failed ↦ record reporter {
      fails = suc reporter.fails;
      printed = reporter.printed ++ result_line failed r ∷ [];
      failures = reporter.failures ++ r ∷ [];
      failed_in = put r.name pkg reporter.failed_in;
    }
    | skipped ↦ record reporter {
      skips = suc reporter.skips;
      printed = reporter.printed ++ result_line skipped r ∷ [];
    }
  ]
]

-- The loop of `flush`, over the names in their order; each has a result.
unfoldable pub flush_results : Text → List (Text × TestResult) → List Text → Reporter → Reporter
flush_results pkg results [] reporter = reporter
flush_results pkg results (name ∷ names) reporter = elim (lookup name results) [
  | none ↦ flush_results pkg results names reporter
  | some r ↦ flush_results pkg results names (flush_result pkg r reporter)
]

unfoldable pub flush : Text → Reporter → Reporter
flush name reporter = elim (lookup name reporter.packages) [
  | none ↦ reporter
  | some found ↦
      let removed = record reporter { packages = delete name reporter.packages } in
      elim found.order [
        | [] ↦ removed
        | ◌∷◌ first rest ↦
            flush_results name found.results (first ∷ rest) (record removed {
              printed = removed.printed ++ heading (short_package_name name) ∷ [];
            })
      ]
]

-- A result as an event finds it, and what the event makes of it.
abbrev pub update : Event → TestResult → TestResult
update event r = elim event.action [
  | output ↦ record r { outputs = r.outputs ++ event.text ∷ [] }
  | pass ↦ record r { status = some passed; elapsed = event.elapsed }
  | fail ↦ record r { status = some failed; elapsed = event.elapsed }
  | skip ↦ record r { status = some skipped; elapsed = event.elapsed }
  | other ↦ r
]

-- `Handle` on the results of a package: a test that is new is the last of the order.
unfoldable pub record_event : Event → PackageResults → PackageResults
record_event event found = elim (lookup event.test found.results) [
  | some r ↦ record found { results = put event.test (update event r) found.results }
  | none ↦ record {
    order = found.order ++ event.test ∷ [];
    results =
        put event.test
          (update event (record { name = event.test; status = none; elapsed = 0; outputs = [] }))
          found.results;
  }
]

unfoldable pub handle_package : Event → Reporter → Reporter
handle_package event reporter = elim event.action [
  | skip ↦ record reporter { no_tests = suc reporter.no_tests }
  | pass ↦ flush event.pkg reporter
  | fail ↦ flush event.pkg reporter
  | output ↦ reporter
  | other ↦ reporter
]

abbrev pub package_of : Text → Reporter → PackageResults
package_of pkg reporter = elim (lookup pkg reporter.packages) [
  | none ↦ record { order = []; results = [] }
  | some found ↦ found
]

-- `Handle`
unfoldable pub handle : Event → Reporter → Reporter
handle event reporter =
    if same event.test [] then handle_package event reporter else record reporter {
      packages =
          put event.pkg (record_event event (package_of event.pkg reporter)) reporter.packages;
    }

-- A run's events, from an empty reporter on.
abbrev pub new_reporter : Reporter
new_reporter = record {
  passes = 0;
  fails = 0;
  skips = 0;
  no_tests = 0;
  packages = [];
  failures = [];
  failed_in = [];
  printed = [];
}

unfoldable pub handle_all : List Event → Reporter → Reporter
handle_all [] reporter = reporter
handle_all (event ∷ events) reporter = handle_all events (handle event reporter)

abbrev has_prefix : Text → Text → Bool
has_prefix s prefix = elim (cut_prefix s prefix) [ none ↦ false | some rest ↦ true ]

-- The toolchain's own framing.
abbrev pub is_framing : Text → Bool
is_framing line =
    same line [] || (has_prefix line (codes "--- FAIL") || has_prefix line (codes "=== RUN"))

unfoldable pub details : List Text → List Printed
details [] = []
details (line ∷ lines) =
    let rest = details lines in
    if is_framing (trim_space line) then rest else detail (trim_space line) ∷ rest

-- `printFailures`; a name that is missing in the map reads as "".
unfoldable pub failure_lines : List (Text × Text) → List TestResult → List Printed
failure_lines failed_in [] = []
failure_lines failed_in (r ∷ rest) =
    failure (short_package_name (elim (lookup r.name failed_in) [ none ↦ [] | some pkg ↦ pkg ]))
      (humanize_test_name r.name)
    ∷ (details r.outputs ++ failure_lines failed_in rest)

unfoldable pub flush_all : List Text → Reporter → Reporter
flush_all [] reporter = reporter
flush_all (name ∷ names) reporter = flush_all names (flush name reporter)

abbrev pub names_of : List (Text × PackageResults) → List Text
names_of packages = map (λ p. p.0) packages

-- `Summary`, without the duration: what is left is flushed, in the order of the map.
unfoldable pub summary : Reporter → Reporter × Bool
summary reporter =
    let left = flush_all (names_of reporter.packages) reporter in
    (
      record left {
        printed =
            left.printed
            ++ failure_lines left.failed_in left.failures
            ++ totals left.fails left.skips left.passes (left.passes + left.fails + left.skips)
              ∷ (if ltb 0 left.no_tests then without_tests left.no_tests ∷ [] else []);
      },
      left.fails == 0,
    )
