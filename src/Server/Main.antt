-- ===== src/Server/Main.antt =====
-- main.go, routes/console and app/providers/console_service_provider.go: the process and its exit code.
use gin_di.Prelude.{
  ℕ, zero, suc, ◌+◌, ◌-◌, ◌*◌, ◌/◌, ◌%◌, ◌^◌, ◌≤◌, ◌<◌, Text, codes, same, same_refl, same_iff,
  ne_of_same, List, [], ◌∷◌, ◌++◌, map, append-nil, append_assoc, Option, none, some, Option-cases,
  Bool, true, false, not, ◌&&◌, ◌||◌, Bool-cases, ltb, leb, ◌==◌, if◌then◌else◌, ◌≡◌, ◌≢◌, ◌↔◌,
  refl, sym, ap, subst, ◌∙◌, ◌⊎◌, inl, inr, length, All, lookup, has, put, delete, lookup-put,
  Result, ok, err, Result-cases, ok_inj, err_not_ok, arith,
}
use gin_di.Http.Errors.{GoError}
mod Tests

-- `interfaces.Command`, as far as it is run.
abbrev pub Command : Type 0
Command = List Text → Option GoError

-- The commands, in the order of `Register`.
pub record Commands : Type 0 where
  pub example : Command
  pub test : Command
  pub migrate : Command
  pub migrate_fresh : Command
  pub migrate_refresh : Command
  pub seed : Command
  pub jwt_secret : Command

unfoldable pub register : Commands → List (Text × Command)
register commands =
    (codes "example", commands.example)
    ∷ (codes "test", commands.test)
    ∷ (codes "migrate", commands.migrate)
    ∷ (codes "migrate:fresh", commands.migrate_fresh)
    ∷ (codes "migrate:refresh", commands.migrate_refresh)
    ∷ (codes "db:seed", commands.seed)
    ∷ (codes "jwt:secret", commands.jwt_secret)
    ∷ []

abbrev code_of : Option GoError → ℕ
code_of none = 0
code_of (some e) = 1

-- `ConsoleServiceProvider.Boot` and the exit behind it: log.Fatalf exits with 1.
unfoldable pub run_console : Commands → Text → List Text → ℕ
run_console commands name args = elim (lookup name (register commands)) [
  | none ↦ 1
  | some command ↦ code_of (command args)
]

-- `main`, with the program's name before the arguments; `http` is the error of the server's Boot.
unfoldable pub main : Option GoError → Commands → List Text → ℕ
main http commands [] = 1
main http commands (program ∷ []) = 1
main http commands (program ∷ name ∷ args) =
    if same name (codes "http") then code_of http else run_console commands name args
