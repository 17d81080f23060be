-- ===== src/Server/Main/Tests.antt =====
-- Exit codes.
use gin_di.Prelude.{codes, same, [], ◌∷◌, none, some, ◌≡◌, refl, lookup}
use gin_di.Http.Errors.{plain}
use gin_di.Server.Main.{Commands, Command, main, run_console, register}

abbrev fine : Command
fine args = none

abbrev broken : Command
broken args = some (plain (codes "broken"))

abbrev commands : Commands
commands = record {
  example = fine;
  test = broken;
  migrate = fine;
  migrate_fresh = fine;
  migrate_refresh = fine;
  seed = fine;
  jwt_secret = fine;
}

served : main none commands (codes "app" ∷ codes "http" ∷ []) ≡ 0
unfolding main same
served = refl

failed : main none commands (codes "app" ∷ codes "test" ∷ []) ≡ 1
unfolding main same run_console lookup register
failed = refl

unknown : main none commands (codes "app" ∷ codes "serve" ∷ []) ≡ 1
unfolding main same run_console lookup register
unknown = refl

usage : main none commands (codes "app" ∷ []) ≡ 1
unfolding main
usage = refl
