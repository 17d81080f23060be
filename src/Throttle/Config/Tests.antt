-- ===== src/Throttle/Config/Tests.antt =====
-- The default values.
use gin_di.Prelude.{arith, codes, same, false, ◌≡◌, refl, ◌⊎◌}
use gin_di.Throttle.Config.{ThrottleConfig, validate, global_enabled}
use gin_di.Throttle.Config.Usable.{validate-IsUsable}
use gin_di.Throttle.Memory.{new_memory_store}
use gin_di.Throttle.Memory.Bounds.{IsBounded}
use gin_di.Throttle.Limit.{IsUsable}
use gin_di.Prelude.Int.{pos}

abbrev settings : ThrottleConfig
settings = record {
  store = codes "memory";
  overall = record { name = codes "global"; requests = pos 60; per = pos 60_000_000_000 };
  login = record { name = codes "login"; requests = pos 5; per = pos 60_000_000_000 };
  max_keys = pos 10_000;
}

validate-IsUsable_example :
    ((global_enabled settings ≡ false) ⊎ IsUsable settings.overall)
    × IsUsable settings.login
    × (pos (new_memory_store (pos 10_000)).max_keys ≡ pos 10_000)
    × IsBounded (new_memory_store (pos 10_000))
unfolding validate same
validate-IsUsable_example = validate-IsUsable settings (omega arith) (omega arith) refl refl
