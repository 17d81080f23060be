-- ===== src/Throttle/Config.antt =====
-- configs/throttle.go: the checks of the configured limits.
use gin_di.Prelude.{
  ℕ, zero, suc, ◌+◌, ◌-◌, ◌*◌, ◌/◌, ◌%◌, ◌^◌, ◌≤◌, ◌<◌, Text, codes, same, same_refl, same_iff,
  ne_of_same, List, [], ◌∷◌, ◌++◌, map, append-nil, append_assoc, Option, none, some, Option-cases,
  Bool, true, false, not, ◌&&◌, ◌||◌, Bool-cases, ltb, leb, ◌==◌, if◌then◌else◌, ◌≡◌, ◌≢◌, ◌↔◌,
  refl, sym, ap, subst, ◌∙◌, ◌⊎◌, inl, inr, length, All, lookup, has, put, delete, lookup-put,
  Result, ok, err, Result-cases, ok_inj, err_not_ok, arith,
}
use gin_di.Http.Errors.{GoError, plain}
use gin_di.Throttle.Limit.{Limit}
use gin_di.Prelude.Int.{ℤ, pos, negsuc, is_non_positive, is_negative}
pub mod Usable
mod Tests

abbrev pub memory_store_driver : Text
memory_store_driver = codes "memory"

pub record ThrottleConfig : Type 0 where
  pub store : Text
  -- `Global`
  pub overall : Limit
  pub login : Limit
  pub max_keys : ℤ

abbrev pub global_enabled : ThrottleConfig → Bool
global_enabled config = not (is_non_positive config.overall.requests)

-- The first problem, or none.
unfoldable pub validate : ThrottleConfig → Option GoError
validate config =
    if not (same config.store memory_store_driver)
    then some (plain (codes "THROTTLE_STORE is not implemented"))
    else (if is_negative config.overall.requests
        then some (plain (codes "THROTTLE_LIMIT must not be negative"))
        else (if is_non_positive config.overall.per
            then some (plain (codes "THROTTLE_WINDOW must be a positive number of seconds"))
            else (if is_non_positive config.login.requests
                then some (plain (codes "THROTTLE_LOGIN_LIMIT must be positive"))
                else (if is_non_positive config.max_keys
                    then some (plain (codes "THROTTLE_MAX_KEYS must be positive"))
                    else none))))
