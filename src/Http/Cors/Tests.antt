-- ===== src/Http/Cors/Tests.antt =====
-- The origins of a small setting, with a parser of plain origins.
use gin_di.Prelude.{Text, codes, List, [], ◌∷◌, none, false, if◌then◌else◌, Result, ok, err}
use gin_di.Prelude.{◌==◌, ◌||◌, Bool, true, Option, some}
use gin_di.Http.Cors.{Url}
use gin_di.Http.Errors.{GoError, plain}

-- What a parser gives for an address without a path.
abbrev site : Text → Url
site host = record {
  scheme = codes "http";
  host = host;
  path = [];
  raw_query = [];
  fragment = [];
  has_user = false;
}

-- A parser of http addresses without a path, a query, a fragment or a user.
abbrev plain_host : Text → Bool
plain_host [] = true
plain_host (c ∷ s) =
    let rest = plain_host s in
    if c == b'/' || (c == b'?' || (c == b'#' || c == b'@')) then false else rest

abbrev host_of : Text → Text → Option Text
host_of [] s = if plain_host s then some s else none
host_of (c ∷ p) [] = none
host_of (c ∷ p) (d ∷ s) = let rest = host_of p s in if c == d then rest else none

abbrev parse : Text → Result GoError Url
parse s = elim (host_of (codes "http://") s) [
  | none ↦ err (plain (codes "unknown"))
  | some host ↦ ok (site host)
]

abbrev configured : List Text
configured = codes "http://c" ∷ []
