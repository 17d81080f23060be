-- ===== src/App/Hash/Tests.antt =====
-- A hash made and checked, with the identity for Base64.
use gin_di.Prelude.{Text, codes, ◌++◌, true, ◌≡◌, ◌↔◌, refl, Result, ok}
use gin_di.App.Hash.{make, check}
use gin_di.App.Hash.Roundtrip.{check-make}
use gin_di.Http.Errors.{GoError}

abbrev encode : Text → Text
encode s = s

abbrev decode : Text → Result GoError Text
decode s = ok s

abbrev derive : Text → Text → Text
derive password salt = password ++ salt

abbrev salt : Text
salt = codes "0123456789abcdef"

check-make_example :
    (check encode decode derive (salt ++ codes "pw" ++ salt) (codes "pw") ≡ ok true)
    × ((check encode decode derive (salt ++ codes "pw" ++ salt) (codes "px") ≡ ok true)
        ↔ (derive (codes "px") salt ≡ derive (codes "pw") salt))
unfolding make
check-make_example =
    check-make encode decode derive (λ s. refl) salt (codes "pw") (codes "px")
      (salt ++ codes "pw" ++ salt) refl refl
