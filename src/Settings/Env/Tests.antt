-- ===== src/Settings/Env/Tests.antt =====
-- Values that the environment can give.
use gin_di.Prelude.Trim.{trim_space, trim_right, trim_left}
use gin_di.Prelude.{same, lookup, codes, [], ◌∷◌, true, false, ◌≡◌, refl}
use gin_di.Prelude.Int.{pos, negsuc}
use gin_di.Settings.Env.{
  split_list, keep_filled, atoi, digits, magnitude, parse_bool, Environment, env_slice, env_int,
  env_bool, env_text,
}
use gin_di.Settings.Env.Lists.{env_slice-join_list}

abbrev variables : Environment
variables =
    (codes "LIST", codes "a,b c")
    ∷ (codes "DEBUG", codes "True")
    ∷ (codes "N", codes "-12")
    ∷ (codes "BAD", codes "12x")
    ∷ (codes "BIG", codes "9223372036854775808")
    ∷ []

env_slice-join_list_example : env_slice variables (codes "LIST") [] ≡ codes "a" ∷ codes "b c" ∷ []
unfolding lookup same trim_space trim_right trim_left
env_slice-join_list_example =
    env_slice-join_list variables (codes "LIST") [] (codes "a") (codes "b c" ∷ []) refl
      (refl, refl, refl) ((refl, refl, refl), tt)

blanks :
    env_slice ((codes "LIST", codes " a , ,b,") ∷ []) (codes "LIST") [] ≡ codes "a" ∷ codes "b" ∷ []
unfolding env_slice lookup same keep_filled trim_space trim_right trim_left split_list
blanks = refl

negative : env_int variables (codes "N") (pos 3) ≡ negsuc 11
unfolding env_int lookup same atoi magnitude digits
negative = refl

not_a_number : env_int variables (codes "BAD") (pos 3) ≡ pos 3
unfolding env_int lookup same atoi magnitude digits
not_a_number = refl

too_big : env_int variables (codes "BIG") (pos 3) ≡ pos 3
unfolding env_int lookup same atoi magnitude digits
too_big = refl

debugging : env_bool variables (codes "DEBUG") false ≡ true
unfolding env_bool lookup same parse_bool
debugging = refl

missing : env_text variables (codes "NONE") (codes "x") ≡ codes "x"
unfolding env_text lookup same
missing = refl
