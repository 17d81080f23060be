-- ===== src/Console/EnvFile.antt =====
-- app/console/jwt/secret.go: writing the signing secret into .env.
use gin_di.Prelude.{
  ℕ, zero, suc, ◌+◌, ◌-◌, ◌*◌, ◌/◌, ◌%◌, ◌≤◌, ◌<◌, Text, codes, same, same_refl, same_iff,
  ne_of_same, List, [], ◌∷◌, ◌++◌, map, append-nil, append_assoc, Option, none, some, Option-cases,
  Bool, true, false, not, ◌&&◌, ◌||◌, Bool-cases, ltb, leb, ◌==◌, if◌then◌else◌, ◌≡◌, ◌≢◌, ◌↔◌,
  refl, sym, ap, subst, ◌∙◌, ◌⊎◌, inl, inr, length, All, lookup, has, put, delete, lookup-put,
  Result, ok, err, Result-cases, arith,
}
use gin_di.Http.Errors.{GoError, plain, wrap, nil}
use gin_di.Prelude.Trim.{trim_space}
pub mod Lines
pub mod Secret
pub mod Replace
mod Tests

abbrev pub newline : ℕ
newline = 10

-- strings.Split(s, "\n") as the first line and the others, and strings.Join(lines, "\n").
unfoldable pub split : Text → Text × List Text
split [] = ([], [])
split (c ∷ s) =
    let (line, lines) = split s in if c == newline then ([], line ∷ lines) else (c ∷ line, lines)

unfoldable pub join : Text → List Text → Text
join line [] = line
join line (next ∷ lines) = line ++ newline ∷ join next lines

-- The prefix behind strings.TrimPrefix and strings.HasPrefix.
unfoldable pub strip_prefix : Text → Text → Option Text
strip_prefix s [] = some s
strip_prefix [] (p ∷ ps) = none
strip_prefix (c ∷ s) (p ∷ ps) = let rest = strip_prefix s ps in if c == p then rest else none

abbrev pub key_prefix : Text
key_prefix = codes "JWT_SECRET="

-- The value that a line gives the key, if it is one of its lines.
unfoldable pub assigned : Text → Option Text
assigned line = elim (strip_prefix (trim_space line) key_prefix) [
  | none ↦ none
  | some value ↦ some (trim_space value)
]

abbrev on_ok : {A B : Type 0} → (A → B) → Result GoError A → Result GoError B
on_ok f (ok a) = ok (f a)
on_ok f (err e) = err e

abbrev already_set : GoError
already_set = plain (codes "JWT_SECRET already has a value; pass --force to replace it")

-- The loop over the lines and what follows it: the first line of the key is replaced, and without
-- one the assignment goes to the end.
unfoldable pub set_lines : Text → Bool → List Text → Result GoError (List Text)
set_lines secret force [] = ok ((key_prefix ++ secret) ∷ [])
set_lines secret force (line ∷ lines) =
    let rest = set_lines secret force lines in
    elim (assigned line) [
      | none ↦ on_ok (λ ls. line ∷ ls) rest
      | some existing ↦
          if not (same existing []) && not force
          then err already_set
          else ok ((key_prefix ++ secret) ∷ lines)
    ]

abbrev join_lines : List Text → Text
join_lines [] = []
join_lines (line ∷ lines) = join line lines

-- The new contents of the file.
unfoldable pub set_secret : Text → Bool → Text → Result GoError Text
set_secret secret force contents =
    let (line, lines) = split contents in on_ok join_lines (set_lines secret force (line ∷ lines))

-- The operations of replace_file that can fail, as package os gives them to it.
pub data Step : Type 0 where
  create_temp : Step
  write_string : Step
  close : Step
  chmod : Step
  rename : Step
  remove : Step

-- The files with their contents.
abbrev pub Files : Type 0
Files = List (Text × Text)

-- `fails` says which operations fail, `tmp` is the name that CreateTemp chooses and `torn` what a
-- failed write has left in the file.
module _ (fails : Step → Option GoError) (tmp torn : Text) where
  -- The deferred removal, whose error is discarded.
  unfoldable pub clean_up : Files → Files
  clean_up files = elim (fails remove) [ none ↦ delete tmp files | some e ↦ files ]

  abbrev stop : {A : Type 0} → Text → GoError → Files → Files × Result GoError A
  stop context e files = (clean_up files, err (wrap context e))

  unfoldable pub replace_file : Text → Text → Files → Files × Result GoError (Unit {0})
  replace_file path contents files = elim (fails create_temp) [
    | some e ↦ (files, err (wrap (codes "creating temp file: ") e))
    | none ↦ elim (fails write_string) [
      | some e ↦ stop (codes "writing temp file: ") e (put tmp torn files)
      | none ↦ elim (fails close) [
        | some e ↦ stop (codes "closing temp file: ") e (put tmp contents files)
        | none ↦ elim (fails chmod) [
          | some e ↦ stop (codes "setting mode on temp file: ") e (put tmp contents files)
          | none ↦ elim (fails rename) [
            | some e ↦ stop (codes "replacing: ") e (put tmp contents files)
            | none ↦ (clean_up (delete tmp (put path contents files)), ok tt)
          ]
        ]
      ]
    ]
  ]

  -- `writeJwtSecret`; `unreadable` is the error of Stat or ReadFile on a file that is there.
  unfoldable pub write_jwt_secret :
      Option GoError → Text → Text → Bool → Files → Files × Result GoError (Unit {0})
  write_jwt_secret unreadable path secret force files = elim (lookup path files) [
    | none ↦ (files, err (plain (codes "not found: copy .env.example first")))
    | some contents ↦ elim unreadable [
      | some e ↦ (files, err (wrap (codes "reading: ") e))
      | none ↦ elim (set_secret secret force contents) [
        | err e ↦ (files, err e)
        | ok replaced ↦ replace_file path replaced files
      ]
    ]
  ]
