-- ===== src/Console/Confirm.antt =====
-- app/console/confirm.go: asking before a destructive change. What the terminal gives is an argument.
use gin_di.Prelude.{
  Text, codes, Option, none, some, Option-cases, Bool, true, ◌≡◌, inl, inr, Result, ok, err, ok_inj,
  err_not_ok,
}
use gin_di.Http.Cors.{equal_fold}
use gin_di.Prelude.Trim.{trim_space}

-- What ends a read before its newline: the end of the input, or an error.
pub data Interruption (E : Type 0) : Type 0 where
  eof : Interruption E
  broken : E → Interruption E

-- The answer up to a newline, and what interrupted it.
pub record Answer (E : Type 0) : Type 0 where
  pub text : Text
  pub interruption : Option (Interruption E)

abbrev pub confirmation_word : Text
confirmation_word = codes "yes"

abbrev pub is_confirmation : Text → Bool
is_confirmation answer = equal_fold (trim_space answer) confirmation_word

abbrev answered : {E : Type 0} → (Text → E → E) → Answer E → Result E Bool
answered context answer = elim answer.interruption [
  | none ↦ ok (is_confirmation answer.text)
  | some interruption ↦ elim interruption [
    | eof ↦ ok (is_confirmation answer.text)
    | broken e ↦ err (context (codes "reading confirmation: ") e)
  ]
]

-- `Confirm`, where `context` is fmt.Errorf("…: %w", err) and `writing` the error of the prompt.
unfoldable pub confirm : {E : Type 0} → (Text → E → E) → Option E → Answer E → Result E Bool
confirm context writing answer = elim writing [
  | some e ↦ err (context (codes "writing prompt: ") e)
  | none ↦ answered context answer
]

pub confirm_yes :
    {E : Type 0} (context : Text → E → E) (writing : Option E) (answer : Answer E)
    → confirm context writing answer ≡ ok true
    → is_confirmation answer.text ≡ true
unfolding confirm
confirm_yes {E = E} context writing answer h = elim (Option-cases writing) [
  | inr (e, a) ↦ err_not_ok (rw (confirm, a) at h)
  | inl a ↦ elim (Option-cases answer.interruption) [
    | inl b ↦ ok_inj (rw (confirm, a, answered, b) at h)
    | inr (interruption, b) ↦ by_cause interruption (rw (confirm, a, answered, b) at h)
  ]
]
  where
    by_cause :
        (interruption : Interruption E)
        → ◌≡◌ {A = Result E Bool}
            (elim interruption [
              | eof ↦ ok (is_confirmation answer.text)
              | broken e ↦ err (context (codes "reading confirmation: ") e)
            ])
            (ok true)
        → is_confirmation answer.text ≡ true
    by_cause eof q = ok_inj q
    by_cause (broken e) q = err_not_ok q
