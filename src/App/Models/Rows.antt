-- ===== src/App/Models/Rows.antt =====
-- A page is complete or an error.
use gin_di.Prelude.{
  Text, List, [], ◌∷◌, map, none, Option-cases, ◌≡◌, ap, ◌∙◌, inl, inr, Result, ok, err,
  Result-cases, ok_inj, err_not_ok,
}
use gin_di.App.Models.{Cursor, scan_rows, scan_all}
use gin_di.Http.Errors.{GoError}

scan_rows-eq-ok :
    {A : Type 0} (scanning : Text) (scans : List (Result GoError A)) (found : List A)
    → scan_rows scanning scans ≡ ok found
    → scans ≡ map ok found
unfolding scan_rows
scan_rows-eq-ok scanning [] found h = ap (λ fs. map ok fs) (ok_inj h)
scan_rows-eq-ok scanning (err e ∷ rest) found h = cc
scan_rows-eq-ok scanning (ok a ∷ rest) found h = elim (Result-cases (scan_rows scanning rest)) [
  | inl (fs, q) ↦
      ap (λ xs. ok a ∷ xs) (scan_rows-eq-ok scanning rest fs q)
      ∙ ap (λ xs. map ok xs) (ok_inj (rw (scan_rows, q) at h))
  | inr (e, q) ↦ err_not_ok (rw (scan_rows, q) at h)
]

-- Rows that are returned are all the rows of the result, each scanned without error, and the
-- iteration was not stopped by one.
pub scan_all-eq-ok :
    {A : Type 0} (scanning iterating : Text) (cursor : Cursor A) (found : List A)
    → scan_all scanning iterating cursor ≡ ok found
    → (cursor.scans ≡ map ok found) × (cursor.stopped ≡ none)
unfolding scan_all
scan_all-eq-ok scanning iterating cursor found h =
    elim (Result-cases (scan_rows scanning cursor.scans)) [
      | inl (fs, q) ↦ elim (Option-cases cursor.stopped) [
        | inl s ↦ (
          scan_rows-eq-ok scanning cursor.scans fs q
              ∙ ap (λ xs. map ok xs) (ok_inj (rw (scan_all, q, s) at h)),
          s,
        )
        | inr (e, s) ↦ err_not_ok (rw (scan_all, q, s) at h)
      ]
      | inr (e, q) ↦ err_not_ok (rw (scan_all, q) at h)
    ]
