-- ===== src/App/Models/Tests.antt =====
-- Rows and pages at concrete inputs.
use gin_di.App.Models.Writes.{
  service_delete, Statement, update_user, update_event, delete_user, update_reports_success,
}
use gin_di.Prelude.{◌≢◌, ℕ, ◌+◌, ◌-◌, ◌*◌, [], ◌∷◌, none, ◌≡◌, refl, ok, arith}
use gin_di.App.Models.{plain, codes, some, User, Event, Cursor, page_bounds, or_default}
use gin_di.App.Models.Pages.{page_bounds-adjoin}
use gin_di.Prelude.Int.{to_int64, pos}

abbrev two_rows : Cursor ℕ
two_rows = record { scans = ok 1 ∷ ok 2 ∷ []; stopped = none }

page_bounds-adjoin_example :
    ((offset : ℕ) × (page_bounds (pos 10) (pos 3) ≡ (pos 10, pos offset))
      × (offset ≡ (3 - 1) * 10)
      × (page_bounds (pos 10) (pos (3 + 1)) ≡ (pos 10, pos (offset + 10))))
page_bounds-adjoin_example = page_bounds-adjoin 10 3 (omega arith) (omega arith) (omega arith)

-- A page number that the request admits, and whose offset wraps round to a small one.
wrapped : page_bounds (pos 100) (pos 184_467_440_737_095_518) ≡ (pos 100, pos 84)
unfolding page_bounds or_default to_int64
wrapped = refl

abbrev sam : User
sam = record { id = pos 7; username = codes "sam"; password = []; created_at = [] }

abbrev dinner : Event
dinner = record { id = pos 1; name = codes "dinner"; date = []; created_at = []; user_id = pos 7 }

abbrev breaks : {A : Type 0} → A → Statement ℕ
breaks a db = (db, some (plain (codes "duplicate key")))

update_reports_success_example :
    (update_user breaks sam 0 ≡ (0, none)) × (update_event breaks dinner 0 ≡ (0, none))
update_reports_success_example = update_reports_success breaks breaks sam dinner 0 refl refl

delete_reports : (delete_user breaks sam 0).1 ≢ none
unfolding delete_user service_delete
delete_reports h = not_none h
  where
    not_none : {A B : Type 0} {a : A} → some a ≡ none → B
    not_none h = cc
