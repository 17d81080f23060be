-- ===== src/App/Resources.antt =====
-- app/http/resources: what the clients see of the models.
use gin_di.Prelude.{ℕ, Text, List, length}
use gin_di.Prelude.Int.{ℤ}
use gin_di.App.Models.{User, Event}

pub record UserResource : Type 0 where
  pub id : ℤ
  pub username : Text
  pub created_at : Text

pub record SessionResource : Type 0 where
  pub token : Text
  pub user : UserResource

pub record EventResource : Type 0 where
  pub id : ℤ
  pub name : Text
  pub date : Text
  pub created_at : Text
  pub user_id : ℤ

pub record Meta : Type 0 where
  pub page : ℤ
  pub per_page : ℤ
  pub count : ℕ

-- The payloads of the envelope.
pub data Payload : Type 0 where
  session : SessionResource → Payload
  page_of : List EventResource → Meta → Payload
  single : EventResource → Payload

abbrev pub new_user_resource : User → UserResource
new_user_resource user = record {
  id = user.id;
  username = user.username;
  created_at = user.created_at;
}

abbrev pub new_session_resource : Text → User → SessionResource
new_session_resource token user = record { token = token; user = new_user_resource user }

abbrev pub new_event_resource : Event → EventResource
new_event_resource event = record {
  id = event.id;
  name = event.name;
  date = event.date;
  created_at = event.created_at;
  user_id = event.user_id;
}

abbrev pub new_event_page : List EventResource → ℤ → ℤ → Payload
new_event_page events page per_page =
    page_of events (record { page = page; per_page = per_page; count = length events })
