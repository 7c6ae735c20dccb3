-- ===== src/Events/Response.antt =====
-- ActivityEventResponse of backend/app/models/onboarding.py, as FastAPI and the endpoints make it of a
-- row of ActivityEvent (backend/app/models/company.py).
use tacktcix.Prelude.{ℕ, ◌≡◌, refl, String, Option, none, some, List, [], ◌∷◌}
use tacktcix.Prelude.Dict.{Dict}
use tacktcix.Prelude.Json.{Json}
use tacktcix.Prelude.Outcome.{Outcome, ok, raise, value_error, ◌>>=◌}
use tacktcix.Events.Service.{ActivityEvent}

pub record ActivityEventResponse : Type 0 where
  pub id : ℕ
  pub company_id : ℕ
  pub event_type : String
  pub source : String
  pub source_id : Option String
  pub title : String
  pub description : Option String
  pub metadata : Option (Dict String Json)
  pub created_at : ℕ

-- What an attribute of a row may be: a JSON object, None, or the `MetaData` of the declarative base.
data Attribute : Type 0 where
  object : Dict String Json → Attribute
  null : Attribute
  meta_data : Attribute

-- `event.metadata`. The column `metadata` is mapped to the attribute `meta`, so that this one is the
-- class's own: the tables of the declarative base.
metadata_of : ActivityEvent → Attribute
metadata_of e = meta_data

-- The validation of `dict | None`.
dict_or_none : Attribute → Outcome (Option (Dict String Json))
dict_or_none (object d) = ok (some d)
dict_or_none null = ok none
dict_or_none meta_data = raise value_error

-- `ActivityEventResponse.model_validate(event)`, from the attributes; its ValidationError is a
-- ValueError.
pub model_validate : ActivityEvent → Outcome ActivityEventResponse
unfolding metadata_of dict_or_none
model_validate e = dict_or_none (metadata_of e) >>= λ metadata. ok (record {
  id = e.id;
  company_id = e.company_id;
  event_type = e.event_type;
  source = e.source;
  source_id = e.source_id;
  title = e.title;
  description = e.description;
  metadata = metadata;
  created_at = e.created_at;
})

-- No row can be validated.
pub model_validate_raises : (e : ActivityEvent) → model_validate e ≡ raise value_error
unfolding model_validate
model_validate_raises e = refl

-- `response_model=list[ActivityEventResponse]`
pub validate_each : List ActivityEvent → Outcome (List ActivityEventResponse)
unfolding model_validate
validate_each [] = ok []
validate_each (e ∷ es) = model_validate e >>= λ x. validate_each es >>= λ xs. ok (x ∷ xs)
