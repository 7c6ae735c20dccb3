-- ===== src/Routing/Assign/Domains.antt =====
-- Which domains of a task AgentRouteRequest (backend/app/models/agent.py) accepts.
use tacktcix.Prelude.{◌≡◌, refl, ◌⊎◌, inl, inr, String, Option, none, some, List, [], ◌∷◌}
use tacktcix.Prelude.Json.{Json, Items, nil, cons, null, bool, number, text, array, object}
use tacktcix.Prelude.Outcome.{ok, raise, value_error, ◌>>=◌}
use tacktcix.Prelude.Float.{Float}
use tacktcix.Prelude.Text.{or_default}
use tacktcix.Agents.{AgentRouteRequest}
use tacktcix.Routing.Assign.{Task, texts_of, domains_of}

-- The task's domains are absent, or an array of texts.
abbrev AreTexts : Items → Type 0
AreTexts nil = Unit
AreTexts (cons (text s) rest) = AreTexts rest
AreTexts (cons x rest) = ⊥

abbrev pub Valid : Option Json → Type 0
Valid none = Unit
Valid (some (array items)) = AreTexts items
Valid (some v) = ⊥

abbrev pub HasDomains : Task → Type 0
HasDomains t = Valid t.required_domains

texts_of-AreTexts :
    (items : Items)
    → ((xs : List String) × (texts_of items ≡ ok xs) × AreTexts items)
      ⊎ ((texts_of items ≡ raise value_error) × (¬ AreTexts items))
unfolding texts_of
texts_of-AreTexts nil = inl ([], refl, tt)
texts_of-AreTexts (cons (text s) rest) = elim (texts_of-AreTexts rest) [
  | inl (xs, e, h) ↦ inl (s ∷ xs, rw (e, ◌>>=◌) refl, h)
  | inr (e, h) ↦ inr (rw (e, ◌>>=◌) refl, h)
]
texts_of-AreTexts (cons null rest) = inr (refl, λ h. h)
texts_of-AreTexts (cons (bool b) rest) = inr (refl, λ h. h)
texts_of-AreTexts (cons (number n) rest) = inr (refl, λ h. h)
texts_of-AreTexts (cons (array items) rest) = inr (refl, λ h. h)
texts_of-AreTexts (cons (object members) rest) = inr (refl, λ h. h)

pub domains_of-HasDomains :
    (o : Option Json)
    → ((xs : List String) × (domains_of o ≡ ok xs) × Valid o)
      ⊎ ((domains_of o ≡ raise value_error) × (¬ Valid o))
unfolding domains_of
domains_of-HasDomains none = inl ([], refl, tt)
domains_of-HasDomains (some (array items)) = texts_of-AreTexts items
domains_of-HasDomains (some null) = inr (refl, λ h. h)
domains_of-HasDomains (some (text s)) = inr (refl, λ h. h)
domains_of-HasDomains (some (bool b)) = inr (refl, λ h. h)
domains_of-HasDomains (some (number n)) = inr (refl, λ h. h)
domains_of-HasDomains (some (object members)) = inr (refl, λ h. h)

-- The request for a task, with its domains.
abbrev pub request_with : {f : Float} → Task → List String → AgentRouteRequest f
request_with {f = f} t xs = record {
  task_title = t.title;
  task_description = some (or_default t.description "");
  required_domains = xs;
  estimated_complexity = f.lit 1 0;
  priority = or_default t.priority "medium";
}
