-- ===== src/Audit/Redaction.antt =====
-- What redaction (src/audit/audit_logger.py) guarantees of the details that are written.
use tacktcix.Prelude.{String, List, [], ◌∷◌, ◌++◌, All}
use tacktcix.Prelude.Dict.{Dict}
use tacktcix.Prelude.Json.{Json, null, bool, number, text, array, object}
use tacktcix.Audit.{Calls, redact, redact_detail, redact_details}

-- A detail that is a text satisfies the predicate; the other details are not looked into.
abbrev pub TextIs : (String → Type 0) → String × Json → Type 0
TextIs P e = elim e.1 [
  | text s ↦ P s
  | null ↦ Unit
  | bool b ↦ Unit
  | number n ↦ Unit
  | array items ↦ Unit
  | object ms ↦ Unit
]

module _ (c : Calls) (P : String → Type 0) where
  redact-keeps :
      (rules : List (String × String)) (s : String)
      → All (λ rule. (t : String) → P t → P (c.sub rule t)) rules
      → P s
      → P (redact c rules s)
  unfolding redact
  redact-keeps [] s keep h = h
  redact-keeps (rule ∷ rules) s keep h = redact-keeps rules (c.sub rule s) keep.1 (keep.0 s h)

  redact-makes :
      (before : List (String × String)) (rule : String × String) (after : List (String × String))
      (s : String)
      → ((t : String) → P (c.sub rule t))
      → All (λ r. (t : String) → P t → P (c.sub r t)) after
      → P (redact c (before ++ rule ∷ after) s)
  unfolding redact
  redact-makes [] rule after s make keep = redact-keeps after (c.sub rule s) keep (make s)
  redact-makes (r ∷ before) rule after s make keep =
      redact-makes before rule after (c.sub r s) make keep

  redact_detail-TextIs :
      (rules : List (String × String)) (key : String) (v : Json)
      → ((s : String) → P (redact c rules s))
      → TextIs P (key, redact_detail c rules v)
  unfolding redact_detail
  redact_detail-TextIs rules key (text s) h = h s
  redact_detail-TextIs rules key null h = tt
  redact_detail-TextIs rules key (bool b) h = tt
  redact_detail-TextIs rules key (number n) h = tt
  redact_detail-TextIs rules key (array items) h = tt
  redact_detail-TextIs rules key (object ms) h = tt

  redact_details-All :
      (rules : List (String × String)) (d : Dict String Json)
      → ((s : String) → P (redact c rules s))
      → All (TextIs P) (redact_details c rules d)
  unfolding redact_details
  redact_details-All rules [] h = tt
  redact_details-All rules ((k, v) ∷ d) h =
      (redact_detail-TextIs rules k v h, redact_details-All rules d h)

  -- Let a rule of the list make every text satisfy a predicate (such as holding no key of its pattern),
  -- and let the rules after it keep the predicate. Then every detail that is a text satisfies it after
  -- the redaction, whatever the rules before it did.
  redact_details_safe :
      (before : List (String × String)) (rule : String × String) (after : List (String × String))
      (d : Dict String Json)
      → ((t : String) → P (c.sub rule t))
      → All (λ r. (t : String) → P t → P (c.sub r t)) after
      → All (TextIs P) (redact_details c (before ++ rule ∷ after) d)
  redact_details_safe before rule after d make keep =
      redact_details-All (before ++ rule ∷ after) d
        (λ s. redact-makes before rule after s make keep)
