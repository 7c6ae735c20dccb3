-- ===== src/Tests/Consumer.antt =====
-- Runs of the job consumer: two entries of the stream, of which the second cannot be parsed.
use tacktcix.Prelude.{ℕ, ◌≡◌, refl, String, Option, none, List, [], ◌∷◌, ◌++◌, string_eq}
use tacktcix.Prelude.Json.{Json}
use tacktcix.Prelude.Outcome.{ok}
use tacktcix.Consumer.{Entry, Effect, Peers, Run, handle_all}
use tacktcix.Consumer.Delivery.{Delivered, handle_all-Delivered}

abbrev peers : Peers
peers = record {
  World = ℕ;
  xautoclaim = λ min_idle_time count w. (ok [], w);
  xpending_range = λ w. (ok [], w);
  xreadgroup = λ count w. (ok [], w);
  xack = λ entry_id w. (ok tt, w);
  handler = λ job w. (ok tt, w);
}

abbrev loads : String → Option Json
loads s = none

abbrev entries : List Entry
entries =
    record { id = "1-0"; fields = ("type", "build") ∷ [] }
    ∷ record { id = "2-0"; fields = ("timeout_s", "soon") ∷ [] }
    ∷ []

abbrev before : Run peers
before = record { world = 0; log = []; result = ok tt }

handle_all-Delivered_example :
    (added : List Effect) × ((handle_all loads peers "jobs" entries before).log ≡ [] ++ added)
    × Delivered entries added (handle_all loads peers "jobs" entries before).result
handle_all-Delivered_example = handle_all-Delivered loads peers "jobs" entries before refl
