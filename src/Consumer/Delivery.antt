-- ===== src/Consumer/Delivery.antt =====
-- At least once: an entry of the stream (src/consumer.py) is acknowledged only after its handler
-- has come back, and a failure leaves it and what follows to be delivered again.
use tacktcix.Prelude.{
  ℕ, ◌≡◌, refl, sym, ap, ◌∙◌, String, string_eq, false, Option, List, [], ◌∷◌, ◌++◌, arith, inl,
  inr,
}
use tacktcix.Prelude.Int.{pos, ◌+ℤ◌, ◌-ℤ◌, ◌≤ℤ◌, leb_ℤ}
use tacktcix.Prelude.Dict.{lookup}
use tacktcix.Prelude.Json.{Json}
use tacktcix.Prelude.Outcome.{Outcome, ok, raise, Error, Outcome-cases}
use tacktcix.Consumer.{
  Entry, Effect, handled, acked, Peers, Settings, Run, Job, parse_message, parse_timeout,
  acknowledge, handle_job, handle_entry, handle_all, batch_size,
}
use mathlib.Core.List.{append_assoc, append-nil}

-- What the entries leave behind: each one handled and acknowledged, up to the first that fails, whose
-- handler may have run.
pub data Delivered : List Entry → List Effect → Outcome {0} Unit → Type 0 where
  all : Delivered [] [] (ok tt)
  failed : {e : Entry} {rest : List Entry} {x : Error} → Delivered (e ∷ rest) [] (raise x)
  unacked :
      {e : Entry} {rest : List Entry} {x : Error}
      → Delivered (e ∷ rest) (handled e.id ∷ []) (raise x)
  next :
      {e : Entry} {rest : List Entry} {log : List Effect} {o : Outcome {0} Unit}
      → Delivered rest log o
      → Delivered (e ∷ rest) (handled e.id ∷ acked e.id ∷ log) o

-- The free places, at most 4 at a time: at least one is asked for, and the active jobs and the new
-- ones together are not more than the maximum, whenever the active jobs are fewer than the maximum.
batch_size_bounds :
    (c : Settings) (active : ℕ)
    → leb_ℤ c.max_concurrent (pos active) ≡ false
    → pos 1 ≤ℤ batch_size c active
      × batch_size c active ≤ℤ pos 4
      × pos active +ℤ batch_size c active ≤ℤ c.max_concurrent
unfolding batch_size ◌+ℤ◌ ◌-ℤ◌
batch_size_bounds c active h = ground arith

module _ (loads : String → Option Json) (p : Peers) where
  -- One entry: either both effects and no exception, or an exception and at most the first effect.
  data Handled (e : Entry) (before : List Effect) (r : Run p) : Type 0 where
    both : r.log ≡ before ++ handled e.id ∷ acked e.id ∷ [] → r.result ≡ ok tt → Handled e before r
    first :
        {x : Error} → r.log ≡ before ++ handled e.id ∷ [] → r.result ≡ raise x → Handled e before r
    neither : {x : Error} → r.log ≡ before → r.result ≡ raise x → Handled e before r

  parse_message_id :
      (stream_key : String) (e : Entry) (job : Job)
      → parse_message loads stream_key e ≡ ok job
      → job.id ≡ e.id
  unfolding parse_message
  parse_message_id stream_key e job h =
      elim (Outcome-cases (parse_timeout (lookup "timeout_s" e.fields))) [
        | inl (timeout, k) ↦ ground (arith, k, h)
        | inr (x, k) ↦ cc
      ]

  acknowledge-Handled :
      (e : Entry) (before : List Effect) (w : p.World)
      → Handled e before (acknowledge loads p e.id (before ++ handled e.id ∷ []) w)
  unfolding acknowledge
  acknowledge-Handled e before w = elim (Outcome-cases (p.xack e.id w).0) [
    | inl (u, k) ↦
        rw (k, acknowledge) (both (append_assoc before (handled e.id ∷ []) (acked e.id ∷ [])) refl)
    | inr (x, k) ↦ rw (k, acknowledge) (first refl refl)
  ]

  handle_job-Handled :
      (e : Entry) (job : Job) (before : List Effect) (w : p.World)
      → job.id ≡ e.id
      → Handled e before (handle_job loads p e.id job before w)
  unfolding handle_job
  handle_job-Handled e job before w same = elim (Outcome-cases (p.handler job w).0) [
    | inl (u, k) ↦ rw (k, handle_job, same) (acknowledge-Handled e before _)
    | inr (x, k) ↦ rw (k, handle_job) (neither refl refl)
  ]

  handle_entry-Handled :
      (stream_key : String) (e : Entry) (r : Run p)
      → Handled e r.log (handle_entry loads p stream_key e r)
  unfolding handle_entry
  handle_entry-Handled stream_key e r = elim (Outcome-cases (parse_message loads stream_key e)) [
    | inl (job, k) ↦
        rw (k, handle_entry)
          (handle_job-Handled e job r.log r.world (parse_message_id stream_key e job k))
    | inr (x, k) ↦ rw (k, handle_entry) (neither refl refl)
  ]

  -- From a state without an exception, the handling of a batch adds to the log, for each entry of a
  -- first part of the batch, its handling directly followed by its acknowledgement. It ends without an
  -- exception only when that part is the whole batch; otherwise the next entry is not acknowledged,
  -- though its handler may have run, and nothing is done to the entries behind it.
  pub handle_all-Delivered :
      (stream_key : String) (entries : List Entry) (r : Run p)
      → r.result ≡ ok tt
      → (added : List Effect) × ((handle_all loads p stream_key entries r).log ≡ r.log ++ added)
        × Delivered entries added (handle_all loads p stream_key entries r).result
  unfolding handle_all
  handle_all-Delivered stream_key [] r clean = ([], sym (append-nil r.log), rw clean all)
  handle_all-Delivered stream_key (e ∷ rest) r clean =
      let r' = handle_entry loads p stream_key e r in
      elim (handle_entry-Handled stream_key e r) [
        | both logged fine ↦
            let (added, k, d) = handle_all-Delivered stream_key rest r' fine in
            rw (fine, handle_all)
              (
                handled e.id ∷ acked e.id ∷ added,
                k
                    ∙ ap (λ log. log ++ added) logged
                    ∙ append_assoc r.log (handled e.id ∷ acked e.id ∷ []) added,
                next d,
              )
        | first logged fault ↦ rw (fault, handle_all) (handled e.id ∷ [], logged, rw fault unacked)
        | neither logged fault ↦
            rw (fault, handle_all) ([], logged ∙ sym (append-nil r.log), rw fault failed)
      ]
