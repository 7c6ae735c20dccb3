-- ===== src/Secrets/Accounts.antt =====
-- Every value that is disclosed (src/secrets/encrypted_store.py) is on the access log, and was not
-- expired.
use tacktcix.Prelude.{
  ◌≡◌, ◌⊎◌, string_eq, refl, sym, ap, ◌∙◌, String, true, Option, none, some, Option-cases, [], ◌∷◌,
  ◌++◌, Bool-cases, inl, inr,
}
use tacktcix.Prelude.Dict.{lookup}
use tacktcix.Prelude.Float.{Float, eq_float}
use tacktcix.Prelude.Outcome.{ok, raise, value_error, Outcome-cases}
use tacktcix.Prelude.Action.{after}
use tacktcix.Secrets.{
  Calls, SecretAccess, EncryptedSecret, Document, Setup, from_document, derive_key,
}
use tacktcix.Secrets.RoundTrip.{get_master_key-returned}
use tacktcix.Secrets.Vault.{Vault, get_master_key, check_expiry, opened, disclose, retrieve}

module _ {f : Float} {c : Calls f} where
  -- Neither the files nor the log are changed.
  record IsFrame (s s' : Vault f c) : Type 0 where
    files : s'.encrypted ≡ s.encrypted
    temporary : s'.temporary ≡ s.temporary
    mounted : s'.mounted ≡ s.mounted
    log : s'.access_log ≡ s.access_log

  check_expiry-IsFrame : (t : Option f.F) (s : Vault f c) → IsFrame s (check_expiry c t s).1
  unfolding check_expiry
  check_expiry-IsFrame none s = record {
    files = refl;
    temporary = refl;
    mounted = refl;
    log = refl;
  }
  check_expiry-IsFrame (some t) s = elim (Bool-cases (eq_float f t (f.lit 0 0))) [
    | inl e ↦ rw e (record { files = refl; temporary = refl; mounted = refl; log = refl })
    | inr e ↦ rw e (record { files = refl; temporary = refl; mounted = refl; log = refl })
  ]

-- The test that the secret passed when the clock was read: it has no time of expiry, the time is 0, or
-- it is not before the reading.
abbrev pub IsUnexpired : (f : Float) → Option f.F → f.F → Type 0
IsUnexpired f none now = Unit
IsUnexpired f (some t) now = (eq_float f t (f.lit 0 0) ≡ true) ⊎ (f.le now t ≡ true)

module _ {f : Float} (c : Calls f) (setup : Setup) where
  check_expiry-IsUnexpired :
      (t : Option f.F) (s : Vault f c)
      → (check_expiry c t s).0 ≡ ok tt
      → IsUnexpired f t (c.clock s.readings)
  unfolding check_expiry
  check_expiry-IsUnexpired none s e = tt
  check_expiry-IsUnexpired (some t) s e = elim (Bool-cases (eq_float f t (f.lit 0 0))) [
    | inl zero_time ↦ inl zero_time
    | inr later ↦ elim (Bool-cases (f.le (c.clock s.readings) t)) [
      | inl early ↦ inr early
      | inr late ↦
          let raised : (check_expiry c (some t) s).0 ≡ raise value_error = rw (later, late) refl in
          let clash : ok tt ≡ raise value_error = sym e ∙ raised in cc
    ]
  ]

  -- What the disclosure of a secret leaves behind.
  disclose_accounts :
      (id actor : String) (trace_id : Option String) (key : c.Bytes) (secret : EncryptedSecret f c)
      (s : Vault f c) (value : String)
      → (disclose c id actor trace_id key secret s).0 ≡ ok value
      → let s' = (disclose c id actor trace_id key secret s).1 in
        (entry : SecretAccess f) × (s'.encrypted ≡ s.encrypted)
        × (s'.temporary ≡ s.temporary)
        × (s'.mounted ≡ s.mounted)
        × (s'.access_log ≡ s.access_log ++ entry ∷ [])
        × IsUnexpired f secret.expires_at (c.clock s.readings)
        × (entry.secret_id ≡ id)
        × (entry.secret_class ≡ secret.secret_class)
        × (entry.accessed_by ≡ actor)
        × (entry.trace_id ≡ trace_id)
  unfolding disclose
  disclose_accounts id actor trace_id key secret s value e =
      let frame = check_expiry-IsFrame secret.expires_at s in
      let entry : SecretAccess f = record {
        secret_id = id;
        secret_class = secret.secret_class;
        accessed_by = actor;
        timestamp = c.clock (check_expiry c secret.expires_at s).1.readings;
        trace_id = trace_id;
      } in
      elim (Outcome-cases (check_expiry c secret.expires_at s).0) [
        | inr (x, old) ↦ let clash = rw (old, after) at e in cc
        | inl (_, fresh) ↦
            let e1 = rw (fresh, after) at e in
            elim (Outcome-cases (opened c (c.decrypt key secret.nonce secret.ciphertext))) [
              | inr (x, sealed) ↦ let clash = rw (sealed, after) at e1 in cc
              | inl (plaintext, open_text) ↦
                  rw (fresh, after)
                    (rw (open_text, after)
                      (
                        entry,
                        frame.files,
                        frame.temporary,
                        frame.mounted,
                        ap (λ l. l ++ entry ∷ []) frame.log,
                        check_expiry-IsUnexpired secret.expires_at s fresh,
                        refl,
                        refl,
                        refl,
                        refl,
                      ))
            ]
      ]

  -- A retrieval that returns a value leaves the encrypted, the temporary and the mounted files as they
  -- are and adds one entry to the access log,
  -- with the secret, its class, the actor and the trace; the secret has a file, and it had not expired
  -- at the time of the retrieval.
  pub retrieve_accounts :
      (id actor : String) (trace_id : Option String) (s : Vault f c) (value : String)
      → (retrieve c setup id actor trace_id s).0 ≡ ok value
      → let s' = (retrieve c setup id actor trace_id s).1 in
        (d : Document f) × (secret : EncryptedSecret f c) × (entry : SecretAccess f) × (s'.encrypted
          ≡ s.encrypted)
        × (s'.temporary ≡ s.temporary)
        × (s'.mounted ≡ s.mounted)
        × (s'.access_log ≡ s.access_log ++ entry ∷ [])
        × (lookup id s.encrypted ≡ some d)
        × (from_document c d ≡ ok secret)
        × IsUnexpired f secret.expires_at (c.clock s.readings)
        × (entry.secret_id ≡ id)
        × (entry.secret_class ≡ secret.secret_class)
        × (entry.accessed_by ≡ actor)
        × (entry.trace_id ≡ trace_id)
  unfolding retrieve
  retrieve_accounts id actor trace_id s value e =
      elim (Outcome-cases (get_master_key c setup s).0) [
        | inr (x, failed) ↦ let clash = rw (failed, after) at e in cc
        | inl (key, k) ↦
            let run = get_master_key-returned c setup s key k in
            let e1 = rw (run, after) at e in
            elim (Option-cases (lookup id s.encrypted)) [
              | inl missing ↦ let clash = rw (missing, after) at e1 in cc
              | inr (d, found) ↦
                  let e2 = rw (found, after) at e1 in
                  elim (Outcome-cases (from_document c d)) [
                    | inr (x, broken) ↦ let clash = rw (broken, after) at e2 in cc
                    | inl (secret, read) ↦
                        let e3 = rw (read, after) at e2 in
                        let (entry, files, temporary, mounted, log, fresh, i, k, a, t) =
                          disclose_accounts id actor trace_id (derive_key c key id) secret
                            (record s { key = some key }) value e3 in
                        rw (run, after)
                          (rw (found, after)
                            (rw (read, after)
                              (
                                d, secret, entry, files, temporary, mounted, log, refl, read, fresh,
                                i, k, a, t,
                              )))
                  ]
            ]
      ]
