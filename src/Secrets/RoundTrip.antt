-- ===== src/Secrets/RoundTrip.antt =====
-- A secret that was stored or rotated (src/secrets/encrypted_store.py) is the one that is retrieved.
use tacktcix.Prelude.{
  suc, ◌≡◌, refl, subst, sym, ap, ◌∙◌, String, true, false, Option, none, some, ◌==◌, string_eq,
  eq_refl, Bool-cases, inl, inr,
}
use tacktcix.Prelude.Dict.{Dict, lookup, insert, lookup-insert}
use tacktcix.Prelude.Float.{Float, eq_float}
use tacktcix.Prelude.Int.{ℤ, pos, ◌+ℤ◌}
use tacktcix.Prelude.Json.{Json}
use tacktcix.Prelude.Outcome.{Outcome, ok, raise}
use tacktcix.Prelude.Action.{after}
use tacktcix.Secrets.{
  SecretClass, api_key, database_cred, tls_cert, oauth_token, signing_key, generic, class_value,
  class_of, Calls, EncryptedSecret, Document, Setup, to_document, from_document, derive_key,
}
use tacktcix.Secrets.Vault.{
  Vault, get_master_key, known_key, check_expiry, expiry, rename_into_place, keep_key, fetch_key,
  save, new_secret, rotated, store, disclose, retrieve, rotate,
}

-- What the documentation of the three libraries says: each reads back what it wrote.
pub record CallLaws {f : Float} (c : Calls f) : Type 0 where
  pub decode-encode : (s : String) → c.decode (c.encode s) ≡ ok s
  pub b64decode-b64encode : (b : c.Bytes) → c.b64decode (c.b64encode b) ≡ ok b
  pub decrypt-encrypt :
      (key nonce plaintext : c.Bytes)
      → c.decrypt key nonce (c.encrypt key nonce plaintext) ≡ some plaintext

class_of-class_value : (k : SecretClass) → class_of (class_value k) ≡ ok k
unfolding class_of class_value
class_of-class_value api_key = refl
class_of-class_value database_cred = refl
class_of-class_value tls_cert = refl
class_of-class_value oauth_token = refl
class_of-class_value signing_key = refl
class_of-class_value generic = refl

-- The secret has no time of expiry, or one that has not passed at the given time.
abbrev pub IsLive : (f : Float) → Option f.F → f.F → Type 0
IsLive f none now = Unit
IsLive f (some t) now = f.le now t ≡ true

module _ {f : Float} {c : Calls f} (laws : CallLaws c) where
  from_document-to_document : (e : EncryptedSecret f c) → from_document c (to_document e) ≡ ok e
  unfolding from_document to_document
  from_document-to_document e = simp (class_of-class_value e.secret_class, laws.b64decode-b64encode)

module _ {f : Float} {c : Calls f} where
  -- The file of the secret holds the value, under the key of the vault.
  record Holds (s : Vault f c) (id value : String) (secret : EncryptedSecret f c) : Type 0 where
    key : c.Bytes
    cached : s.key ≡ some key
    filed : lookup id s.encrypted ≡ some (to_document secret)
    encrypted : secret.ciphertext ≡ c.encrypt (derive_key c key id) secret.nonce (c.encode value)

module _ {f : Float} (c : Calls f) (setup : Setup) where
  get_master_key_cached :
      (s : Vault f c) (k : c.Bytes) → s.key ≡ some k → get_master_key c setup s ≡ (ok k, s)
  unfolding get_master_key
  get_master_key_cached s k e = ap (λ o. known_key c setup o s) e

  keep_key-returned :
      (o : Outcome c.Bytes) (s : Vault f c) (k : c.Bytes)
      → (keep_key c setup o s).0 ≡ ok k
      → keep_key c setup o s ≡ (ok k, record s { key = some k })
  unfolding keep_key
  keep_key-returned (raise x) s k e = cc
  keep_key-returned (ok j) s k e = let same : j ≡ k = cc in rw same refl

  known_key-returned :
      (o : Option c.Bytes) (s : Vault f c) (k : c.Bytes)
      → s.key ≡ o
      → (known_key c setup o s).0 ≡ ok k
      → known_key c setup o s ≡ (ok k, record s { key = some k })
  unfolding known_key
  known_key-returned none s k h e = keep_key-returned (fetch_key c setup) s k e
  known_key-returned (some j) s k h e = let same : j ≡ k = cc in rw (same, sym same, sym h) refl

  pub get_master_key-returned :
      (s : Vault f c) (k : c.Bytes)
      → (get_master_key c setup s).0 ≡ ok k
      → get_master_key c setup s ≡ (ok k, record s { key = some k })
  unfolding get_master_key
  get_master_key-returned s k e = known_key-returned s.key s k refl e

  check_expiry_live :
      (t : Option f.F) (s : Vault f c)
      → IsLive f t (c.clock s.readings)
      → (s' : Vault f c) × (check_expiry c t s ≡ (ok tt, s'))
  unfolding check_expiry
  check_expiry_live none s h = (s, refl)
  check_expiry_live (some t) s h = elim (Bool-cases (eq_float f t (f.lit 0 0))) [
    | inl e ↦ (s, rw e refl)
    | inr e ↦ (record s { readings = suc s.readings }, rw (e, h) refl)
  ]

module _ {f : Float} {c : Calls f} (laws : CallLaws c) (setup : Setup) where
  retrieve-Holds :
      (s : Vault f c) (id value actor : String) (trace_id : Option String)
      (secret : EncryptedSecret f c)
      → Holds s id value secret
      → IsLive f secret.expires_at (c.clock s.readings)
      → (retrieve c setup id actor trace_id s).0 ≡ ok value
  unfolding retrieve disclose
  retrieve-Holds s id value actor trace_id secret h live =
      let (s', e) = check_expiry_live c setup secret.expires_at s live in
      rw (get_master_key_cached c setup s h.key h.cached, after)
        (rw (h.filed, after)
          (rw (from_document-to_document laws secret, after)
            (rw (e, after) (rw (h.encrypted, laws.decrypt-encrypt) (laws.decode-encode value)))))

module _ {f : Float} {c : Calls f} where
  -- Saving replaces the file of the secret, and no other.
  save_lem :
      (id : String) (k : SecretClass) (actor : String) (trace_id : Option String) (d : Document f)
      (s : Vault f c)
      → ((save c id k actor trace_id d s).0 ≡ ok id)
        × ((save c id k actor trace_id d s).1.key ≡ s.key)
        × ((save c id k actor trace_id d s).1.encrypted ≡ insert id d s.encrypted)
        × ((save c id k actor trace_id d s).1.readings ≡ suc s.readings)
  unfolding save
  save_lem id k actor trace_id d s =
      let found : lookup id (insert id d s.temporary) ≡ some d =
        lookup-insert id id d s.temporary ∙ rw (eq_refl id) refl in
      rw (found, rename_into_place, after) (refl, refl, refl, refl)

  saved-Holds :
      (id value : String) (k : SecretClass) (actor : String) (trace_id : Option String)
      (secret : EncryptedSecret f c) (s : Vault f c) (key : c.Bytes)
      → s.key ≡ some key
      → secret.ciphertext ≡ c.encrypt (derive_key c key id) secret.nonce (c.encode value)
      → Holds (save c id k actor trace_id (to_document secret) s).1 id value secret
  saved-Holds id value k actor trace_id secret s key cached sealed =
      let (_, same_key, files, _) = save_lem id k actor trace_id (to_document secret) s in
      record {
        key = key;
        cached = same_key ∙ cached;
        filed =
            ap (lookup id) files
            ∙ lookup-insert id id (to_document secret) s.encrypted
            ∙ rw (eq_refl id) refl;
        encrypted = sealed;
      }

module _ {f : Float} {c : Calls f} (laws : CallLaws c) (setup : Setup) where
  -- Let the master key be available. Storing a value that is not empty gives the secret a random
  -- identifier, and retrieving it by that identifier returns the value, to any actor, unless the time
  -- of expiry has passed.
  pub retrieve-store :
      (name value : String) (k : SecretClass) (actor : String) (days : Option ℤ)
      (metadata : Option (Dict String Json)) (trace_id : Option String) (s : Vault f c)
      (key : c.Bytes) (reader : String) (reader_trace : Option String)
      → (value == "") ≡ false
      → (get_master_key c setup s).0 ≡ ok key
      → IsLive f (expiry c (c.clock s.readings) days) (c.clock (suc (suc s.readings)))
      → let after_store = store c setup name value k actor days metadata trace_id s in
        (after_store.0 ≡ ok (c.token_hex s.draws))
        × ((retrieve c setup (c.token_hex s.draws) reader reader_trace after_store.1).0 ≡ ok value)
  unfolding store new_secret
  retrieve-store name value k actor days metadata trace_id s key reader reader_trace filled
        available live =
      let id = c.token_hex s.draws in
      let secret =
        new_secret c id name value k (derive_key c key id) (c.urandom (suc s.draws))
          (c.clock s.readings) days metadata in
      let s' = record s { key = some key; readings = suc s.readings; draws = suc (suc s.draws) } in
      let (returned, _, _, clock) = save_lem id k actor trace_id (to_document secret) s' in
      rw (filled, get_master_key-returned c setup s key available, after)
        (
          returned,
          retrieve-Holds laws setup _ id value reader reader_trace secret
              (saved-Holds id value k actor trace_id secret s' key refl refl)
              (subst (λ n. IsLive f secret.expires_at (c.clock n)) (sym clock) live),
        )

  -- Let the master key be available and the secret's file be readable. Rotating the secret returns its
  -- identifier, and retrieving it then returns the new value, unless the time of expiry has passed. Its
  -- file has the version after the old one and the old name, class, time of creation and time of
  -- expiry, and no other secret's file is changed.
  pub retrieve-rotate :
      (id new_value actor : String) (trace_id : Option String) (s : Vault f c) (key : c.Bytes)
      (d : Document f) (secret : EncryptedSecret f c) (reader : String)
      (reader_trace : Option String) (other : String)
      → (get_master_key c setup s).0 ≡ ok key
      → lookup id s.encrypted ≡ some d
      → from_document c d ≡ ok secret
      → IsLive f secret.expires_at (c.clock (suc (suc s.readings)))
      → (other == id) ≡ false
      → let after_rotate = rotate c setup id new_value actor trace_id s in
        (after_rotate.0 ≡ ok id)
        × ((retrieve c setup id reader reader_trace after_rotate.1).0 ≡ ok new_value)
        × ((r : EncryptedSecret f c) × (lookup id after_rotate.1.encrypted ≡ some (to_document r))
            × (r.version ≡ secret.version +ℤ pos 1)
            × (r.name ≡ secret.name)
            × (r.secret_class ≡ secret.secret_class)
            × (r.created_at ≡ secret.created_at)
            × (r.expires_at ≡ secret.expires_at))
        × (lookup other after_rotate.1.encrypted ≡ lookup other s.encrypted)
  unfolding rotate rotated
  retrieve-rotate id new_value actor trace_id s key d secret reader reader_trace other available
        found read live apart =
      let r =
        rotated c new_value (derive_key c key id) (c.urandom s.draws) (c.clock s.readings) secret in
      let s' = record s { key = some key; readings = suc s.readings; draws = suc s.draws } in
      let (returned, _, files, clock) =
        save_lem id secret.secret_class actor trace_id (to_document r) s' in
      let held = saved-Holds id new_value secret.secret_class actor trace_id r s' key refl refl in
      rw (get_master_key-returned c setup s key available, after)
        (rw (found, after)
          (rw (read, after)
            (
              returned,
              retrieve-Holds laws setup _ id new_value reader reader_trace r held
                  (subst (λ n. IsLive f secret.expires_at (c.clock n)) (sym clock) live),
              (r, held.filed, refl, refl, refl, refl, refl),
              ap (lookup other) files
                  ∙ lookup-insert id other (to_document r) s.encrypted
                  ∙ rw apart refl,
            )))
