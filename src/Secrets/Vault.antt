-- ===== src/Secrets/Vault.antt =====
-- The methods of EncryptedSecretsStore (src/secrets/encrypted_store.py). The two folders are dicts of
-- files by the secret's identifier: `encrypted` has the .enc files and `temporary` the .tmp files of
-- the storage, `mounted` the files of the tmpfs mount.
use tacktcix.Prelude.{
  ℕ, suc, String, Bool, true, false, Option, none, some, List, [], ◌∷◌, ◌++◌, ◌==◌, string_eq,
  if◌then◌else◌,
}
use tacktcix.Prelude.Dict.{Dict, lookup, insert, erase}
use tacktcix.Prelude.Float.{Float, eq_float}
use tacktcix.Prelude.Int.{ℤ, pos, ◌+ℤ◌, is_zero, scale_ℤ}
use tacktcix.Prelude.Json.{Json}
use tacktcix.Prelude.Outcome.{Outcome, ok, raise, key_error, value_error, file_not_found}
use tacktcix.Prelude.Outcome
use tacktcix.Prelude.Action.{Action, ◌>>=◌, ◌>>◌, returns, raises, asks, writes}
use tacktcix.Secrets.{
  SecretClass, Calls, SecretAccess, EncryptedSecret, Document, Setup, need, or_else, to_document,
  from_document, derive_key,
}

-- `_key`, the cached master key, and `_access_log`; `readings` and `draws` count the readings of the
-- clock and the random numbers.
pub record Vault (f : Float) (c : Calls f) : Type 0 where
  pub encrypted : Dict String (Document f)
  pub temporary : Dict String (Document f)
  pub mounted : Dict String String
  pub key : Option c.Bytes
  pub access_log : List (SecretAccess f)
  pub readings : ℕ
  pub draws : ℕ

module _ {f : Float} (c : Calls f) (setup : Setup) where
  from_local : Outcome c.Bytes
  from_local = elim setup.key_file [
    | none ↦ raise value_error
    | some path ↦
        if path == "" then raise value_error else Outcome.◌>>=◌ (c.read_key_file path) c.b64decode
  ]

  from_vault : Outcome c.Bytes
  unfolding need
  from_vault =
      Outcome.◌>>=◌ (need (lookup "VAULT_TOKEN" c.environ)) (λ token.
        Outcome.◌>>=◌ (c.export_key setup.vault_url setup.vault_key_name token) c.b64decode)

  from_env : Outcome c.Bytes
  unfolding or_else
  from_env =
      let key_b64 = or_else (lookup "PAPERCLIP_MASTER_KEY" c.environ) "" in
      if key_b64 == "" then raise value_error else c.b64decode key_b64

  pub fetch_key : Outcome c.Bytes
  unfolding from_local from_vault from_env
  fetch_key =
      if setup.key_source == "local"
      then from_local
      else if setup.key_source == "vault"
      then from_vault
      else if setup.key_source == "env"
      then from_env
      else raise value_error

  unfoldable pub keep_key : Outcome c.Bytes → Action (Vault f c) c.Bytes
  keep_key (raise x) s = (raise x, s)
  keep_key (ok k) s = (ok k, record s { key = some k })

  unfoldable pub known_key : Option c.Bytes → Action (Vault f c) c.Bytes
  unfolding fetch_key keep_key
  known_key none s = keep_key fetch_key s
  known_key (some k) s = (ok k, s)

  unfoldable pub get_master_key : Action (Vault f c) c.Bytes
  unfolding known_key
  get_master_key s = known_key s.key s

module _ {f : Float} (c : Calls f) where
  -- `time.time()`, `token_hex(16)` and `os.urandom(12)`.
  abbrev pub time_now : Action (Vault f c) f.F
  time_now s = (ok (c.clock s.readings), record s { readings = suc s.readings })

  abbrev pub generate_id : Action (Vault f c) String
  generate_id s = (ok (c.token_hex s.draws), record s { draws = suc s.draws })

  abbrev pub new_nonce : Action (Vault f c) c.Bytes
  new_nonce s = (ok (c.urandom s.draws), record s { draws = suc s.draws })

  -- The file of a secret, written beside its place and then moved there.
  abbrev pub write_temporary : (secret_id : String) → Document f → Action (Vault f c) (Unit {0})
  write_temporary secret_id d s = (ok tt, record s { temporary = insert secret_id d s.temporary })

  unfoldable pub rename_into_place : (secret_id : String) → Action (Vault f c) (Unit {0})
  rename_into_place secret_id s = elim (lookup secret_id s.temporary) [
    | none ↦ (raise file_not_found, s)
    | some d ↦ (
      ok tt,
      record s {
        encrypted = insert secret_id d s.encrypted;
        temporary = erase secret_id s.temporary;
      },
    )
  ]

  abbrev pub read_document : (secret_id : String) → Action (Vault f c) (Document f)
  read_document secret_id s =
      (elim (lookup secret_id s.encrypted) [ none ↦ raise file_not_found | some d ↦ ok d ], s)

  abbrev pub log_access :
      (secret_id : String)
      → SecretClass
      → (actor : String) → Option String
      → Action (Vault f c) (Unit {0})
  log_access secret_id secret_class actor trace_id s =
      let access : SecretAccess f = record {
        secret_id = secret_id;
        secret_class = secret_class;
        accessed_by = actor;
        timestamp = c.clock s.readings;
        trace_id = trace_id;
      } in
      (ok tt, record s { access_log = s.access_log ++ access ∷ []; readings = suc s.readings })

  -- `now + expires_in_days * 86400 if expires_in_days else None`
  unfoldable pub expiry : (now : f.F) → Option ℤ → Option f.F
  expiry now none = none
  expiry now (some days) =
      if is_zero days then none else some (f.add now (f.of_int (scale_ℤ days 86400)))

  -- `expires_at and time.time() > expires_at`: the clock is read only for a time that is not 0.
  unfoldable pub check_expiry : Option f.F → Action (Vault f c) (Unit {0})
  check_expiry none s = (ok tt, s)
  check_expiry (some t) s = if eq_float f t (f.lit 0 0) then (ok tt, s) else (
    if f.le (c.clock s.readings) t then ok tt else raise value_error,
    record s { readings = suc s.readings },
  )

  abbrev pub opened : Option c.Bytes → Outcome c.Bytes
  opened none = raise value_error
  opened (some plaintext) = ok plaintext

module _ {f : Float} (c : Calls f) where
  -- The end of `store` and of `rotate`: the file is written and moved, and the access is logged.
  unfoldable pub save :
      (secret_id : String)
      → SecretClass
      → (actor : String) (trace_id : Option String) → Document f
      → Action (Vault f c) String
  unfolding rename_into_place
  save secret_id secret_class actor trace_id d = do
    write_temporary c secret_id d
    rename_into_place c secret_id
    log_access c secret_id secret_class actor trace_id
    returns secret_id

  unfoldable pub new_secret :
      (id name value : String)
      → SecretClass
      → (derived_key nonce : c.Bytes) (now : f.F) (expires_in_days : Option ℤ)
        (metadata : Option (Dict String Json))
      → EncryptedSecret f c
  unfolding or_else
  new_secret id name value secret_class derived_key nonce now expires_in_days metadata = record {
    id = id;
    name = name;
    secret_class = secret_class;
    ciphertext = c.encrypt derived_key nonce (c.encode value);
    nonce = nonce;
    created_at = now;
    rotated_at = now;
    expires_at = expiry c now expires_in_days;
    metadata = or_else metadata [];
    version = pos 1;
  }

  unfoldable pub rotated :
      (new_value : String) (derived_key nonce : c.Bytes) (now : f.F)
      → EncryptedSecret f c
      → EncryptedSecret f c
  rotated new_value derived_key nonce now secret = record secret {
    ciphertext = c.encrypt derived_key nonce (c.encode new_value);
    nonce = nonce;
    rotated_at = now;
    version = secret.version +ℤ pos 1;
  }

  -- The end of `retrieve`, once the secret is read.
  unfoldable pub disclose :
      (secret_id actor : String) (trace_id : Option String) (derived_key : c.Bytes)
      → EncryptedSecret f c
      → Action (Vault f c) String
  disclose secret_id actor trace_id derived_key secret = do
    check_expiry c secret.expires_at
    plaintext ← asks (λ _. opened c (c.decrypt derived_key secret.nonce secret.ciphertext))
    log_access c secret_id secret.secret_class actor trace_id
    asks (λ _. c.decode plaintext)

module _ {f : Float} (c : Calls f) (setup : Setup) where
  unfoldable pub store :
      (name value : String)
      → SecretClass
      → (actor : String) (expires_in_days : Option ℤ) (metadata : Option (Dict String Json))
        (trace_id : Option String)
      → Action (Vault f c) String
  store name value secret_class actor expires_in_days metadata trace_id =
      if value == "" then raises value_error else do
        master_key ← get_master_key c setup
        secret_id ← generate_id c
        nonce ← new_nonce c
        now ← time_now c
        save c secret_id secret_class actor trace_id (
            to_document (
              new_secret c secret_id name value secret_class (derive_key c master_key secret_id)
                nonce now expires_in_days metadata))

  unfoldable pub retrieve :
      (secret_id actor : String) (trace_id : Option String) → Action (Vault f c) String
  retrieve secret_id actor trace_id = do
    master_key ← get_master_key c setup
    d ← read_document c secret_id
    secret ← asks (λ _. from_document c d)
    disclose c secret_id actor trace_id (derive_key c master_key secret_id) secret

  -- The file that the value is written to is named after the secret.
  unfoldable pub inject_to_tmpfs :
      (secret_id actor : String) (trace_id : Option String) → Action (Vault f c) String
  inject_to_tmpfs secret_id actor trace_id = do
    value ← retrieve secret_id actor trace_id
    _ ← read_document c secret_id
    writes (λ s. (secret_id, record s { mounted = insert secret_id value s.mounted }))

  unfoldable pub rotate :
      (secret_id new_value actor : String) (trace_id : Option String) → Action (Vault f c) String
  rotate secret_id new_value actor trace_id = do
    master_key ← get_master_key c setup
    d ← read_document c secret_id
    secret ← asks (λ _. from_document c d)
    nonce ← new_nonce c
    now ← time_now c
    save c secret_id secret.secret_class actor trace_id
        (to_document (rotated c new_value (derive_key c master_key secret_id) nonce now secret))

  -- `(time.time() - rotated_at) / 86400 >= rotation_days`; the default of `get` is read first.
  unfoldable pub needs_rotation : (secret_id : String) → Action (Vault f c) Bool
  unfolding need or_else
  needs_rotation secret_id s = elim (lookup secret_id s.encrypted) [
    | none ↦ (ok false, s)
    | some d ↦
        (do
          created_at ← asks (λ _. need d.created_at)
          now ← time_now c
          let age = f.div (f.sub now (or_else d.rotated_at created_at)) (f.lit 86400 0)
          returns (f.le (f.of_int setup.rotation_days) age))
          s
  ]

-- What is told of a secret: neither its ciphertext nor its nonce.
pub record Summary (f : Float) : Type 0 where
  pub id : String
  pub name : String
  pub secret_class : String
  pub created_at : f.F
  pub rotated_at : f.F
  pub expires_at : Option f.F
  pub version : ℤ

module _ {f : Float} where
  unfoldable pub summary_of : Document f → Outcome (Summary f)
  unfolding need or_else
  summary_of d = Outcome.◌>>=◌ (need d.id) λ id. Outcome.◌>>=◌ (need d.name) λ name.
      Outcome.◌>>=◌ (need d.secret_class) λ secret_class.
        Outcome.◌>>=◌ (need d.created_at) λ created_at. ok (record {
          id = id;
          name = name;
          secret_class = secret_class;
          created_at = created_at;
          rotated_at = or_else d.rotated_at created_at;
          expires_at = or_else d.expires_at none;
          version = or_else d.version (pos 1);
        })

  unfoldable pub list_documents : Dict String (Document f) → Outcome (List (Summary f))
  unfolding summary_of
  list_documents [] = ok []
  list_documents ((k, d) ∷ files) =
      Outcome.◌>>=◌ (summary_of d)
        λ one. Outcome.◌>>=◌ (list_documents files) λ rest. ok (one ∷ rest)

module _ {f : Float} {c : Calls f} where
  unfoldable pub delete : (secret_id : String) → Vault f c → Bool × Vault f c
  delete secret_id s = (
    true,
    record s { encrypted = erase secret_id s.encrypted; mounted = erase secret_id s.mounted },
  )

  unfoldable pub list_secrets : Vault f c → Outcome (List (Summary f))
  unfolding list_documents
  list_secrets s = list_documents s.encrypted

  unfoldable pub get_access_log : Vault f c → List (SecretAccess f)
  get_access_log s = s.access_log

  unfoldable pub clear_access_log : Vault f c → Vault f c
  clear_access_log s = record s { access_log = [] }
