-- ===== src/Secrets.antt =====
-- src/secrets/encrypted_store.py: secrets that are kept encrypted. The cipher, the digest, base64 and
-- the texts' encoding are parameters, and so are the clock, the random numbers and the sources of the
-- master key.

pub mod Accounts
pub mod RoundTrip
pub mod Vault
use tacktcix.Prelude.{
  ℕ, suc, String, Bool, true, Option, none, some, List, [], ◌∷◌, map, ◌==◌, string_eq,
  if◌then◌else◌, not,
}
use tacktcix.Prelude.Chars.{lower_has}
use tacktcix.Prelude.Dict.{Dict, lookup}
use tacktcix.Prelude.Float.{Float}
use tacktcix.Prelude.Int.{ℤ, pos}
use tacktcix.Prelude.Json.{Json, text}
use tacktcix.Prelude.Outcome.{Outcome, ok, raise, ◌>>=◌, key_error, value_error}
use tacktcix.Prelude.Action.{Action}

pub data SecretClass : Type 0 where
  api_key database_cred tls_cert oauth_token signing_key generic : SecretClass

unfoldable pub class_value : SecretClass → String
class_value api_key = "api_key"
class_value database_cred = "database_cred"
class_value tls_cert = "tls_cert"
class_value oauth_token = "oauth_token"
class_value signing_key = "signing_key"
class_value generic = "generic"

-- `SecretClass(value)`
unfoldable pub class_of : String → Outcome SecretClass
class_of v =
    if v == "api_key"
    then ok api_key
    else if v == "database_cred"
    then ok database_cred
    else if v == "tls_cert"
    then ok tls_cert
    else if v == "oauth_token"
    then ok oauth_token
    else if v == "signing_key"
    then ok signing_key
    else if v == "generic"
    then ok generic
    else raise value_error

pub record Calls (f : Float) : Type 1 where
  pub Bytes : Type 0
  pub encode : String → Bytes
  pub decode : Bytes → Outcome String
  pub concat : Bytes → Bytes → Bytes
  pub sha256 : Bytes → Bytes
  pub b64encode : Bytes → String
  pub b64decode : String → Outcome Bytes
  pub encrypt : (key nonce plaintext : Bytes) → Bytes
  -- None where the cipher raises.
  pub decrypt : (key nonce ciphertext : Bytes) → Option Bytes
  -- The content of a file without the white space at its ends.
  pub read_key_file : (path : String) → Outcome String
  -- The request to the vault, its answer's status and the key in it.
  pub export_key : (url name : Option String) (token : String) → Outcome String
  pub environ : Dict String String
  -- The n-th reading of the clock, and the n-th random numbers.
  pub clock : ℕ → f.F
  pub token_hex : ℕ → String
  pub urandom : ℕ → Bytes

pub record SecretAccess (f : Float) : Type 0 where
  pub secret_id : String
  pub secret_class : SecretClass
  pub accessed_by : String
  pub timestamp : f.F
  pub trace_id : Option String

pub record EncryptedSecret (f : Float) (c : Calls f) : Type 0 where
  pub id : String
  pub name : String
  pub secret_class : SecretClass
  pub ciphertext : c.Bytes
  pub nonce : c.Bytes
  pub created_at : f.F
  pub rotated_at : f.F
  pub expires_at : Option f.F
  pub metadata : Dict String Json
  pub version : ℤ

-- The object of a file: a key that is not there is none.
pub record Document (f : Float) : Type 0 where
  pub id : Option String
  pub name : Option String
  pub secret_class : Option String
  pub ciphertext : Option String
  pub nonce : Option String
  pub created_at : Option f.F
  pub rotated_at : Option f.F
  pub expires_at : Option (Option f.F)
  pub metadata : Option (Dict String Json)
  pub version : Option ℤ

-- `data[key]` and `data.get(key, default)`
unfoldable pub need {ℓ} : {A : Type ℓ} → Option A → Outcome A
need none = raise key_error
need (some a) = ok a

unfoldable pub or_else {ℓ} : {A : Type ℓ} → Option A → A → A
or_else none default = default
or_else (some a) default = a

module _ {f : Float} {c : Calls f} where
  unfoldable pub to_document : EncryptedSecret f c → Document f
  unfolding class_value
  to_document e = record {
    id = some e.id;
    name = some e.name;
    secret_class = some (class_value e.secret_class);
    ciphertext = some (c.b64encode e.ciphertext);
    nonce = some (c.b64encode e.nonce);
    created_at = some e.created_at;
    rotated_at = some e.rotated_at;
    expires_at = some e.expires_at;
    metadata = some e.metadata;
    version = some e.version;
  }

module _ {f : Float} (c : Calls f) where
  unfoldable pub from_document : Document f → Outcome (EncryptedSecret f c)
  unfolding need or_else class_of
  from_document d = do
    id ← need d.id
    name ← need d.name
    value ← need d.secret_class
    secret_class ← class_of value
    cipher_text ← need d.ciphertext
    ciphertext ← c.b64decode cipher_text
    nonce_text ← need d.nonce
    nonce ← c.b64decode nonce_text
    created_at ← need d.created_at
    ok (record {
      id = id;
      name = name;
      secret_class = secret_class;
      ciphertext = ciphertext;
      nonce = nonce;
      created_at = created_at;
      rotated_at = or_else d.rotated_at created_at;
      expires_at = or_else d.expires_at none;
      metadata = or_else d.metadata [];
      version = or_else d.version (pos 1);
    })

  unfoldable pub derive_key : (master_key : c.Bytes) (secret_id : String) → c.Bytes
  derive_key master_key secret_id =
      c.sha256
        (c.concat (c.concat master_key (c.encode secret_id)) (c.encode "paperclip-secrets-v1"))

-- The arguments of the constructor, less the two folders.
pub record Setup : Type 0 where
  pub key_source : String
  pub key_file : Option String
  pub vault_url : Option String
  pub vault_key_name : Option String
  pub rotation_days : ℤ
  pub redacted_keys : List String

abbrev pub default_redacted_keys : List String
default_redacted_keys =
    "api_key" ∷ "password" ∷ "secret" ∷ "token" ∷ "private_key" ∷ "credential" ∷ []

-- `redacted_keys or {...}`
unfoldable pub new_setup :
    (key_source : String) (key_file url name : Option String) (rotation_days : ℤ)
    → List String
    → Setup
new_setup source file url name days keys = record {
  key_source = source;
  key_file = file;
  vault_url = url;
  vault_key_name = name;
  rotation_days = days;
  redacted_keys = elim keys [ [] ↦ default_redacted_keys | k ∷ rest ↦ k ∷ rest ];
}

is_sensitive : (keys : List String) (key : String) → Bool
is_sensitive [] key = Bool.false
is_sensitive (redacted ∷ keys) key = if lower_has redacted key then true else is_sensitive keys key

unfoldable pub redact_value : Setup → (key : String) → Json → Json
unfolding is_sensitive
redact_value setup key v = if is_sensitive setup.redacted_keys key then text "[REDACTED]" else v

unfoldable pub redact_secrets_from_dict : Setup → Dict String Json → Dict String Json
unfolding redact_value
redact_secrets_from_dict setup d = map (λ e. (e.0, redact_value setup e.0 e.1)) d
