-- ===== src/Tests/Secrets.antt =====
-- Runs of the secret store with a cipher that puts a mark before the text.
use Prim.Native.String.{String}
use tacktcix.Prelude.{◌*◌, ◌≡◌, refl, Option, none, some, [], ◌∷◌, string_eq}
use tacktcix.Prelude.Dict.{lookup}
use tacktcix.Prelude.Int.{pos, ◌+ℤ◌, is_zero}
use tacktcix.Prelude.Outcome.{ok}
use tacktcix.Secrets.{
  api_key, Calls, SecretAccess, EncryptedSecret, Document, Setup, to_document, from_document,
}
use tacktcix.Secrets.Accounts.{IsUnexpired, retrieve_accounts}
use tacktcix.Secrets.RoundTrip.{CallLaws, IsLive, retrieve-store, retrieve-rotate}
use tacktcix.Secrets.Vault.{
  Vault, get_master_key, expiry, store, retrieve, rotate, disclose, check_expiry,
}
use tacktcix.Tests.Fixed.{fixed}

abbrev unmarked : String → Option String
unmarked String.[] = none
unmarked (String.◌∷◌ c s) = some s

abbrev calls : Calls fixed
calls = record {
  Bytes = String;
  encode = λ s. s;
  decode = λ s. ok s;
  concat = λ s t. s;
  sha256 = λ s. s;
  b64encode = λ s. s;
  b64decode = λ s. ok s;
  encrypt = λ key nonce s. String.◌∷◌ "#" s;
  decrypt = λ key nonce s. unmarked s;
  read_key_file = λ path. ok "master";
  export_key = λ url name token. ok "master";
  environ = [];
  clock = λ n. n * 10000;
  token_hex = λ n. "5ec0";
  urandom = λ n. "nonce";
}

laws : CallLaws calls
laws = record {
  decode-encode = λ s. refl;
  b64decode-b64encode = λ b. refl;
  decrypt-encrypt = λ key nonce plaintext. refl;
}

abbrev setup : Setup
setup = record {
  key_source = "local";
  key_file = some "/etc/key";
  vault_url = none;
  vault_key_name = none;
  rotation_days = pos 30;
  redacted_keys = "token" ∷ [];
}

abbrev empty : Vault fixed calls
empty = record {
  encrypted = [];
  temporary = [];
  mounted = [];
  key = none;
  access_log = [];
  readings = 0;
  draws = 0;
}

key_read : (get_master_key calls setup empty).0 ≡ ok "master"
unfolding get_master_key
key_read = refl

not_expired : IsLive fixed (expiry calls (calls.clock 0) (some (pos 1))) (calls.clock 2)
unfolding expiry is_zero
not_expired = refl

retrieve-store_example :
    ((store calls setup "db" "hunter2" api_key "ops" (some (pos 1)) none none empty).0 ≡ ok "5ec0")
    × ((retrieve calls setup "5ec0" "agent" none
          (store calls setup "db" "hunter2" api_key "ops" (some (pos 1)) none none empty).1).0
        ≡ ok "hunter2")
retrieve-store_example =
    retrieve-store laws setup "db" "hunter2" api_key "ops" (some (pos 1)) none none empty "master"
      "agent" none refl key_read not_expired

abbrev password : EncryptedSecret fixed calls
password = record {
  id = "a1";
  name = "db";
  secret_class = api_key;
  ciphertext = "#hunter2";
  nonce = "nonce";
  created_at = 10000;
  rotated_at = 10000;
  expires_at = some 90000;
  metadata = [];
  version = pos 1;
}

abbrev stocked : Vault fixed calls
stocked = record empty {
  encrypted =
      ("a1", to_document password) ∷ ("b2", to_document (record password { id = "b2" })) ∷ [];
}

key_read_stocked : (get_master_key calls setup stocked).0 ≡ ok "master"
unfolding get_master_key
key_read_stocked = refl

readable : from_document calls (to_document password) ≡ ok password
unfolding from_document to_document
readable = refl

retrieve-rotate_example :
    ((rotate calls setup "a1" "hunter3" "ops" none stocked).0 ≡ ok "a1")
    × ((retrieve calls setup "a1" "agent" none
          (rotate calls setup "a1" "hunter3" "ops" none stocked).1).0
        ≡ ok "hunter3")
    × ((r : EncryptedSecret fixed calls) × (lookup "a1"
            (rotate calls setup "a1" "hunter3" "ops" none stocked).1.encrypted
          ≡ some (to_document r))
        × (r.version ≡ pos 1 +ℤ pos 1)
        × (r.name ≡ "db")
        × (r.secret_class ≡ api_key)
        × (r.created_at ≡ password.created_at)
        × (r.expires_at ≡ some 90000))
    × (lookup "b2" (rotate calls setup "a1" "hunter3" "ops" none stocked).1.encrypted
        ≡ lookup "b2" stocked.encrypted)
retrieve-rotate_example =
    retrieve-rotate laws setup "a1" "hunter3" "ops" none stocked "master" (to_document password)
      password "agent" none "b2" key_read_stocked refl readable refl refl

disclosed : (retrieve calls setup "a1" "agent" (some "t1") stocked).0 ≡ ok "hunter2"
unfolding retrieve disclose check_expiry get_master_key from_document to_document
disclosed = refl

retrieve_accounts_example :
    let s' = (retrieve calls setup "a1" "agent" (some "t1") stocked).1 in
    (d : Document fixed) × (secret : EncryptedSecret fixed calls) × (entry : SecretAccess fixed)
    × (s'.encrypted ≡ stocked.encrypted)
    × (s'.temporary ≡ stocked.temporary)
    × (s'.mounted ≡ stocked.mounted)
    × (s'.access_log ≡ entry ∷ [])
    × (lookup "a1" stocked.encrypted ≡ some d)
    × (from_document calls d ≡ ok secret)
    × IsUnexpired fixed secret.expires_at 0
    × (entry.secret_id ≡ "a1")
    × (entry.secret_class ≡ secret.secret_class)
    × (entry.accessed_by ≡ "agent")
    × (entry.trace_id ≡ some "t1")
retrieve_accounts_example =
    retrieve_accounts calls setup "a1" "agent" (some "t1") stocked "hunter2" disclosed
