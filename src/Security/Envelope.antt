-- ===== src/Security/Envelope.antt =====
-- `EnvelopeEncryptionService` of zongo/libs/security/src/security.service.ts.
use zongo_v.Prelude.{not, Option, none, some, String, str_eq, ◌==◌, if◌then◌else◌}
use zongo_v.Db.Monad.{plain, Result, ok, err, ⊤}
use zongo_v.Db.Checks.{reject_if, ◌>>=◌, ◌>>◌}
use zongo_v.Security.Keys.{Runtime, EncryptionKey, current_key, key_for_version, blind_index_key}

pub record EncryptedValue : Type 0 where
  pub algorithm : String
  pub key_version : String
  pub iv : String
  pub ciphertext : String
  pub auth_tag : String

module _ {B : Type 0} (rt : Runtime B) where
  -- `assertKey`
  unfoldable pub assert_key : B → Result ⊤
  assert_key key =
      reject_if (not (rt.size key == 32)) (plain "Encryption and blind-index keys must be 32 bytes")

  abbrev pub sealed : EncryptionKey B → String → EncryptedValue
  sealed key value =
      let box = rt.seal key.key rt.random_iv (rt.from_utf8 value) in
      record {
        algorithm = "aes-256-gcm";
        key_version = key.version;
        iv = rt.to_base64 rt.random_iv;
        ciphertext = rt.to_base64 box.0;
        auth_tag = rt.to_base64 box.1;
      }

  -- `encrypt`
  unfoldable pub encrypt_value : String → String → Result EncryptedValue
  encrypt_value value purpose = do
    key ← current_key rt purpose
    assert_key key.key
    ok (sealed key value)

  abbrev pub plaintext_of : Option B → Result String
  plaintext_of none = err (plain "Unsupported state or unable to authenticate data")
  plaintext_of (some b) = ok (rt.to_utf8 b)

  abbrev pub unsealed : EncryptedValue → EncryptionKey B → Result String
  unsealed value key = plaintext_of (
      rt.unseal key.key (rt.from_base64 value.iv) (rt.from_base64 value.auth_tag)
        (rt.from_base64 value.ciphertext))

  abbrev pub open_sealed : EncryptedValue → String → Result String
  open_sealed value purpose = do
    key ← key_for_version rt purpose value.key_version
    assert_key key.key
    unsealed value key

  -- `decrypt`
  unfoldable pub decrypt_value : EncryptedValue → String → Result String
  decrypt_value value purpose =
      if str_eq value.algorithm "aes-256-gcm"
      then open_sealed value purpose
      else err (plain "Unsupported encryption algorithm")

  -- `reencrypt`
  unfoldable pub reencrypt : EncryptedValue → String → Result EncryptedValue
  reencrypt value purpose = do text ← decrypt_value value purpose; encrypt_value text purpose

  -- `blindIndex`
  unfoldable pub blind_index : String → String → Result String
  blind_index value purpose = do
    key ← blind_index_key rt purpose
    assert_key key
    ok (rt.hmac key (rt.canonical value))
