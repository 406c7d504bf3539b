-- ===== src/Security/Keys.antt =====
-- `EnvironmentKeyProvider` of zongo/libs/security/src/security.service.ts. The environment, the
-- buffers and the cryptography of node are parameters.
use zongo_v.Prelude.{
  ℕ, Bool, false, not, ◌&&◌, Option, none, some, List, [], ◌∷◌, String, any_where, str_eq, ◌==◌,
  get_or, template, if◌then◌else◌,
}
use zongo_v.Db.Monad.{plain, Result, ok, err, ⊤}
use zongo_v.Db.Checks.{reject_if, ◌>>=◌, ◌>>◌}

-- The runtime, with its buffers `B`.
pub record Runtime (B : Type 0) : Type 0 where
  -- `process.env[name]`
  pub environment : String → Option String
  -- `value.replace(/[^a-z0-9]/gi, '_').toUpperCase()`
  pub normalize : String → String
  -- `text.split(',').map((entry) => entry.trim())`
  pub entries : String → List String
  -- `Buffer.from(text, 'base64url')` and `buffer.toString('base64url')`
  pub from_base64 : String → B
  pub to_base64 : B → String
  -- `Buffer.from(text, 'utf8')` and `buffer.toString('utf8')`
  pub from_utf8 : String → B
  pub to_utf8 : B → String
  -- `buffer.length`
  pub size : B → ℕ
  -- `randomBytes(12)`
  pub random_iv : B
  -- the ciphertext and the tag of `createCipheriv('aes-256-gcm', key, iv)` on a plaintext
  pub seal : B → B → B → B × B
  -- the plaintext of `createDecipheriv('aes-256-gcm', key, iv)` on a tag and a ciphertext; `none`
  -- where it throws
  pub unseal : B → B → B → B → Option B
  -- `createHmac('sha256', key).update(text).digest('base64url')`
  pub hmac : B → String → String
  -- `text.normalize('NFKC').trim()`
  pub canonical : String → String

pub record EncryptionKey (B : Type 0) : Type 0 where
  pub version : String
  pub key : B

module _ {B : Type 0} (rt : Runtime B) where
  abbrev sized_key : String → B → Result B
  sized_key name key =
      reject_if (not (rt.size key == 32))
        (plain (template (name ∷ " must be 32 bytes base64url" ∷ [])))
      >> ok key

  -- `readKey`
  unfoldable pub read_key : String → Result B
  read_key name = elim (rt.environment name) [
    | none ↦ err (plain (template (name ∷ " is not configured" ∷ [])))
    | some value ↦
        if str_eq value ""
        then err (plain (template (name ∷ " is not configured" ∷ [])))
        else sized_key name (rt.from_base64 value)
  ]

  abbrev pub key_name : String → String → String
  key_name purpose version =
      template ("ZONGO_ENCRYPTION_KEY_" ∷ rt.normalize purpose ∷ "_" ∷ rt.normalize version ∷ [])

  -- `readEncryptionKey`
  unfoldable pub read_encryption_key : String → String → Result (EncryptionKey B)
  read_encryption_key purpose version = do
    key ← read_key (key_name purpose version)
    ok (record { version = version; key = key })

  -- `version`
  abbrev pub current_version : String → String
  current_version purpose =
      get_or
        (rt.environment (template ("ZONGO_ENCRYPTION_KEY_VERSION_" ∷ rt.normalize purpose ∷ [])))
        "V1"

  abbrev is_entry : String → String → Bool
  is_entry version entry = not (str_eq entry "") && str_eq entry version

  abbrev pub is_retired : String → String → Bool
  is_retired purpose version =
      elim (rt.environment
        (template ("ZONGO_RETIRED_ENCRYPTION_KEY_VERSIONS_" ∷ rt.normalize purpose ∷ []))) [
          | none ↦ false
          | some names ↦ any_where (is_entry version) (rt.entries names)
        ]

  -- `assertUsableVersion`
  unfoldable pub assert_usable_version : String → String → Result ⊤
  assert_usable_version purpose version = reject_if (is_retired purpose version) (
      plain (
        template (
          "Encryption key version " ∷ version ∷ " for " ∷ purpose ∷ " is retired or compromised"
          ∷ [])))

  -- `currentKey`
  unfoldable pub current_key : String → Result (EncryptionKey B)
  current_key purpose = do
    assert_usable_version purpose (current_version purpose)
    read_encryption_key purpose (current_version purpose)

  -- `keyForVersion`
  unfoldable pub key_for_version : String → String → Result (EncryptionKey B)
  key_for_version purpose version = do
    assert_usable_version purpose version
    read_encryption_key purpose version

  -- `blindIndexKey`
  unfoldable pub blind_index_key : String → Result B
  blind_index_key purpose =
      read_key (template ("ZONGO_BLIND_INDEX_KEY_" ∷ rt.normalize purpose ∷ []))
