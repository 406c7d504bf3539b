-- ===== src/Tests/SecurityExamples.antt =====
-- The rotation of an encryption key, at a concrete input.
use zongo_v.Prelude.{◌≡◌, refl, Option, none, some, [], ◌∷◌, String, str_eq, if◌then◌else◌}
use text.Mathlib.TextPositions.{eq_refl}
use zongo_v.Db.Monad.{err, ok, plain}
use zongo_v.Security.Keys.{
  Runtime, current_key, key_for_version, read_encryption_key, read_key, assert_usable_version,
  current_version,
}
use zongo_v.Security.Envelope.{EncryptedValue, assert_key, decrypt_value, reencrypt}
use zongo_v.Security.Rotation.{Opens, reencrypt-decrypt}

-- Two versions of a key, of which V2 is current.
abbrev variables : String → Option String
variables name =
    if str_eq name "ZONGO_ENCRYPTION_KEY_VERSION_phone"
    then some "V2"
    else if str_eq name "ZONGO_ENCRYPTION_KEY_phone_V1"
    then some "old"
    else if str_eq name "ZONGO_ENCRYPTION_KEY_phone_V2"
    then some "new"
    else none

abbrev test_runtime : Runtime String
test_runtime = record {
  environment = variables;
  normalize = λ s. s;
  entries = λ s. s ∷ [];
  from_base64 = λ s. s;
  to_base64 = λ b. b;
  from_utf8 = λ s. s;
  to_utf8 = λ b. b;
  size = λ b. 32;
  random_iv = "iv";
  seal = λ key iv x. (x, key);
  unseal = λ key iv tag x. if str_eq tag key then some x else none;
  hmac = λ key s. key;
  canonical = λ s. s;
}

abbrev old_value : EncryptedValue
old_value = record {
  algorithm = "aes-256-gcm";
  key_version = "V1";
  iv = "iv";
  ciphertext = "+243";
  auth_tag = "old";
}

test_runtime-Opens : Opens test_runtime
test_runtime-Opens = record {
  unseal-seal = λ key iv x. rw (eq_refl key) refl;
  base64 = λ x. refl;
  utf8 = λ x. refl;
}

reencrypt-decrypt_example :
    (value' : EncryptedValue) × (reencrypt test_runtime old_value "phone" ≡ ok value')
    × (decrypt_value test_runtime value' "phone" ≡ ok "+243")
    × (value'.key_version ≡ current_version test_runtime "phone")
unfolding decrypt_value key_for_version assert_usable_version read_encryption_key read_key
    assert_key current_key
reencrypt-decrypt_example =
    reencrypt-decrypt test_runtime test_runtime-Opens old_value "phone"
      {k = record { version = "V2"; key = "new" }} refl refl

-- A retired version of a key opens nothing.
abbrev retiring : Runtime String
retiring = record test_runtime {
  environment = λ name.
      if str_eq name "ZONGO_RETIRED_ENCRYPTION_KEY_VERSIONS_phone"
      then some "V1"
      else variables name;
}

retired_test :
    decrypt_value retiring old_value "phone"
    ≡ err (plain "Encryption key version V1 for phone is retired or compromised")
unfolding decrypt_value key_for_version assert_usable_version
retired_test = refl
