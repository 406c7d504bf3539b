-- ===== src/Security/Rotation.antt =====
-- What a change of the encryption key of zongo/libs/security/src/security.service.ts keeps.
use zongo_v.Prelude.{
  ap, ◌∙◌, Bool, Option, str_eq, ◌≡◌, refl, true, false, none, some, String, arith,
}
use zongo_v.Db.Monad.{ok}
use zongo_v.Db.Inversion.{check-ok}
use zongo_v.Security.Keys.{
  Runtime, EncryptionKey, current_key, key_for_version, read_encryption_key, read_key,
  assert_usable_version, current_version, key_name,
}
use zongo_v.Security.Envelope.{
  EncryptedValue, open_sealed, plaintext_of, sealed, encrypt_value, decrypt_value, reencrypt,
  assert_key,
}

-- What node documents of the cipher and of the encodings.
pub record Opens {B : Type 0} (rt : Runtime B) : Type 0 where
  pub unseal-seal :
      (key iv x : B) → rt.unseal key iv (rt.seal key iv x).1 (rt.seal key iv x).0 ≡ some x
  pub base64 : (x : B) → rt.from_base64 (rt.to_base64 x) ≡ x
  -- a decoded text is encoded to bytes that decode to it
  pub utf8 : (x : B) → rt.to_utf8 (rt.from_utf8 (rt.to_utf8 x)) ≡ rt.to_utf8 x

module _ {B : Type 0} (rt : Runtime B) where
  read_key-sized : (name : String) {b : B} → read_key rt name ≡ ok b → assert_key rt b ≡ ok tt
  unfolding read_key assert_key
  read_key-sized name {b} h = ground arith

  -- A key that is found under a version carries it, and has 32 bytes.
  key_for_version-inv :
      (purpose version : String) {k : EncryptionKey B}
      → key_for_version rt purpose version ≡ ok k
      → (k.version ≡ version) × (assert_key rt k.key ≡ ok tt)
  unfolding key_for_version read_encryption_key
  key_for_version-inv purpose version {k} h =
      let (_, _, h') = check-ok (assert_usable_version rt purpose version) _ h in
      let (b, found, e) = check-ok (read_key rt (key_name rt purpose version)) _ h' in
      let sized = read_key-sized _ found in
      let key : k.key ≡ b = ground (arith, e) in (ground (arith, e), rw key sized)

  -- A sealed value opens.
  decrypt_value-sealed :
      Opens rt
      → (value purpose : String) (k : EncryptionKey B) → rt.to_utf8 (rt.from_utf8 value) ≡ value
      → key_for_version rt purpose k.version ≡ ok k
      → assert_key rt k.key ≡ ok tt
      → decrypt_value rt (sealed rt k value) purpose ≡ ok value
  unfolding decrypt_value
  decrypt_value-sealed o value purpose k utf found sized =
      rw (found, sized, o.base64, o.base64, o.base64, o.unseal-seal, utf) refl

  plaintext_of-text :
      (o : Option B) {text : String} → plaintext_of rt o ≡ ok text → (b : B) × (text ≡ rt.to_utf8 b)
  plaintext_of-text (some b) h = (b, ground arith)
  plaintext_of-text none h = absurd (ground arith)

  -- A decrypted text is one that bytes decode to.
  decrypt_value-text :
      (algorithm : Bool) (value : EncryptedValue) (purpose : String) {text : String}
      → str_eq value.algorithm "aes-256-gcm" ≡ algorithm
      → decrypt_value rt value purpose ≡ ok text
      → (b : B) × (text ≡ rt.to_utf8 b)
  unfolding decrypt_value
  decrypt_value-text true value purpose {text} a h =
      let opened : open_sealed rt value purpose ≡ ok text = ground (arith, h, a) in
      let (k, _, h') = check-ok (key_for_version rt purpose value.key_version) _ opened in
      let (_, _, h'') = check-ok (assert_key rt k.key) _ h' in plaintext_of-text _ h''
  decrypt_value-text false value purpose a h = absurd (ground arith)

  -- Where a value decrypts and a current key is found, encrypting its text again returns a value
  -- that decrypts to the same text and names the current version of the key. The cipher and the
  -- encodings of the runtime open what they close.
  pub reencrypt-decrypt :
      Opens rt
      → (value : EncryptedValue) (purpose : String) {text : String} {k : EncryptionKey B}
      → decrypt_value rt value purpose ≡ ok text
      → current_key rt purpose ≡ ok k
      → (value' : EncryptedValue) × (reencrypt rt value purpose ≡ ok value')
        × (decrypt_value rt value' purpose ≡ ok text)
        × (value'.key_version ≡ current_version rt purpose)
  unfolding reencrypt encrypt_value current_key key_for_version
  reencrypt-decrypt o value purpose {text} {k} d found =
      let (b, t) = decrypt_value-text _ value purpose refl d in
      let utf : rt.to_utf8 (rt.from_utf8 text) ≡ text = rw t (o.utf8 b) in
      let (version, sized) = key_for_version-inv purpose (current_version rt purpose) found in
      let again : key_for_version rt purpose k.version ≡ ok k =
        ap (key_for_version rt purpose) version ∙ found in
      (
        sealed rt k text,
        rw (d, found, sized) refl,
        decrypt_value-sealed o text purpose k utf again sized,
        version,
      )
