-- ===== src/Security.antt =====
-- aqap/core/security.py. The package `cryptography`, `json`, `base64` and the random source are
-- parameters: the record `Crypto`. The source imports `HKDF` and `AESGCM` together, so that a cipher
-- which is enabled has its key from `HKDF`.
pub mod RoundTrip
use aqap.Prelude.{
  ℕ, String, Bool, true, false, Option, none, some, List, Result, ok, err, Exc, type_error,
  key_error, bind, ◌==◌, if◌then◌else◌,
}
use aqap.Value.{
  Value, null, bool, int, float, str, arr, obj, Fields, end, field, get_field, get_field_or, truthy,
}

-- `B` is the type of byte strings.
pub record Crypto (B W : Type 0) : Type 0 where
  pub available : Bool
  pub encode : String → B
  pub hkdf : B → B → B
  pub dumps : Fields → Result B
  pub loads : B → Result Fields
  pub random_nonce : W → B × W
  pub seal : B → B → B → B
  pub unseal : B → B → B → Result B
  pub to_base64 : B → String
  pub of_base64 : String → Result B

-- `_enabled` and `_key`: the key is set exactly where the cipher is enabled.
pub record PayloadCipher (B : Type 0) : Type 0 where
  pub key : Option B

-- base64.b64decode(payload[k])
unfoldable pub decode_entry : {B W : Type 0} → Crypto B W → String → Fields → Result B
decode_entry c k payload = elim (get_field k payload) [
  | none ↦ err key_error
  | some v ↦ elim v [
    | null ↦ err type_error
    | bool b ↦ err type_error
    | int n ↦ err type_error
    | float x ↦ err type_error
    | str s ↦ c.of_base64 s
    | arr vs ↦ err type_error
    | obj fs ↦ err type_error
  ]
]

-- `_derive_key_bytes`, where HKDF is there: `info` is the text of the first argument
unfoldable derive_key_bytes : {B W : Type 0} → Crypto B W → String → B
derive_key_bytes c secret = c.hkdf (c.encode "aqap-payload-key") (c.encode secret)

unfoldable pub sealed_payload : {B W : Type 0} → Crypto B W → B → B → Fields
sealed_payload c ciphertext nonce = field "_encrypted" (bool true) (
    field "_ciphertext" (str (c.to_base64 ciphertext))
      (field "_nonce" (str (c.to_base64 nonce)) end))

module _ {B W : Type 0} (c : Crypto B W) where
  -- PayloadCipher(secret); an empty secret is none
  unfoldable pub new_cipher : Option String → PayloadCipher B
  unfolding derive_key_bytes
  new_cipher none = record { key = none }
  new_cipher (some secret) =
      if secret == ""
      then record { key = none }
      else if c.available
      then record { key = some (derive_key_bytes c secret) }
      else record { key = none }

  unfoldable pub encrypt_payload : PayloadCipher B → Fields → W → Result Fields × W
  unfolding sealed_payload
  encrypt_payload cipher payload w = elim cipher.key [
    | none ↦ (ok payload, w)
    | some key ↦ elim (c.dumps payload) [
      | err e ↦ (err e, w)
      | ok plaintext ↦
          let (nonce, w') = c.random_nonce w in
          (ok (sealed_payload c (c.seal key nonce plaintext) nonce), w')
    ]
  ]

  unfoldable pub decrypt_payload : PayloadCipher B → Fields → Result Fields
  unfolding decode_entry truthy
  decrypt_payload cipher payload = elim cipher.key [
    | none ↦ ok payload
    | some key ↦
        if truthy (get_field_or "_encrypted" null payload)
        then bind (decode_entry c "_ciphertext" payload) (λ ciphertext.
          bind (decode_entry c "_nonce" payload)
            (λ nonce. bind (c.unseal key nonce ciphertext) (λ plaintext. c.loads plaintext)))
        else ok payload
  ]
