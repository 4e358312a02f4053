-- ===== src/Security/RoundTrip.antt =====
-- Encryption and then decryption.
use aqap.Prelude.{
  String, Option, some, Result, ok, ◌≡◌, refl, ap, sym, ◌∙◌, Option-cases, Result-cases,
  ok_injective, inl, inr,
}
use aqap.Value.{Fields, get_field, get_field_or, truthy}
use aqap.Security.{
  Crypto, PayloadCipher, new_cipher, encrypt_payload, decrypt_payload, sealed_payload, decode_entry,
}

-- What the code relies on: `json.loads` reads what `json.dumps` wrote, base64 decodes what it
-- encoded, and AES-GCM opens what it sealed with the same key and nonce.
pub record IsSound {B W : Type 0} (c : Crypto B W) : Type 0 where
  pub loads-dumps : (p : Fields) (b : B) → c.dumps p ≡ ok b → c.loads b ≡ ok p
  pub decodes : (b : B) → c.of_base64 (c.to_base64 b) ≡ ok b
  pub opens :
      (key nonce plaintext : B) → c.unseal key nonce (c.seal key nonce plaintext) ≡ ok plaintext

module _ {B W : Type 0} (c : Crypto B W) (sound : IsSound c) where
  decrypt_sealed :
      (key nonce plaintext : B) (cipher : PayloadCipher B)
      → cipher.key ≡ some key
      → decrypt_payload c cipher (sealed_payload c (c.seal key nonce plaintext) nonce)
        ≡ c.loads plaintext
  unfolding decrypt_payload sealed_payload decode_entry get_field get_field_or truthy
  decrypt_sealed key nonce plaintext cipher known =
      rw
        (
          known,
          sound.decodes (c.seal key nonce plaintext),
          sound.decodes nonce,
          sound.opens key nonce plaintext,
        )
        refl

  -- Where the packages are sound, what a cipher made from a secret, or from none, encrypts without
  -- an exception, any cipher made from the same secret decrypts to the payload.
  pub decrypt_payload-encrypt_payload :
      (secret : Option String) (p q : Fields) (w w' : W)
      → encrypt_payload c (new_cipher c secret) p w ≡ (ok q, w')
      → decrypt_payload c (new_cipher c secret) q ≡ ok p
  unfolding encrypt_payload decrypt_payload
  decrypt_payload-encrypt_payload secret p q w w' sent =
      elim (Option-cases (new_cipher c secret).key) [
        | inl off ↦
            let same : p ≡ q = ok_injective p q (ap (λ r. r.0) (rw off at sent)) in
            rw off (ap (λ (z : Fields). ok z) (sym same))
        | inr (key, on) ↦ elim (Result-cases (c.dumps p)) [
          | inl (b, dumped) ↦
              let nonce = (c.random_nonce w).0 in
              let same : sealed_payload c (c.seal key nonce b) nonce ≡ q =
                ok_injective _ q (ap (λ r. r.0) (rw (on, encrypt_payload, dumped) at sent)) in
              ap (λ z. decrypt_payload c (new_cipher c secret) z) (sym same)
              ∙ decrypt_sealed key nonce b (new_cipher c secret) on
              ∙ sound.loads-dumps p b dumped
          | inr (e, failed) ↦
              cc (ap (λ (r : Result Fields × W). r.0) (rw (on, encrypt_payload, failed) at sent))
        ]
      ]
