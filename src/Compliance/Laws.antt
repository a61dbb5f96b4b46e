-- ===== src/Compliance/Laws.antt =====
-- The round trip of messages through pkg/compliance.
use achgateway.Base.{
  ℕ, length, length-append, Text, Result, ok, err, Option, none, some, [], ◌∷◌, ◌++◌, ◌≡◌, refl,
  sym, ap, subst, ◌∙◌, arith,
}
use achgateway.Compliance.{
  TransformConfig, Codecs, Cryptor, mock_cryptor, aes_cryptor, Coder, mock_coder, gzip_coder,
  base64_coder, take, drop, and_then, new_cryptor, new_coder, gcm_of, encrypt_with, decrypt_with,
  encrypt, decrypt, gzip, gunzip, encode, decode, protect, reveal,
}

-- The documented behaviour of the packages: what was sealed, compressed or encoded comes back, and
-- rand.Reader gives as many bytes as were asked for.
pub record IsCodecs (lib : Codecs) : Type 0 where
  pub random-length : (n : ℕ) {nonce : Text} → lib.random n ≡ ok nonce → length nonce ≡ n
  pub unseal-seal :
      (gcm : lib.Gcm) (nonce bytes : Text)
      → length nonce ≡ lib.nonce_size gcm
      → lib.unseal gcm nonce (lib.seal gcm nonce bytes) ≡ ok bytes
  pub gzip_open-bytes : (bytes : Text) → lib.gzip_open (lib.gzip_bytes bytes) ≡ none
  pub gzip_read-bytes : (bytes : Text) → lib.gzip_read (lib.gzip_bytes bytes) ≡ (bytes, none)
  pub base64_decode-encode : (bytes : Text) → lib.base64_decode (lib.base64_encode bytes) ≡ ok bytes

take-append : (xs ys : Text) → take (length xs) (xs ++ ys) ≡ xs
take-append [] ys = refl
take-append (x ∷ xs) ys = ap (λ r. x ∷ r) (take-append xs ys)

drop-append : (xs ys : Text) → drop (length xs) (xs ++ ys) ≡ ys
drop-append [] ys = refl
drop-append (x ∷ xs) ys = drop-append xs ys

-- A chain that gives a value got through its first call.
and_then-ok :
    {A B : Type 0} (r : Result A) (f : A → Result B) {b : B}
    → and_then r f ≡ ok b
    → (a : A) × (r ≡ ok a) × (f a ≡ ok b)
and_then-ok (ok a) f h = (a, refl, h)
and_then-ok (err e) f h = absurd (cc h)

module _ (lib : Codecs) (L : IsCodecs lib) where
  decrypt_with-append :
      (gcm : lib.Gcm) (nonce message : Text)
      → length nonce ≡ lib.nonce_size gcm
      → decrypt_with lib gcm (nonce ++ message) ≡ lib.unseal gcm nonce message
  unfolding decrypt_with
  decrypt_with-append gcm nonce message size = rw (sym size) (
      ground
        (arith, take-append nonce message, drop-append nonce message, length-append nonce message))

  decrypt_with-encrypt_with :
      (gcm : lib.Gcm) (bytes : Text) {sealed : Text}
      → encrypt_with lib gcm bytes ≡ ok sealed
      → decrypt_with lib gcm sealed ≡ ok bytes
  unfolding encrypt_with
  decrypt_with-encrypt_with gcm bytes {sealed} h =
      let (nonce, drawn, h1) = and_then-ok (lib.random (lib.nonce_size gcm)) _ h in
      let size = L.random-length (lib.nonce_size gcm) drawn in
      let whole : nonce ++ lib.seal gcm nonce bytes ≡ sealed = ground (arith, h1) in
      subst (λ c. decrypt_with lib gcm c ≡ ok bytes) whole
        (decrypt_with-append gcm nonce (lib.seal gcm nonce bytes) size
          ∙ L.unseal-seal gcm nonce bytes size)

  decrypt-encrypt :
      (c : Cryptor) (bytes : Text) {sealed : Text}
      → encrypt lib c bytes ≡ ok sealed
      → decrypt lib c sealed ≡ ok bytes
  unfolding encrypt decrypt
  decrypt-encrypt mock_cryptor bytes h = sym h
  decrypt-encrypt (aes_cryptor cfg) bytes h =
      let (gcm, made, h1) = and_then-ok (gcm_of lib cfg) _ h in
      rw made (decrypt_with-encrypt_with gcm bytes h1)

  decode-encode :
      (c : Coder) (bytes : Text) {encoded : Text}
      → encode lib c bytes ≡ ok encoded
      → decode lib c encoded ≡ ok bytes
  unfolding encode decode gzip gunzip
  decode-encode mock_coder bytes h = sym h
  decode-encode gzip_coder bytes h =
      ground (arith, h, L.gzip_open-bytes bytes, L.gzip_read-bytes bytes)
  decode-encode base64_coder bytes h = ground (arith, h, L.base64_decode-encode bytes)

  -- With ciphers, compression and an encoding that give back what they were given, a message that
  -- was protected is revealed again, with the same configuration, as the JSON that its event was
  -- marshaled to.
  pub reveal-protect :
      (cfg : Option TransformConfig) (bytes : Text) {sent : Text}
      → protect lib cfg (ok bytes) ≡ ok sent
      → reveal lib cfg sent ≡ ok bytes
  unfolding protect reveal
  reveal-protect none bytes h = sym h
  reveal-protect (some cfg) bytes {sent} h =
      let (cc, made, h1) = and_then-ok (new_cryptor cfg.encryption) _ h in
      let (bs, sealed, h2) = and_then-ok (encrypt lib cc bytes) _ h1 in
      let (ec, found, h3) = and_then-ok (new_coder cfg.encoding) _ h2 in
      rw (found, decode-encode ec bs h3, made) (decrypt-encrypt cc bytes sealed)
