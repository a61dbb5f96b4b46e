-- ===== src/Compliance.antt =====
-- pkg/compliance: messages are encrypted and encoded before they are sent, and decoded and decrypted
-- when they come in. The packages crypto/aes, crypto/cipher, compress/gzip and encoding/base64 are
-- not part of the repository: `Codecs` has the calls that are made of them.
pub mod Laws
mod Tests
use achgateway.Base.{
  ℕ, zero, suc, length, Text, txt, ltb, Error, new_error, errorf_v, Result, ok, err, Bool, true,
  false, Option, none, some, List, [], ◌∷◌, ◌++◌, if◌then◌else◌,
}

-- pkg/models/model_transform.go
pub record EncodingConfig : Type 0 where
  pub base64 : Bool
  pub compress : Bool

pub record AesConfig : Type 0 where
  pub key : Text

pub record EncryptionConfig : Type 0 where
  pub aes : Option AesConfig

pub record TransformConfig : Type 0 where
  pub encoding : Option EncodingConfig
  pub encryption : Option EncryptionConfig

-- `random` is what rand.Reader gives for a number of bytes, `gzip_open` the error of gzip.NewReader
-- and `gzip_read` what io.ReadAll reads from it.
pub record Codecs : Type 1 where
  pub Block : Type 0
  pub Gcm : Type 0
  pub new_cipher : Text → Result Block
  pub new_gcm : Block → Result Gcm
  pub nonce_size : Gcm → ℕ
  pub random : ℕ → Result Text
  pub seal : Gcm → Text → Text → Text
  pub unseal : Gcm → Text → Text → Result Text
  pub gzip_write : Text → Option Error
  pub gzip_close : Text → Option Error
  pub gzip_bytes : Text → Text
  pub gzip_open : Text → Option Error
  pub is_header_error : Error → Bool
  pub gzip_read : Text → Text × Option Error
  pub base64_encode : Text → Text
  pub base64_decode : Text → Result Text

pub data Cryptor : Type 0 where
  mock_cryptor : Cryptor
  aes_cryptor : AesConfig → Cryptor

pub data Coder : Type 0 where
  mock_coder gzip_coder base64_coder : Coder

unfoldable pub new_cryptor : Option EncryptionConfig → Result Cryptor
new_cryptor none = ok mock_cryptor
new_cryptor (some cfg) = elim cfg.aes [
  | some aes ↦ ok (aes_cryptor aes)
  | none ↦ err (new_error (txt "unknown encryption"))
]

unfoldable pub new_coder : Option EncodingConfig → Result Coder
new_coder none = ok mock_coder
new_coder (some cfg) =
    if cfg.compress
    then ok gzip_coder
    else if cfg.base64
    then ok base64_coder
    else err (new_error (txt "unknown coding"))

-- data[:n] and data[n:]
abbrev pub take : ℕ → Text → Text
take zero bytes = []
take (suc n) [] = []
take (suc n) (c ∷ bytes) = c ∷ take n bytes

abbrev pub drop : ℕ → Text → Text
drop zero bytes = bytes
drop (suc n) [] = []
drop (suc n) (c ∷ bytes) = drop n bytes

-- `return nil, err` in the calls that follow one that failed
abbrev pub and_then : {A B : Type 0} → Result A → (A → Result B) → Result B
and_then (ok a) f = f a
and_then (err e) f = err e

module _ (lib : Codecs) where
  unfoldable pub gcm_of : AesConfig → Result lib.Gcm
  gcm_of cfg = and_then (lib.new_cipher cfg.key) lib.new_gcm

  unfoldable pub encrypt_with : lib.Gcm → Text → Result Text
  encrypt_with gcm bytes =
      and_then (lib.random (lib.nonce_size gcm)) (λ nonce. ok (nonce ++ lib.seal gcm nonce bytes))

  unfoldable pub encrypt : Cryptor → Text → Result Text
  encrypt mock_cryptor bytes = ok bytes
  encrypt (aes_cryptor cfg) bytes = and_then (gcm_of cfg) (λ gcm. encrypt_with gcm bytes)

  unfoldable pub decrypt_with : lib.Gcm → Text → Result Text
  decrypt_with gcm ciphertext =
      let n = lib.nonce_size gcm in
      if ltb (length ciphertext) n
      then err (new_error (txt "nonce is too small"))
      else lib.unseal gcm (take n ciphertext) (drop n ciphertext)

  unfoldable pub decrypt : Cryptor → Text → Result Text
  decrypt mock_cryptor bytes = ok bytes
  decrypt (aes_cryptor cfg) ciphertext = and_then (gcm_of cfg) (λ gcm. decrypt_with gcm ciphertext)

  unfoldable pub gzip : Text → Result Text
  gzip bytes = elim (lib.gzip_write bytes) [
    | some e ↦ err (errorf_v (txt "gzip encode: ") e)
    | none ↦ elim (lib.gzip_close bytes) [
      | some e ↦ err (errorf_v (txt "gzip close: ") e)
      | none ↦ ok (lib.gzip_bytes bytes)
    ]
  ]

  -- What has no gzip header is taken as it is.
  unfoldable pub gunzip : Text → Result Text
  gunzip bytes = elim (lib.gzip_open bytes) [
    | some e ↦ if lib.is_header_error e then ok bytes else err (errorf_v (txt "gzip decoder: ") e)
    | none ↦ elim (lib.gzip_read bytes).1 [
      | some e ↦ err (errorf_v (txt "gzip readall: ") e)
      | none ↦ ok (lib.gzip_read bytes).0
    ]
  ]

  unfoldable pub encode : Coder → Text → Result Text
  encode mock_coder bytes = ok bytes
  encode gzip_coder bytes = gzip bytes
  encode base64_coder bytes = ok (lib.base64_encode bytes)

  unfoldable pub decode : Coder → Text → Result Text
  decode mock_coder bytes = ok bytes
  decode gzip_coder bytes = gunzip bytes
  decode base64_coder bytes = lib.base64_decode bytes

  -- json.Marshal(evt) comes first: its result is an argument.
  unfoldable pub protect : Option TransformConfig → Result Text → Result Text
  protect none marshaled = marshaled
  protect (some cfg) marshaled = and_then marshaled (λ bytes.
      and_then (new_cryptor cfg.encryption) (λ cc.
        and_then (encrypt cc bytes) (λ bs. and_then (new_coder cfg.encoding) (λ ec. encode ec bs))))

  unfoldable pub reveal : Option TransformConfig → Text → Result Text
  reveal none bytes = ok bytes
  reveal (some cfg) bytes = and_then (new_coder cfg.encoding) (λ ec.
      and_then (decode ec bytes)
        (λ bs. and_then (new_cryptor cfg.encryption) (λ cc. decrypt cc bs)))
