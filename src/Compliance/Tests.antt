-- ===== src/Compliance/Tests.antt =====
-- The round trip of messages with codecs that put a byte in front.
use achgateway.Base.{
  ℕ, zero, suc, length, Text, txt, Result, ok, err, true, false, none, some, [], ◌∷◌, ◌≡◌, ◌∙◌, sym,
  refl, ap,
}
use achgateway.Compliance.{
  TransformConfig, Codecs, drop, new_cryptor, new_coder, gcm_of, encrypt_with, encrypt, encode,
  protect, reveal,
}
use achgateway.Compliance.Laws.{IsCodecs, reveal-protect}

abbrev zeros : ℕ → Text
zeros zero = []
zeros (suc n) = 0 ∷ zeros n

length-zeros : (n : ℕ) → length (zeros n) ≡ n
length-zeros zero = refl
length-zeros (suc n) = ap suc (length-zeros n)

abbrev toy : Codecs
toy = record {
  Block = Text;
  Gcm = Text;
  new_cipher = λ key. ok key;
  new_gcm = λ key. ok key;
  nonce_size = λ key. 2;
  random = λ n. ok (zeros n);
  seal = λ key nonce bytes. 7 ∷ bytes;
  unseal = λ key nonce message. ok (drop 1 message);
  gzip_write = λ bytes. none;
  gzip_close = λ bytes. none;
  gzip_bytes = λ bytes. 31 ∷ bytes;
  gzip_open = λ bytes. none;
  is_header_error = λ e. false;
  gzip_read = λ bytes. (drop 1 bytes, none);
  base64_encode = λ bytes. 64 ∷ bytes;
  base64_decode = λ bytes. ok (drop 1 bytes);
}

ok_inj : {x y : Text} → ok x ≡ ok y → x ≡ y
ok_inj {x} h = ap (λ (r : Result Text). elim r [ ok a ↦ a | err e ↦ x ]) h

toy-IsCodecs : IsCodecs toy
toy-IsCodecs = record {
  random-length = λ n {nonce} h. ap length (sym (ok_inj h)) ∙ length-zeros n;
  unseal-seal = λ key nonce bytes size. refl;
  gzip_open-bytes = λ bytes. refl;
  gzip_read-bytes = λ bytes. refl;
  base64_decode-encode = λ bytes. refl;
}

abbrev cfg : TransformConfig
cfg = record {
  encoding = some (record { base64 = true; compress = false });
  encryption = some (record { aes = some (record { key = txt "key" }) });
}

abbrev sent : Text
sent = 64 ∷ 0 ∷ 0 ∷ 7 ∷ txt "event"

runs_protect : protect toy (some cfg) (ok (txt "event")) ≡ ok sent
unfolding protect encrypt encrypt_with gcm_of encode new_coder new_cryptor
runs_protect = refl

reveal-protect_example : reveal toy (some cfg) sent ≡ ok (txt "event")
reveal-protect_example = reveal-protect toy toy-IsCodecs (some cfg) (txt "event") runs_protect
