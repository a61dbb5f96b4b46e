-- ===== src/Storage/Encrypted.antt =====
-- internal/storage/encryption.go and New of storage.go: contents are encrypted on their way into a
-- storage, and decrypted on their way out.
pub mod Laws
mod Tests
use achgateway.Base.{
  Text, txt, text_eq, to_lower, Error, Result, ok, err, errorf_w, Option, none, some, List, [], ◌∷◌,
  ◌++◌, if◌then◌else◌,
}
use achgateway.Storage.{Chest}
use achgateway.Storage.Filesystem.{Os, new_filesystem}

-- *cryptfs.FS of moov-io/cryptfs.
pub record CryptFs : Type 0 where
  pub reveal : Text → Result Text
  pub disfigure : Text → Result Text

module _ {S : Type 0} (underlying : Chest S) (crypt : Option CryptFs) where
  abbrev reveal_bytes : Text → Result Text
  reveal_bytes bs = elim crypt [ none ↦ ok bs | some fs ↦ fs.reveal bs ]

  unfoldable pub open_revealed : Text → S → Result Text
  open_revealed path s = elim (underlying.open_file path s) [
    | err e ↦ err e
    | ok bs ↦ reveal_bytes bs
  ]

  abbrev disfigure_bytes : Text → Result Text
  disfigure_bytes contents = elim crypt [ none ↦ ok contents | some fs ↦ fs.disfigure contents ]

  unfoldable pub write_disfigured : Text → Text → S → Option Error × S
  write_disfigured path contents s = elim (disfigure_bytes contents) [
    | err e ↦ (some e, s)
    | ok bytes ↦ underlying.write_file path bytes s
  ]

  unfoldable pub encrypted : Chest S
  unfolding open_revealed write_disfigured
  encrypted = record {
    open_file = open_revealed;
    glob = underlying.glob;
    read_dir = underlying.read_dir;
    replace_file = underlying.replace_file;
    replace_dir = underlying.replace_dir;
    mkdir_all = underlying.mkdir_all;
    rmdir_all = underlying.rmdir_all;
    write_file = write_disfigured;
  }

-- What New calls: base64.RawStdEncoding, cryptfs.NewAESCryptor, cryptfs.New, and SetCoder with
-- cryptfs.Base64().
pub record CryptLib : Type 1 where
  pub Cryptor : Type 0
  pub decode_string : Text → Result Text
  pub new_aes_cryptor : Text → Result Cryptor
  pub new_fs : Cryptor → Result CryptFs
  pub with_base64 : CryptFs → CryptFs

pub record StorageConfig : Type 0 where
  pub directory : Text
  pub aes_key : Option Text
  pub encoding : Text

module _ (lib : CryptLib) where
  unfoldable pub create_base64_aes_cryptor : Text → Result lib.Cryptor
  create_base64_aes_cryptor key = elim (lib.decode_string key) [
    | err e ↦ err e
    | ok decoded ↦ lib.new_aes_cryptor decoded
  ]

  -- The cryptfs for a key and the name of an encoding.
  unfoldable pub new_crypt : Text → Text → Result CryptFs
  unfolding create_base64_aes_cryptor text_eq
  new_crypt key encoding = elim (create_base64_aes_cryptor key) [
    | err e ↦ err (errorf_w (txt "error creating AES cryptor: ") e)
    | ok enc ↦ elim (lib.new_fs enc) [
      | err e ↦ err (errorf_w (txt "error creating cryptfs: ") e)
      | ok fs ↦ ok (if text_eq (to_lower encoding) (txt "base64") then lib.with_base64 fs else fs)
    ]
  ]

  unfoldable pub new_storage : {S : Type 0} → Os S → StorageConfig → S → Result (Chest S) × S
  unfolding encrypted
  new_storage os cfg s =
      let (made, t) = new_filesystem os cfg.directory s in
      (
        elim made [
          | err e ↦ err (errorf_w (txt "error initializing filesystem storage: ") e)
          | ok underlying ↦ elim cfg.aes_key [
            | none ↦ ok underlying
            | some key ↦ elim (new_crypt key cfg.encoding) [
              | err e ↦ err e
              | ok fs ↦ ok (encrypted underlying (some fs))
            ]
          ]
        ],
        t,
      )
