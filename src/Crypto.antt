-- ===== src/Crypto.antt =====
-- pkg/crypto/encrypt.go: encryption, and authenticated encryption by MAC-then-Encrypt.
pub mod Laws
pub mod Token
pub mod Examples
use go_base.Base.{
  ℕ, ◌-◌, ◌≡◌, Bool, true, false, ◌&&◌, Option, none, some, List, [], ◌∷◌, ◌++◌, String, ltb,
  length, take, drop, ◌==◌, Result, ok, err, ◌>>=◌, ◌>>◌, unless, if◌then◌else◌,
}

-- `slice_out_of_range` is the run-time panic of a slice expression.
pub data Error : Type 0 where
  cipher_too_short corrupted_message token_expired slice_out_of_range : Error
  library : String → Error

-- Bytes are their values; a string is its bytes.
abbrev pub Bytes : Type 0
Bytes = List ℕ

-- What is not in this repository: `aes.NewCipher` as a check of the key, the two streams of the CFB
-- mode, HMAC with SHA512/256, and a text encoding, with what their manuals say.
pub record Library : Type 0 where
  pub cipher : Bytes → Option Error
  pub encrypter : Bytes → Bytes → Bytes → Bytes
  pub decrypter : Bytes → Bytes → Bytes → Bytes
  pub decrypter-encrypter : (key iv p : Bytes) → decrypter key iv (encrypter key iv p) ≡ p
  pub length-decrypter : (key iv c : Bytes) → length (decrypter key iv c) ≡ length c
  pub hmac : Bytes → Bytes → Bytes
  pub length-hmac : (key p : Bytes) → length (hmac key p) ≡ 32

-- `hex` or `base64.URLEncoding`.
pub record Encoding : Type 0 where
  pub encode : Bytes → Bytes
  pub decode : Bytes → Result Error Bytes
  pub decode-encode : (b : Bytes) → decode (encode b) ≡ ok b

-- `aes.BlockSize` and `sha512.Size256`.
abbrev pub block_size : ℕ
block_size = 16

abbrev pub mac_size : ℕ
mac_size = 32

-- `hmac.Equal`.
abbrev pub equal : Bytes → Bytes → Bool
equal [] [] = true
equal [] (y ∷ ys) = false
equal (x ∷ xs) [] = false
equal (x ∷ xs) (y ∷ ys) = x == y && equal xs ys

module _ (lib : Library) where
  -- `random` is what `io.ReadFull(rand.Reader, iv)` gives.
  unfoldable pub encrypt : Result Error Bytes → Bytes → Bytes → Result Error Bytes
  encrypt random plain_text key = do
    unless (lib.cipher key) tt
    iv ← random
    ok (iv ++ lib.encrypter key iv plain_text)

  unfoldable pub decrypt : Bytes → Bytes → Result Error Bytes
  decrypt cipher_text key = do
    unless (lib.cipher key) tt
    if ltb (length cipher_text) block_size
        then err cipher_too_short
        else ok (lib.decrypter key (take block_size cipher_text) (drop block_size cipher_text))

  -- `Write` of a hash never fails.
  unfoldable pub seal : Result Error Bytes → Bytes → Bytes → Result Error Bytes
  unfolding encrypt
  seal random plain_text key = encrypt random (plain_text ++ lib.hmac key plain_text) key

  -- The part of `Unseal` after the decryption: a negative split point panics.
  pub check_mac : Bytes → Bytes → Result Error Bytes
  check_mac key message_and_mac =
      let split_point = length message_and_mac - mac_size in
      let message_mac = drop split_point message_and_mac in
      let plain_text = take split_point message_and_mac in
      if ltb (length message_and_mac) mac_size
      then err slice_out_of_range
      else if equal (lib.hmac key plain_text) message_mac
      then ok plain_text
      else err corrupted_message

  unfoldable pub unseal : Bytes → Bytes → Result Error Bytes
  unfolding decrypt check_mac
  unseal cipher_text key = decrypt cipher_text key >>= check_mac key

  module _ (encoding : Encoding) where
    -- `EncryptToString` with hex, and `DecryptFromString`.
    unfoldable pub encrypt_to_string : Result Error Bytes → Bytes → Bytes → Result Error Bytes
    unfolding encrypt
    encrypt_to_string random plain_text key = do
      bytes ← encrypt random plain_text key
      ok (encoding.encode bytes)

    unfoldable pub decrypt_from_string : Bytes → Bytes → Result Error Bytes
    unfolding decrypt
    decrypt_from_string text key = encoding.decode text >>= λ cipher_text. decrypt cipher_text key

    -- `SealToString` with base64, and `UnsealFromString`.
    unfoldable pub seal_to_string : Result Error Bytes → Bytes → Bytes → Result Error Bytes
    unfolding seal
    seal_to_string random plain_text key = do
      bytes ← seal random plain_text key
      ok (encoding.encode bytes)

    unfoldable pub unseal_from_string : Bytes → Bytes → Result Error Bytes
    unfolding unseal
    unseal_from_string text key = encoding.decode text >>= λ cipher_text. unseal cipher_text key
