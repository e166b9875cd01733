-- ===== src/Crypto/Examples.antt =====
-- pkg/crypto: sealing a concrete message, with a toy cipher and MAC of the right lengths.
use go_base.Base.{
  ℕ, ◌+◌, ◌-◌, ◌≡◌, ◌≤◌, ◌<◌, ◌↔◌, refl, none, [], ◌∷◌, ◌++◌, map, length, Result, ok, err, arith,
}
use go_base.Crypto.{
  Error, cipher_too_short, token_expired, Bytes, Library, Encoding, decrypt, seal, unseal,
}
use go_base.Crypto.Laws.{unseal-seal, unseal_ok_iff}
use go_base.Crypto.Token.{
  Token, Gob, generate_token, decode_and_verify_token, decode_and_verify-generate,
}

abbrev block : Bytes
block = 1 ∷ 2 ∷ 3 ∷ 4 ∷ 5 ∷ 6 ∷ 7 ∷ 8 ∷ 9 ∷ 10 ∷ 11 ∷ 12 ∷ 13 ∷ 14 ∷ 15 ∷ 16 ∷ []

abbrev sum : Bytes → ℕ
sum [] = 0
sum (x ∷ xs) = x + sum xs

shifted : Bytes → Bytes
shifted = map (λ x. x + 1)

unshifted : Bytes → Bytes
unshifted = map (λ x. x - 1)

unshifted-shifted : (b : Bytes) → unshifted (shifted b) ≡ b
unfolding shifted unshifted
unshifted-shifted [] = refl
unshifted-shifted (x ∷ xs) =
    let e : (x + 1) - 1 ≡ x = omega arith in let ih = unshifted-shifted xs in λ i. e i ∷ ih i

length-unshifted : (b : Bytes) → length (unshifted b) ≡ length b
unfolding unshifted
length-unshifted [] = refl
length-unshifted (x ∷ xs) = omega (arith, length-unshifted xs)

-- Every byte is shifted by one, and the MAC is 31 fixed bytes and the sum of the message.
abbrev lib : Library
lib = record {
  cipher = λ key. none;
  encrypter = λ key iv p. shifted p;
  decrypter = λ key iv c. unshifted c;
  decrypter-encrypter = λ key iv p. unshifted-shifted p;
  length-decrypter = λ key iv c. length-unshifted c;
  hmac = λ key p.
      sum p ∷ (block ++ (0 ∷ 1 ∷ 2 ∷ 3 ∷ 4 ∷ 5 ∷ 6 ∷ 7 ∷ 8 ∷ 9 ∷ 10 ∷ 11 ∷ 12 ∷ 13 ∷ 14 ∷ []));
  length-hmac = λ key p. refl;
}

abbrev plain : Encoding
plain = record { encode = λ b. b; decode = λ b. ok b; decode-encode = λ b. refl }

-- A token is written as its time and its data.
abbrev read_token : Bytes → Result Error Token
read_token [] = err cipher_too_short
read_token (t ∷ d) = ok record { data_ = d; created_at = t }

abbrev write_token : Token → Result Error Bytes
write_token t = ok (t.created_at ∷ t.data_)

read_back : (t : Token) (b : Bytes) → write_token t ≡ ok b → read_token b ≡ ok t
read_back t b e = ground arith

abbrev gob : Gob
gob = record { encode = write_token; decode = read_token; decode-encode = read_back }

abbrev message : Bytes
message = 104 ∷ 105 ∷ []

abbrev sealed : Bytes
sealed = block ++ shifted (message ++ lib.hmac [] message)

seal_test : seal lib (ok block) message [] ≡ ok sealed
unfolding seal
seal_test = refl

unseal-seal_example : unseal lib sealed [] ≡ ok message
unseal-seal_example = unseal-seal lib block message [] refl seal_test

unseal_ok_iff_example :
    (unseal lib sealed [] ≡ ok message)
    ↔ (decrypt lib sealed [] ≡ ok (message ++ lib.hmac [] message))
unseal_ok_iff_example = unseal_ok_iff lib sealed [] message

abbrev token : Bytes
token = block ++ shifted ((100 ∷ message) ++ lib.hmac [] (100 ∷ message))

decode_and_verify-generate_example :
    ((150 ≤ 160) ↔ (decode_and_verify_token lib plain gob 150 token [] 60 ≡ ok message))
    × ((160 < 150) ↔ (decode_and_verify_token lib plain gob 150 token [] 60 ≡ err token_expired))
unfolding generate_token
decode_and_verify-generate_example =
    decode_and_verify-generate lib plain gob 100 150 60 block message [] refl refl
