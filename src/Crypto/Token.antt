-- ===== src/Crypto/Token.antt =====
-- pkg/crypto/generate.go: sealed tokens with a lifetime.
use go_base.Base.{
  ℕ, ◌+◌, ◌≡◌, ◌≤◌, ◌<◌, ◌∙◌, ltb, length, Result, ok, err, ◌>>=◌, >>=-eq-ok, >>=_ok, arith, ◌↔◌,
  if◌then◌else◌,
}
use go_base.Crypto.{
  Error, token_expired, Bytes, Library, Encoding, seal_to_string, unseal_from_string,
}
use go_base.Crypto.Laws.{unseal_from_string-seal_to_string}

pub record Token : Type 0 where
  pub data_ : Bytes
  pub created_at : ℕ

-- `encoding/gob` of a token.
pub record Gob : Type 0 where
  pub encode : Token → Result Error Bytes
  pub decode : Bytes → Result Error Token
  pub decode-encode : (t : Token) (b : Bytes) → encode t ≡ ok b → decode b ≡ ok t

module _ (lib : Library) (base64 : Encoding) (gob : Gob) where
  unfoldable pub generate_token : ℕ → Result Error Bytes → Bytes → Bytes → Result Error Bytes
  unfolding seal_to_string
  generate_token now random data_ key = do
    b ← gob.encode record { data_ = data_; created_at = now }
    seal_to_string lib base64 random b key

  abbrev pub verify : ℕ → ℕ → Token → Result Error Bytes
  verify now lifetime t =
      if ltb (t.created_at + lifetime) now then err token_expired else ok t.data_

  unfoldable pub decode_and_verify_token : ℕ → Bytes → Bytes → ℕ → Result Error Bytes
  unfolding unseal_from_string
  decode_and_verify_token now token_str key lifetime = do
    plain_text ← unseal_from_string lib base64 token_str key
    t ← gob.decode plain_text
    verify now lifetime t

  decode-generate :
      (created now lifetime : ℕ) (iv d key : Bytes) {s : Bytes}
      → length iv ≡ 16
      → generate_token created (ok iv) d key ≡ ok s
      → decode_and_verify_token now s key lifetime
        ≡ verify now lifetime record { data_ = d; created_at = created }
  unfolding generate_token decode_and_verify_token
  decode-generate created now lifetime iv d key l h =
      let (b, e, h') = >>=-eq-ok (gob.encode record { data_ = d; created_at = created }) _ h in
      let u = unseal_from_string-seal_to_string lib base64 iv b key l h' in
      >>=_ok (λ p. gob.decode p >>= verify now lifetime) u
      ∙ >>=_ok (verify now lifetime) (gob.decode-encode _ b e)

  -- A token that was generated with 16 random bytes gives its data back exactly as long as its
  -- lifetime is not over, and is refused as expired exactly from then on.
  pub decode_and_verify-generate :
      (created now lifetime : ℕ) (iv d key : Bytes) {s : Bytes}
      → length iv ≡ 16
      → generate_token created (ok iv) d key ≡ ok s
      → ((now ≤ created + lifetime) ↔ (decode_and_verify_token now s key lifetime ≡ ok d))
        × ((created + lifetime < now)
            ↔ (decode_and_verify_token now s key lifetime ≡ err token_expired))
  decode_and_verify-generate created now lifetime iv d key l h =
      let e = decode-generate created now lifetime iv d key l h in ground arith
