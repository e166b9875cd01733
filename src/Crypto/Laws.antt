-- ===== src/Crypto/Laws.antt =====
-- pkg/crypto/encrypt.go: what is encrypted or sealed comes back, and what unsealing accepts.
use go_base.Base.{
  ◌-◌, ◌≡◌, ◌≤◌, ◌<◌, refl, sym, ap, ◌∙◌, true, false, none, [], ◌∷◌, ◌++◌, Bool-cases, inl, inr,
  ltb, length, take, drop, take-append, drop-append, take-drop, length-drop, length-append, ◌==◌,
  ==_iff, ok, err, >>=-eq-ok, >>=_ok, unless, arith, ◌↔◌,
}
use go_base.Crypto.{
  slice_out_of_range, Bytes, Library, Encoding, equal, encrypt, decrypt, seal, check_mac, unseal,
  seal_to_string, unseal_from_string,
}

equal_self : (b : Bytes) → equal b b ≡ true
equal_self [] = refl
equal_self (x ∷ xs) = ground (arith, ==_iff x x, equal_self xs)

equal-eq : (a b : Bytes) → equal a b ≡ true → a ≡ b
equal-eq [] [] h = refl
equal-eq [] (y ∷ ys) h = absurd (cc)
equal-eq (x ∷ xs) [] h = absurd (cc)
equal-eq (x ∷ xs) (y ∷ ys) h = elim (Bool-cases (x == y)) [
  | inl e ↦ let i = (==_iff x y).0 e in let j = equal-eq xs ys (ground arith) in λ k. i k ∷ j k
  | inr e ↦ absurd (ground arith)
]

module _ (lib : Library) where
  -- What `Encrypt` made of a plain text with 16 random bytes is decrypted with the same key to that
  -- text.
  pub decrypt-encrypt :
      (iv plain_text key : Bytes) {c : Bytes}
      → length iv ≡ 16
      → encrypt lib (ok iv) plain_text key ≡ ok c
      → decrypt lib c key ≡ ok plain_text
  unfolding encrypt decrypt
  decrypt-encrypt iv p key {c} l h =
      let (_, k, h') = >>=-eq-ok (unless (lib.cipher key) tt) _ h in
      let e : iv ++ lib.encrypter key iv p ≡ c = ground arith in
      let long : ltb (length c) 16 ≡ false =
        ground (arith, ap length (sym e), length-append iv (lib.encrypter key iv p)) in
      let first = ap (take 16) (sym e) ∙ take-append 16 iv _ l in
      let last = ap (drop 16) (sym e) ∙ drop-append 16 iv _ l in
      >>=_ok _ k ∙ rw (long, first, last) (ap ok (lib.decrypter-encrypter key iv p))

  split-mac :
      (p mac : Bytes)
      → length mac ≡ 32
      → (take (length (p ++ mac) - 32) (p ++ mac) ≡ p)
        × (drop (length (p ++ mac) - 32) (p ++ mac) ≡ mac)
  split-mac p mac l =
      let n : length p ≡ length (p ++ mac) - 32 = omega (arith, length-append p mac) in
      (take-append _ p mac n, drop-append _ p mac n)

  check_mac_sealed : (key p : Bytes) → check_mac lib key (p ++ lib.hmac key p) ≡ ok p
  unfolding check_mac
  check_mac_sealed key p =
      let mac = lib.hmac key p in
      let (first, last) = split-mac p mac (lib.length-hmac key p) in
      let long : ltb (length (p ++ mac)) 32 ≡ false =
        ground (arith, length-append p mac, lib.length-hmac key p) in
      rw (long, first, last, equal_self mac)

  -- What `Seal` made of a plain text with 16 random bytes is unsealed with the same key to that
  -- text.
  pub unseal-seal :
      (iv plain_text key : Bytes) {c : Bytes}
      → length iv ≡ 16
      → seal lib (ok iv) plain_text key ≡ ok c
      → unseal lib c key ≡ ok plain_text
  unfolding seal unseal
  unseal-seal iv p key l h =
      >>=_ok _ (decrypt-encrypt iv (p ++ lib.hmac key p) key l h) ∙ check_mac_sealed key p

  -- Unsealing returns a plain text exactly when what is decrypted is that text followed by its MAC.
  pub unseal_ok_iff :
      (c key plain_text : Bytes)
      → (unseal lib c key ≡ ok plain_text)
        ↔ (decrypt lib c key ≡ ok (plain_text ++ lib.hmac key plain_text))
  unfolding unseal check_mac
  unseal_ok_iff c key p = (
    λ h.
        let (m, e, h') = >>=-eq-ok (decrypt lib c key) (check_mac lib key) h in
        e ∙ ap ok (accepted m h'),
    λ h. >>=_ok (check_mac lib key) h ∙ check_mac_sealed key p,
  )
    where
      accepted : (m : Bytes) → check_mac lib key m ≡ ok p → m ≡ p ++ lib.hmac key p
      accepted m h =
          let n = length m - 32 in
          elim (Bool-cases (equal (lib.hmac key (take n m)) (drop n m))) [
            | inl same ↦
                let first : take n m ≡ p = ground arith in
                let last = equal-eq _ _ same in
                sym (take-drop n m)
                ∙ (λ i. first i ++ sym last i)
                ∙ (λ i. p ++ lib.hmac key (first i))
            | inr differs ↦ absurd (ground arith)
          ]

  -- A cipher text of 16 to 47 bytes makes `Unseal` panic, whatever the bytes are, where the key is
  -- one that AES takes.
  pub unseal_short :
      (c key : Bytes)
      → lib.cipher key ≡ none
      → 16 ≤ length c
      → length c < 48
      → unseal lib c key ≡ err slice_out_of_range
  unfolding unseal decrypt check_mac
  unseal_short c key k lo hi =
      let long : ltb (length c) 16 ≡ false = ground arith in
      let m = lib.decrypter key (take 16 c) (drop 16 c) in
      let short : ltb (length m) 32 ≡ true =
        ground (arith, lib.length-decrypter key (take 16 c) (drop 16 c), length-drop 16 c) in
      rw (k, long, short)

  -- What `SealToString` made of a plain text with 16 random bytes is unsealed from the string with
  -- the same key to that text.
  pub unseal_from_string-seal_to_string :
      (encoding : Encoding) (iv plain_text key : Bytes) {t : Bytes}
      → length iv ≡ 16
      → seal_to_string lib encoding (ok iv) plain_text key ≡ ok t
      → unseal_from_string lib encoding t key ≡ ok plain_text
  unfolding seal_to_string unseal_from_string
  unseal_from_string-seal_to_string encoding iv p key {t} l h =
      let (c, s, h') = >>=-eq-ok (seal lib (ok iv) p key) _ h in
      let e : encoding.encode c ≡ t = ground arith in
      ap (λ u. unseal_from_string lib encoding u key) (sym e)
      ∙ >>=_ok (λ d. unseal lib d key) (encoding.decode-encode c)
      ∙ unseal-seal iv p key l s
