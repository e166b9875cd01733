-- ===== src/Casing/Pascal.antt =====
-- pkg/strings/casing.go: a name in pascal case.
use go_base.Base.{
  ℕ, ◌≡◌, ◌⊎◌, refl, sym, ap, ◌∙◌, Bool, true, false, ◌&&◌, ◌||◌, [], ◌∷◌, Bool-cases, inl, inr,
  arith,
}
use go_base.Casing.{Unicode, Runes, is_word, pascal, to_pascal_case}

abbrev pub all_words : Unicode → Runes → Bool
all_words u [] = true
all_words u (r ∷ rs) = is_word u r && all_words u rs

module _ (u : Unicode) where
  pascal-all_words : (f up : Bool) (rs : Runes) → all_words u (pascal u f up rs) ≡ true
  unfolding pascal
  pascal-all_words f up [] = refl
  pascal-all_words f up (r ∷ rs) = elim (Bool-cases (is_word u r)) [
    | inl w ↦
        let up_word = u.to_upper_word r w in
        let ih = pascal-all_words false false rs in ground arith
    | inr w ↦ let ih = pascal-all_words false true rs in ground arith
  ]

  -- Inside a word nothing changes.
  pascal_same : (l : Runes) → all_words u l ≡ true → pascal u false false l ≡ l
  unfolding pascal
  pascal_same [] h = refl
  pascal_same (r ∷ rs) h = elim (Bool-cases (is_word u r)) [
    | inl w ↦ let ih = pascal_same rs (ground arith) in rw w (ap (λ (l : Runes). r ∷ l) ih)
    | inr w ↦ absurd (ground arith)
  ]

  pascal_head :
      (f up : Bool) (rs : Runes)
      → (f || up) ≡ true
      → (pascal u f up rs ≡ []) ⊎ ((r : ℕ) × (t : Runes) × (pascal u f up rs ≡ u.to_upper r ∷ t))
  unfolding pascal
  pascal_head f up [] h = inl refl
  pascal_head f up (r ∷ rs) h = elim (Bool-cases (is_word u r)) [
    | inl w ↦ inr (r, pascal u false false rs, rw (w, h))
    | inr w ↦ rw w (pascal_head false true rs refl)
  ]

  again :
      (r : ℕ) (t : Runes)
      → all_words u (u.to_upper r ∷ t) ≡ true
      → pascal u true false (u.to_upper r ∷ t) ≡ u.to_upper r ∷ t
  unfolding pascal
  again r t h =
      let w : is_word u (u.to_upper r) ≡ true = ground arith in
      let same = pascal_same t (ground arith) in
      rw (w, u.to_upper_twice r) (ap (λ (l : Runes). u.to_upper r ∷ l) same)

  pascal-nil : pascal u true false [] ≡ []
  unfolding pascal
  pascal-nil = refl

  -- Pascal case has only letters and digits, and converting it again changes nothing.
  pub to_pascal_case-to_pascal_case :
      (value : Runes)
      → (to_pascal_case u (to_pascal_case u value) ≡ to_pascal_case u value)
        × (all_words u (to_pascal_case u value) ≡ true)
  unfolding to_pascal_case
  to_pascal_case-to_pascal_case value =
      let words = pascal-all_words true false value in
      (
        elim (pascal_head true false value refl) [
          | inl e ↦ ap (pascal u true false) e ∙ pascal-nil ∙ sym e
          | inr (r, t, e) ↦ ap (pascal u true false) e ∙ again r t (rw e at words) ∙ sym e
        ],
        words,
      )
