-- ===== src/Casing/Clean.antt =====
-- pkg/strings/casing.go: the form of a name in underscore case.
use go_base.Base.{
  ℕ, ◌≡◌, refl, Bool, true, false, ◌&&◌, ◌||◌, not, [], ◌∷◌, ◌==◌, ==_iff, Bool-cases, inl, inr,
  arith,
}
use go_base.Casing.{
  Unicode, Runes, underscore, is_word, underscored, trim_left, keep_last, trim_right,
  to_underscore_case,
}

abbrev pub starts : Runes → Bool
starts [] = false
starts (r ∷ rs) = r == underscore

abbrev pub ends : Runes → Bool
ends [] = false
ends (r ∷ []) = r == underscore
ends (r ∷ s ∷ rs) = ends (s ∷ rs)

-- No two underscores stand side by side.
abbrev pub is_single : Runes → Bool
is_single [] = true
is_single (r ∷ rs) = not ((r == underscore) && starts rs) && is_single rs

-- Only letters, digits and underscores.
abbrev pub is_identifier : Unicode → Runes → Bool
is_identifier u [] = true
is_identifier u (r ∷ rs) = (is_word u r || (r == underscore)) && is_identifier u rs

module _ (u : Unicode) where
  word-ne-underscore : (r : ℕ) → is_word u r ≡ true → (r == underscore) ≡ false
  word-ne-underscore r h = elim (Bool-cases (r == underscore)) [
    | inr e ↦ e
    | inl e ↦
        let i : r ≡ 95 = (==_iff r 95).0 e in
        let w : is_word u 95 ≡ true = rw i at h in
        absurd (ground (arith, u.underscore_letter, u.underscore_digit))
  ]

  -- After an underscore none follows.
  underscored-starts : (up : Bool) (rs : Runes) → starts (underscored u true up rs) ≡ false
  unfolding underscored
  underscored-starts up [] = refl
  underscored-starts up (r ∷ rs) = elim (Bool-cases (is_word u r)) [
    | inl w ↦
        let low = word-ne-underscore (u.to_lower r) (u.to_lower_word r w) in
        let same = word-ne-underscore r w in ground arith
    | inr w ↦ let ih = underscored-starts false rs in ground arith
  ]

  underscored-is_single : (us up : Bool) (rs : Runes) → is_single (underscored u us up rs) ≡ true
  unfolding underscored
  underscored-is_single us up [] = refl
  underscored-is_single us up (r ∷ rs) = elim (Bool-cases (is_word u r)) [
    | inl w ↦
        let low = word-ne-underscore (u.to_lower r) (u.to_lower_word r w) in
        let same = word-ne-underscore r w in
        let upper = underscored-is_single false true rs in
        let lower = underscored-is_single false false rs in ground arith
    | inr w ↦
        let free = underscored-starts false rs in
        let ih = underscored-is_single true false rs in ground arith
  ]

  underscored-is_identifier :
      (us up : Bool) (rs : Runes) → is_identifier u (underscored u us up rs) ≡ true
  unfolding underscored
  underscored-is_identifier us up [] = refl
  underscored-is_identifier us up (r ∷ rs) = elim (Bool-cases (is_word u r)) [
    | inl w ↦
        let low = u.to_lower_word r w in
        let upper = underscored-is_identifier false true rs in
        let lower = underscored-is_identifier false false rs in ground arith
    | inr w ↦ let ih = underscored-is_identifier true false rs in ground arith
  ]

-- What the four tests say together.
abbrev pub IsClean : Unicode → Runes → Type 0
IsClean u l =
    (is_single l ≡ true) × (starts l ≡ false) × (ends l ≡ false) × (is_identifier u l ≡ true)

module _ (u : Unicode) where
  trim_left-clean :
      (l : Runes)
      → is_single l ≡ true
      → is_identifier u l ≡ true
      → (is_single (trim_left l) ≡ true)
        × (starts (trim_left l) ≡ false)
        × (is_identifier u (trim_left l) ≡ true)
  trim_left-clean [] s i = (refl, refl, refl)
  trim_left-clean (r ∷ rs) s i = elim (Bool-cases (r == underscore)) [
    | inl e ↦ let ih = trim_left-clean rs (ground arith) (ground arith) in rw e ih
    | inr e ↦ rw e (s, e, i)
  ]

  keep_last-starts :
      (r : ℕ) (l : Runes) → (r == underscore) ≡ false → starts (keep_last r l) ≡ false
  keep_last-starts r [] h = ground arith
  keep_last-starts r (x ∷ xs) h = h

  keep_last-is_single :
      (r : ℕ) (l : Runes)
      → ((r == underscore) && starts l) ≡ false
      → is_single l ≡ true
      → is_single (keep_last r l) ≡ true
  keep_last-is_single r [] h s = ground arith
  keep_last-is_single r (x ∷ xs) h s = ground arith

  keep_last-ends : (r : ℕ) (l : Runes) → ends l ≡ false → ends (keep_last r l) ≡ false
  keep_last-ends r [] h = ground arith
  keep_last-ends r (x ∷ xs) h = h

  keep_last-is_identifier :
      (r : ℕ) (l : Runes)
      → (is_word u r || (r == underscore)) ≡ true
      → is_identifier u l ≡ true
      → is_identifier u (keep_last r l) ≡ true
  keep_last-is_identifier r [] h i = ground arith
  keep_last-is_identifier r (x ∷ xs) h i = ground arith

  trim_right-ends : (l : Runes) → ends (trim_right l) ≡ false
  trim_right-ends [] = refl
  trim_right-ends (r ∷ rs) = keep_last-ends r (trim_right rs) (trim_right-ends rs)

  trim_right-starts : (l : Runes) → starts l ≡ false → starts (trim_right l) ≡ false
  trim_right-starts [] h = refl
  trim_right-starts (r ∷ rs) h = keep_last-starts r (trim_right rs) h

  trim_right-is_single : (l : Runes) → is_single l ≡ true → is_single (trim_right l) ≡ true
  trim_right-is_single [] h = refl
  trim_right-is_single (r ∷ rs) h =
      keep_last-is_single r (trim_right rs) (apart (starts rs) refl)
        (trim_right-is_single rs (ground arith))
    where
      apart : (b : Bool) → starts rs ≡ b → ((r == underscore) && starts (trim_right rs)) ≡ false
      apart true e = ground arith
      apart false e = let t = trim_right-starts rs e in ground arith

  trim_right-is_identifier :
      (l : Runes) → is_identifier u l ≡ true → is_identifier u (trim_right l) ≡ true
  trim_right-is_identifier [] h = refl
  trim_right-is_identifier (r ∷ rs) h =
      keep_last-is_identifier r (trim_right rs) (ground arith)
        (trim_right-is_identifier rs (ground arith))

  -- A name in underscore case has only letters, digits and underscores, no two underscores side by
  -- side, and none at its start or end.
  pub to_underscore_case-IsClean : (value : Runes) → IsClean u (to_underscore_case u value)
  unfolding to_underscore_case
  to_underscore_case-IsClean value =
      let (s, b, i) =
        trim_left-clean (underscored u false false value)
          (underscored-is_single u false false value)
          (underscored-is_identifier u false false value) in
      let l = trim_left (underscored u false false value) in
      (
        trim_right-is_single l s,
        trim_right-starts l b,
        trim_right-ends l,
        trim_right-is_identifier l i,
      )
