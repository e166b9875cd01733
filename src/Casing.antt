-- ===== src/Casing.antt =====
-- pkg/strings/casing.go: names in underscore case and in pascal case.
pub mod Clean
pub mod Pascal
pub mod Examples
use go_base.Base.{ℕ, ◌≡◌, Bool, true, false, ◌&&◌, ◌||◌, not, List, [], ◌∷◌, ◌==◌, if◌then◌else◌}

-- The tables of the `unicode` package, with what they say: an underscore is neither a letter nor a
-- digit, and the case mappings of such a rune are such runes. `to_upper` changes nothing twice.
pub record Unicode : Type 0 where
  pub is_letter : ℕ → Bool
  pub is_digit : ℕ → Bool
  pub is_upper : ℕ → Bool
  pub to_upper : ℕ → ℕ
  pub to_lower : ℕ → ℕ
  pub underscore_letter : is_letter 95 ≡ false
  pub underscore_digit : is_digit 95 ≡ false
  pub to_lower_word :
      (r : ℕ)
      → (is_letter r || is_digit r) ≡ true
      → (is_letter (to_lower r) || is_digit (to_lower r)) ≡ true
  pub to_upper_word :
      (r : ℕ)
      → (is_letter r || is_digit r) ≡ true
      → (is_letter (to_upper r) || is_digit (to_upper r)) ≡ true
  pub to_upper_twice : (r : ℕ) → to_upper (to_upper r) ≡ to_upper r

-- A string as its runes.
abbrev pub Runes : Type 0
Runes = List ℕ

abbrev pub underscore : ℕ
underscore = 95

module _ (u : Unicode) where
  abbrev pub is_word : ℕ → Bool
  is_word r = u.is_letter r || u.is_digit r

  -- The loop of `ToUnderscoreCase`: its two flags, and the rest of the string.
  pub underscored : Bool → Bool → Runes → Runes
  underscored previous_underscore previous_uppercase [] = []
  underscored previous_underscore previous_uppercase (r ∷ rs) =
      let after_other = underscored true false rs in
      let after_upper = u.to_lower r ∷ underscored false true rs in
      let after_lower = r ∷ underscored false false rs in
      if not (is_word r)
      then (if previous_underscore then after_other else underscore ∷ after_other)
      else if u.is_upper r
      then (if not previous_underscore && not previous_uppercase
          then underscore ∷ after_upper
          else after_upper)
      else after_lower

-- `strings.Trim(s, "_")`.
abbrev pub trim_left : Runes → Runes
trim_left [] = []
trim_left (r ∷ rs) = let rest = trim_left rs in if r == underscore then rest else r ∷ rs

abbrev pub keep_last : ℕ → Runes → Runes
keep_last r [] = if r == underscore then [] else r ∷ []
keep_last r (x ∷ xs) = r ∷ x ∷ xs

abbrev pub trim_right : Runes → Runes
trim_right [] = []
trim_right (r ∷ rs) = keep_last r (trim_right rs)

unfoldable pub to_underscore_case : Unicode → Runes → Runes
unfolding underscored
to_underscore_case u value = trim_right (trim_left (underscored u false false value))

module _ (u : Unicode) where
  -- The loop of `ToPascalCase`: whether the rune is the first one, and the flag.
  pub pascal : Bool → Bool → Runes → Runes
  pascal is_first to_upper [] = []
  pascal is_first to_upper (r ∷ rs) =
      let skipped = pascal false true rs in
      let rest = pascal false false rs in
      if not (is_word u r)
      then skipped
      else if is_first || to_upper
      then u.to_upper r ∷ rest
      else r ∷ rest

  unfoldable pub to_pascal_case : Runes → Runes
  unfolding pascal
  to_pascal_case value = pascal true false value
