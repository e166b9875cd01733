-- ===== src/Casing/Examples.antt =====
-- pkg/strings/casing.go: names in ASCII.
use go_base.Base.{
  ℕ, ◌+◌, ◌-◌, ◌≡◌, refl, Bool, true, ◌&&◌, ◌||◌, [], ◌∷◌, leb, if◌then◌else◌, arith,
}
use go_base.Casing.{Unicode, Runes, to_underscore_case}
use go_base.Casing.Clean.{IsClean, to_underscore_case-IsClean}

abbrev pub between : ℕ → ℕ → ℕ → Bool
between a b r = leb a r && leb r b

pub lower_word :
    (r : ℕ)
    → ((between 97 122 r || between 65 90 r) || between 48 57 r) ≡ true
    → ((between 97 122 (if between 65 90 r then r + 32 else r)
          || between 65 90 (if between 65 90 r then r + 32 else r))
        || between 48 57 (if between 65 90 r then r + 32 else r))
      ≡ true
lower_word r h = ground arith

pub upper_word :
    (r : ℕ)
    → ((between 97 122 r || between 65 90 r) || between 48 57 r) ≡ true
    → ((between 97 122 (if between 97 122 r then r - 32 else r)
          || between 65 90 (if between 97 122 r then r - 32 else r))
        || between 48 57 (if between 97 122 r then r - 32 else r))
      ≡ true
upper_word r h = ground arith

pub upper_twice :
    (r : ℕ)
    → (if between 97 122 (if between 97 122 r then r - 32 else r)
        then (if between 97 122 r then r - 32 else r) - 32
        else (if between 97 122 r then r - 32 else r))
      ≡ (if between 97 122 r then r - 32 else r)
upper_twice r = ground arith

abbrev pub ascii : Unicode
ascii = record {
  is_letter = λ r. between 97 122 r || between 65 90 r;
  is_digit = λ r. between 48 57 r;
  is_upper = λ r. between 65 90 r;
  to_upper = λ r. if between 97 122 r then r - 32 else r;
  to_lower = λ r. if between 65 90 r then r + 32 else r;
  underscore_letter = refl;
  underscore_digit = refl;
  to_lower_word = lower_word;
  to_upper_word = upper_word;
  to_upper_twice = upper_twice;
}

-- `some Name!` and `some_name`.
abbrev some_name : Runes
some_name = 115 ∷ 111 ∷ 109 ∷ 101 ∷ 32 ∷ 78 ∷ 97 ∷ 109 ∷ 101 ∷ 33 ∷ []

underscore_test :
    to_underscore_case ascii some_name ≡ 115 ∷ 111 ∷ 109 ∷ 101 ∷ 95 ∷ 110 ∷ 97 ∷ 109 ∷ 101 ∷ []
unfolding to_underscore_case
underscore_test = refl

to_underscore_case-IsClean_example : IsClean ascii (to_underscore_case ascii some_name)
to_underscore_case-IsClean_example = to_underscore_case-IsClean ascii some_name
