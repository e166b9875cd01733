-- ===== src/Pagination/Examples.antt =====
-- pkg/http/parameters/pagination.go: concrete parameters.
use go_base.Base.{ℕ, ◌≡◌, refl, List, [], ◌∷◌, arith}
use go_base.Pagination.{parse_uint, normalize_pagination, normalize_pagination_with_values}
use go_base.Pagination.Bounds.{IsWithin, normalize-IsWithin}

-- `12` and `50`.
abbrev twelve : List ℕ
twelve = 49 ∷ 50 ∷ []

abbrev fifty : List ℕ
fifty = 53 ∷ 48 ∷ []

parse_test : parse_uint (53 ∷ 48 ∷ 45 ∷ []) ≡ 0
unfolding parse_uint
parse_test = refl

normalize-IsWithin_example : IsWithin 5 100 (normalize_pagination_with_values twelve [] 20 5 100)
normalize-IsWithin_example = normalize-IsWithin twelve [] 20 5 100 (omega arith) (omega arith)

normalize_test : normalize_pagination twelve fifty ≡ record { number = 12; size = 50 }
unfolding normalize_pagination
normalize_test = refl
