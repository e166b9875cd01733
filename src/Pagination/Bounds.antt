-- ===== src/Pagination/Bounds.antt =====
-- pkg/http/parameters/pagination.go: the bounds of a normalised page.
use go_base.Base.{ℕ, ◌+◌, ◌*◌, ◌-◌, ◌≤◌, List, [], ◌∷◌, ltb, Bool-cases, inl, inr, arith}
use go_base.Pagination.{max_uint32, parse_from, parse_uint, Page, normalize_pagination_with_values}

parse_from-le : (n : ℕ) (text : List ℕ) → n ≤ 4294967295 → parse_from n text ≤ 4294967295
parse_from-le n [] h = h
parse_from-le n (c ∷ cs) h = elim (Bool-cases (ltb 4294967295 (n * 10 + (c - 48)))) [
  | inl e ↦ ground arith
  | inr e ↦ let ih = parse_from-le (n * 10 + (c - 48)) cs (ground arith) in ground arith
]

pub parse_uint-le : (text : List ℕ) → parse_uint text ≤ 4294967295
unfolding parse_uint
parse_uint-le text = parse_from-le 0 text (omega arith)

-- A page of this or a larger number, within the sizes.
abbrev pub IsWithin : ℕ → ℕ → Page → Type 0
IsWithin min_size max_size page =
    (1 ≤ page.number) × (page.number ≤ max_uint32) × (min_size ≤ page.size) × (page.size ≤ max_size)

-- If the default size is between the bounds, a normalised page has a number from 1 to the largest
-- uint32 and a size between the bounds, whatever the two texts are.
pub normalize-IsWithin :
    (page_number page_size : List ℕ) (default_size min_size max_size : ℕ)
    → min_size ≤ default_size
    → default_size ≤ max_size
    → IsWithin min_size max_size
        (normalize_pagination_with_values page_number page_size default_size min_size max_size)
unfolding normalize_pagination_with_values
normalize-IsWithin page_number page_size default_size min_size max_size lo hi =
    let n = parse_uint-le page_number in ground arith
