-- ===== src/Pagination.antt =====
-- pkg/http/parameters/pagination.go: page numbers and sizes.
pub mod Bounds
pub mod Examples
use go_base.Base.{ℕ, ◌+◌, ◌-◌, ◌*◌, Bool, true, ◌&&◌, List, [], ◌∷◌, ltb, leb, ◌==◌, if◌then◌else◌}

-- The largest `uint32`.
abbrev pub max_uint32 : ℕ
max_uint32 = 4294967295

abbrev pub is_digit : ℕ → Bool
is_digit c = leb 48 c && leb c 57

-- The value of `strconv.ParseUint(s, 10, 32)`, its error dropped: 0 for a text that is no number, and
-- the largest value as soon as the digits exceed it.
abbrev pub parse_from : ℕ → List ℕ → ℕ
parse_from n [] = n
parse_from n (c ∷ cs) =
    let next = n * 10 + (c - 48) in
    let rest = parse_from next cs in
    if is_digit c then (if ltb max_uint32 next then max_uint32 else rest) else 0

unfoldable pub parse_uint : List ℕ → ℕ
parse_uint text = parse_from 0 text

pub record Page : Type 0 where
  pub number : ℕ
  pub size : ℕ

abbrev pub default_page_size : ℕ
default_page_size = 20

abbrev pub min_page_size : ℕ
min_page_size = 5

abbrev pub max_page_size : ℕ
max_page_size = 100

-- The switch on the size.
abbrev pub normal_size : ℕ → ℕ → ℕ → ℕ → ℕ
normal_size default_size min_size max_size size =
    if size == 0
    then default_size
    else if ltb size min_size
    then min_size
    else if ltb max_size size
    then max_size
    else size

unfoldable pub normalize_pagination_with_values : List ℕ → List ℕ → ℕ → ℕ → ℕ → Page
unfolding parse_uint
normalize_pagination_with_values page_number page_size default_size min_size max_size =
    let n = parse_uint page_number in
    record {
      number = if ltb n 1 then 1 else n;
      size = normal_size default_size min_size max_size (parse_uint page_size);
    }

unfoldable pub normalize_pagination : List ℕ → List ℕ → Page
unfolding normalize_pagination_with_values
normalize_pagination page_number page_size =
    normalize_pagination_with_values page_number page_size default_page_size min_page_size
      max_page_size
