-- ===== src/Managers/Examples.antt =====
-- pkg/data/managers/id_resolver.go: a table with two names.
use go_base.Base.{
  ◌≡◌, refl, ◌↔◌, Bool, true, false, none, List, [], ◌∷◌, String, str_eq, eq_iff, ok, arith,
}
use go_base.Managers.{Table, ResolveEnv, resolve}
use go_base.Managers.Selected.{IsOnly}
use go_base.Managers.Resolved.{IsQuiet, resolve_ok_iff}

-- A row is its ID and its name.
abbrev Row : Type 0
Row = String × String

same : (r : Row) → str_eq r.0 r.0 ≡ true
same r = (eq_iff r.0 r.0).1 refl

abbrev table : Table Row
table = record {
  id = λ r. r.0;
  id_matches = λ r v. str_eq r.0 v;
  secondary_matches = λ r v. str_eq r.1 v;
  is_uuid = λ v. str_eq v "1";
  id_matches_itself = same;
}

abbrev env : ResolveEnv
env = record { query = none; first = none; after_first = none; scan = none; second = none }

quiet : IsQuiet env
quiet = record { query = refl; first = refl; after_first = refl; scan = refl; second = refl }

abbrev rows : List Row
rows = ("1", "red") ∷ ("2", "blue") ∷ []

abbrev all : Row → Bool
all r = true

given : (v : String) → str_eq v "" ≡ false → (v ≡ "") → ⊥
given v h e = ground (arith, eq_iff v "")

resolve_ok_iff_example :
    (resolve table env "blue" all rows ≡ ok "2") ↔ IsOnly table "blue" all rows "2"
resolve_ok_iff_example = resolve_ok_iff table env "blue" "2" all rows quiet (given "blue" refl)

abbrev is_red : Row → Bool
is_red r = str_eq r.0 "1"
