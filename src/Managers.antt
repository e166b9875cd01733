-- ===== src/Managers.antt =====
-- pkg/data/managers/id_resolver.go: from an ID or a unique name to the ID of a record.
pub mod Selected
pub mod Resolved
pub mod Examples
use go_base.Base.{
  ◌≡◌, ℕ, Bool, true, false, ◌&&◌, Option, none, some, List, [], ◌∷◌, filter, take, String, str_eq,
  Result, ok, err, ◌>>=◌, ◌>>◌, unless, if◌then◌else◌,
}

pub data Error : Type 0 where
  empty_id not_found not_unique : Error
  driver : String → Error

-- A table: its ID column, and how Postgres compares the two columns with a text. `is_uuid` stands for
-- the parser of the UUID library, after `strings.TrimSpace`.
pub record Table (Row : Type 0) : Type 0 where
  pub id : Row → String
  pub id_matches : Row → String → Bool
  pub secondary_matches : Row → String → Bool
  pub is_uuid : String → Bool
  pub id_matches_itself : (r : Row) → id_matches r (id r) ≡ true

-- The failures of one call: of the query, of the first `rows.Next` (which the code takes for no
-- rows), of the first `rows.Err`, of the scan, and of the second `rows.Next`.
pub record ResolveEnv : Type 0 where
  pub query : Option Error
  pub first : Option Error
  pub after_first : Option Error
  pub scan : Option Error
  pub second : Option Error

module _ {Row : Type 0} (t : Table Row) where
  -- The column in which the value is looked up.
  abbrev pub lookup_matches : String → Row → Bool
  lookup_matches value r =
      if t.is_uuid value then t.id_matches r value else t.secondary_matches r value

  -- The rows of the two WHERE clauses.
  abbrev pub selected : String → (Row → Bool) → List Row → List Row
  selected value where_ rows = filter (λ (r : Row). where_ r && lookup_matches value r) rows

  abbrev pub single : Row → List Row → Result Error String
  single r [] = ok (t.id r)
  single r (s ∷ rs) = err not_unique

  abbrev pub after_second : Option Error → Row → List Row → Result Error String
  after_second (some e) r rs = err e
  after_second none r rs = single r rs

  abbrev pub after_next : ResolveEnv → Option Error → Row → List Row → Result Error String
  after_next env (some e) r rs = err not_found
  after_next env none r rs = do
    unless env.after_first tt
    unless env.scan tt
    after_second env.second r rs

  abbrev pub read_rows : ResolveEnv → List Row → Result Error String
  read_rows env [] = err not_found
  read_rows env (r ∷ rs) = after_next env env.first r rs

  unfoldable pub resolve : ResolveEnv → String → (Row → Bool) → List Row → Result Error String
  resolve env value where_ rows =
      let found = unless env.query (take 2 (selected value where_ rows)) >>= read_rows env in
      if str_eq value "" then err empty_id else found

  -- The filter may be nil.
  abbrev pub id_predicate : Option (Row → Bool) → String → Row → Bool
  id_predicate none id r = t.id_matches r id
  id_predicate (some where_) id r = where_ r && t.id_matches r id

  abbrev pub or_all : Option (Row → Bool) → Row → Bool
  or_all none r = true
  or_all (some where_) r = where_ r

  unfoldable pub sqlizer :
      ResolveEnv → String → Option (Row → Bool) → List Row → Result Error (Row → Bool)
  unfolding resolve
  sqlizer env value where_ rows =
      resolve env value (or_all where_) rows >>= λ id. ok (id_predicate where_ id)
