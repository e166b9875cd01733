-- ===== src/Managers/Resolved.antt =====
-- pkg/data/managers/id_resolver.go: which values are resolved, and to what.
use go_base.Base.{
  ◌≡◌, refl, sym, ap, ◌∙◌, ◌≢◌, ◌↔◌, Bool, true, false, Option, none, some, List, [], ◌∷◌, take,
  Memᴰ, Mem-filter_inv, String, str_eq, eq_iff, ok, err, ◌>>=◌, >>=-eq-ok, unless, unless-eq-ok,
  arith,
}
use go_base.Managers.Selected.{and_left, IsOnly, selected-one, one-IsOnly}
use go_base.Managers.{
  not_found, Table, ResolveEnv, selected, read_rows, resolve, id_predicate, or_all, sqlizer,
}

-- No call on the database fails.
pub record IsQuiet (env : ResolveEnv) : Type 0 where
  pub query : env.query ≡ none
  pub first : env.first ≡ none
  pub after_first : env.after_first ≡ none
  pub scan : env.scan ≡ none
  pub second : env.second ≡ none

module _ {Row : Type 0} (t : Table Row) (env : ResolveEnv) where
  read_rows-ok :
      (l : List Row) {id : String}
      → read_rows t env (take 2 l) ≡ ok id
      → (r : Row) × (l ≡ r ∷ []) × (t.id r ≡ id)
  read_rows-ok [] h = absurd (cc)
  read_rows-ok (r ∷ []) h = (r, refl, ground arith)
  read_rows-ok (r ∷ s ∷ rs) h = absurd (ground arith)

  read_rows_none :
      (l : List Row) → IsQuiet env → read_rows t env (take 2 l) ≡ err not_found → l ≡ []
  read_rows_none [] quiet h = refl
  read_rows_none (r ∷ []) quiet h =
      absurd (ground (arith, quiet.first, quiet.after_first, quiet.scan, quiet.second))
  read_rows_none (r ∷ s ∷ rs) quiet h =
      absurd (ground (arith, quiet.first, quiet.after_first, quiet.scan, quiet.second))

  value-eq-ok :
      (value : String) (where_ : Row → Bool) (rows : List Row) {id : String}
      → resolve t env value where_ rows ≡ ok id
      → (r : Row) × (selected t value where_ rows ≡ r ∷ []) × (t.id r ≡ id)
  unfolding resolve
  value-eq-ok value where_ rows h =
      let q : (unless env.query (take 2 (selected t value where_ rows)) >>= read_rows t env)
          ≡ ok _ =
        ground arith in
      let (l, e, h') =
        >>=-eq-ok (unless env.query (take 2 (selected t value where_ rows))) (read_rows t env) q in
      let (_, i) = unless-eq-ok env.query e in read_rows-ok (selected t value where_ rows) (rw i h')

  -- With no failing call, a value that is not empty is resolved to an ID exactly when one row alone
  -- passes the filter and has the value, as its ID if the value is a UUID and in the secondary
  -- column if it is not, and the ID is that of the row.
  pub resolve_ok_iff :
      (value id : String) (where_ : Row → Bool) (rows : List Row)
      → IsQuiet env
      → value ≢ ""
      → (resolve t env value where_ rows ≡ ok id) ↔ IsOnly t value where_ rows id
  unfolding resolve
  resolve_ok_iff value id where_ rows quiet ne = (
    λ h.
        let (r, one, same) = value-eq-ok value where_ rows h in
        one-IsOnly t value where_ rows r one same,
    λ only.
        let given : str_eq value "" ≡ false = ground (arith, eq_iff value "") in
        let one : selected t value where_ rows ≡ only.row ∷ [] =
          ap (selected t value where_) only.split
          ∙ selected-one t value where_ only.before only.after only.row only.wanted
              only.alone_before only.alone_after in
        rw (given, quiet.query, one, quiet.first, quiet.after_first, quiet.scan, quiet.second)
          (ap ok only.same),
  )

  -- With no failing call, a value that is not empty is reported as not found exactly when no row
  -- passes the filter and has the value.
  pub resolve_not_found_iff :
      (value : String) (where_ : Row → Bool) (rows : List Row)
      → IsQuiet env
      → value ≢ ""
      → (resolve t env value where_ rows ≡ err not_found) ↔ (selected t value where_ rows ≡ [])
  unfolding resolve
  resolve_not_found_iff value where_ rows quiet ne =
      let given : str_eq value "" ≡ false = ground (arith, eq_iff value "") in
      (
        λ h. read_rows_none (selected t value where_ rows) quiet (rw (given, quiet.query) at h),
        λ e. rw (given, quiet.query, e) refl,
      )

  -- The predicate that `Sqlizer` returns holds of a row of the table that passes the filter and is
  -- the only one with the value.
  pub sqlizer-Mem :
      (value : String) (where_ : Option (Row → Bool)) (rows : List Row) {p : Row → Bool}
      → sqlizer t env value where_ rows ≡ ok p
      → (r : Row) × Memᴰ r rows × (p r ≡ true) × (selected t value (or_all t where_) rows ≡ r ∷ [])
  unfolding sqlizer
  sqlizer-Mem value where_ rows {p} h =
      let (id, e, h') = >>=-eq-ok (resolve t env value (or_all t where_) rows) _ h in
      let (r, one, same) = value-eq-ok value (or_all t where_) rows e in
      let m : Memᴰ r (selected t value (or_all t where_) rows) = rw one (Memᴰ.head refl) in
      let (held, w) = Mem-filter_inv _ rows m in
      let is_p : id_predicate t where_ id ≡ p = ground arith in
      (
        r,
        held,
        ap (λ (f : Row → Bool). f r) (sym is_p) ∙ true_of where_ r id same (and_left _ _ w),
        one,
      )
    where
      true_of :
          (w : Option (Row → Bool)) (r : Row) (id : String)
          → t.id r ≡ id
          → or_all t w r ≡ true
          → id_predicate t w id r ≡ true
      true_of none r id same o = ap (t.id_matches r) (sym same) ∙ t.id_matches_itself r
      true_of (some where_) r id same o =
          let i : t.id_matches r id ≡ true =
            ap (t.id_matches r) (sym same) ∙ t.id_matches_itself r in
          ground arith
