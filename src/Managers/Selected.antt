-- ===== src/Managers/Selected.antt =====
-- pkg/data/managers/id_resolver.go: what it is for the query to select one row.
use go_base.Base.{
  ◌≡◌, refl, ap, subst, ◌∙◌, Bool, true, false, ◌&&◌, List, [], ◌∷◌, ◌++◌, Memᴰ, Mem-filter, String,
  Bool-cases, inl, inr, arith,
}
use go_base.Managers.{Table, lookup_matches, selected}

pub and_left : (a b : Bool) → (a && b) ≡ true → a ≡ true
and_left a b h = ground arith

module _ {Row : Type 0} (t : Table Row) where
  -- The row passes the filter and has the value: as its ID if the value is a UUID, and under the
  -- other column if it is not.
  pub record IsWanted (value : String) (where_ : Row → Bool) (r : Row) : Type 0 where
    pub passes : where_ r ≡ true
    pub of_id : t.is_uuid value ≡ true → t.id_matches r value ≡ true
    pub of_name : t.is_uuid value ≡ false → t.secondary_matches r value ≡ true

  -- One row alone is such a row, and has the ID.
  pub record IsOnly (value : String) (where_ : Row → Bool) (rows : List Row) (id : String)
      : Type 0 where
    pub before : List Row
    pub row : Row
    pub after : List Row
    pub split : rows ≡ before ++ row ∷ after
    pub wanted : IsWanted value where_ row
    pub alone_before : (s : Row) → Memᴰ s before → ¬ IsWanted value where_ s
    pub alone_after : (s : Row) → Memᴰ s after → ¬ IsWanted value where_ s
    pub same : t.id row ≡ id

  IsWanted-selects :
      (value : String) (where_ : Row → Bool) (r : Row)
      → IsWanted value where_ r
      → (where_ r && lookup_matches t value r) ≡ true
  IsWanted-selects value where_ r w = elim (Bool-cases (t.is_uuid value)) [
    | inl u ↦ rw (w.passes, u, w.of_id u) refl
    | inr u ↦ rw (w.passes, u, w.of_name u) refl
  ]

  selects-IsWanted :
      (value : String) (where_ : Row → Bool) (r : Row)
      → (where_ r && lookup_matches t value r) ≡ true
      → IsWanted value where_ r
  selects-IsWanted value where_ r h = record {
    passes = and_left (where_ r) (lookup_matches t value r) h;
    of_id = λ u. ground arith;
    of_name = λ u. ground arith;
  }

  selected-nil :
      (value : String) (where_ : Row → Bool) (rows : List Row)
      → ((s : Row) → Memᴰ s rows → ¬ IsWanted value where_ s)
      → selected t value where_ rows ≡ []
  selected-nil value where_ [] none_ = refl
  selected-nil value where_ (r ∷ rs) none_ =
      elim (Bool-cases (where_ r && lookup_matches t value r)) [
        | inl h ↦ absurd (none_ r (Memᴰ.head refl) (selects-IsWanted value where_ r h))
        | inr h ↦ rw h (selected-nil value where_ rs (λ s m. none_ s (Memᴰ.tail m)))
      ]

  nil-alone :
      (value : String) (where_ : Row → Bool) (rows : List Row)
      → selected t value where_ rows ≡ []
      → (s : Row) → Memᴰ s rows
      → ¬ IsWanted value where_ s
  nil-alone value where_ rows h s m w =
      let k : Memᴰ s (selected t value where_ rows) =
        Mem-filter (λ (r : Row). where_ r && lookup_matches t value r) rows m
          (IsWanted-selects value where_ s w) in
      elim (subst (Memᴰ s) h k) [ ]

  pub selected-one :
      (value : String) (where_ : Row → Bool) (before after : List Row) (r : Row)
      → IsWanted value where_ r
      → ((s : Row) → Memᴰ s before → ¬ IsWanted value where_ s)
      → ((s : Row) → Memᴰ s after → ¬ IsWanted value where_ s)
      → selected t value where_ (before ++ r ∷ after) ≡ r ∷ []
  selected-one value where_ [] after r w b a =
      rw (IsWanted-selects value where_ r w) (ap (λ l. r ∷ l) (selected-nil value where_ after a))
  selected-one value where_ (x ∷ xs) after r w b a =
      elim (Bool-cases (where_ x && lookup_matches t value x)) [
        | inl h ↦ absurd (b x (Memᴰ.head refl) (selects-IsWanted value where_ x h))
        | inr h ↦ rw h (selected-one value where_ xs after r w (λ s m. b s (Memᴰ.tail m)) a)
      ]

  pub one-IsOnly :
      (value : String) (where_ : Row → Bool) (rows : List Row) (r : Row) {id : String}
      → selected t value where_ rows ≡ r ∷ []
      → t.id r ≡ id
      → IsOnly value where_ rows id
  one-IsOnly value where_ [] r h same = absurd (cc)
  one-IsOnly value where_ (x ∷ xs) r {id} h same =
      elim (Bool-cases (where_ x && lookup_matches t value x)) [
        | inl w ↦
            let e : x ∷ selected t value where_ xs ≡ r ∷ [] = rw w at h in
            let first : x ≡ r = ground arith in
            let rest : selected t value where_ xs ≡ [] = ground arith in
            record {
              before = [];
              row = x;
              after = xs;
              split = refl;
              wanted = selects-IsWanted value where_ x w;
              alone_before = λ s m. elim m [ ];
              alone_after = nil-alone value where_ xs rest;
              same = ap t.id first ∙ same;
            }
        | inr w ↦
            let only = one-IsOnly value where_ xs r (rw w at h) same in
            record {
              before = x ∷ only.before;
              row = only.row;
              after = only.after;
              split = ap (λ l. x ∷ l) only.split;
              wanted = only.wanted;
              alone_before = λ s m. elim m [
                | Memᴰ.head e ↦ λ i.
                    let k = IsWanted-selects value where_ s i in
                    let k' : (where_ x && lookup_matches t value x) ≡ true =
                      subst (λ y. (where_ y && lookup_matches t value y) ≡ true) e k in
                    absurd (ground arith)
                | Memᴰ.tail m' ↦ only.alone_before s m'
              ];
              alone_after = only.alone_after;
              same = only.same;
            }
      ]
