-- ===== src/Queue/Examples.antt =====
-- pkg/queue: concrete values for running its operations.
pub mod Tables
pub mod Dequeue
pub mod Schedules
pub mod Worker
pub mod Life
pub mod Update
use go_base.Base.{
  ℕ, ◌≤◌, ◌≡◌, refl, sym, ap, ◌∙◌, true, false, Option, none, some, List, [], ◌∷◌, Memᴰ, String,
  leb, if◌then◌else◌, arith, inl, inr, Option-cases, Bool-cases,
}
use go_base.Queue.Database.{Sql, TaskRow}

-- The newest row, the first of those with one time.
abbrev pub newer : TaskRow → Option TaskRow → Option TaskRow
newer r none = some r
newer r (some s) = if leb s.created_at r.created_at then some r else some s

abbrev pub newest : List TaskRow → Option TaskRow
newest [] = none
newest (r ∷ rs) = newer r (newest rs)

pub newest_none : (l : List TaskRow) → newest l ≡ none → l ≡ []
newest_none [] h = refl
newest_none (r ∷ rs) h =
    absurd (elim (Option-cases (newest rs)) [ inl e ↦ ground arith | inr (s, e) ↦ ground arith ])

pub newest_mem : (l : List TaskRow) (r : TaskRow) → newest l ≡ some r → Memᴰ r l
newest_mem [] r h = absurd (cc)
newest_mem (x ∷ xs) r h = elim (Option-cases (newest xs)) [
  | inl e ↦ let i : r ≡ x = ground arith in Memᴰ.head i
  | inr (s, e) ↦ elim (Bool-cases (leb s.created_at x.created_at)) [
    | inl b ↦ let i : r ≡ x = ground arith in Memᴰ.head i
    | inr b ↦ let i : r ≡ s = ground arith in Memᴰ.tail (newest_mem xs r (e ∙ ap some (sym i)))
  ]
]

pub newest_max :
    (l : List TaskRow) (r s : TaskRow) → newest l ≡ some r → Memᴰ s l → s.created_at ≤ r.created_at
newest_max [] r s h m = elim m [ ]
newest_max (x ∷ xs) r s h (Memᴰ.head i) = elim (Option-cases (newest xs)) [
  | inl e ↦ ground (arith, ap (λ (y : TaskRow). y.created_at) i)
  | inr (t, e) ↦ ground (arith, ap (λ (y : TaskRow). y.created_at) i)
]
newest_max (x ∷ xs) r s h (Memᴰ.tail m) = elim (Option-cases (newest xs)) [
  | inl e ↦ absurd (elim (rw (newest_none xs e) at m) [ ])
  | inr (t, e) ↦ ground (arith, newest_max xs t s e m)
]

-- Names that compare exactly, and lists that are not shortened.
abbrev pub sql : Sql
sql = record {
  fold = λ s. s;
  distinct = λ l. l;
  distinct_sound = λ l q m. m;
  distinct_complete = λ l q m. (q, m, refl);
  latest = newest;
  latest_none = newest_none;
  latest_mem = newest_mem;
  latest_max = newest_max;
}
