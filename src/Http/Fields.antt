-- ===== src/Http/Fields.antt =====
-- pkg/http/clients/errors.go: which fields the loop over the entries finds.
use go_base.Base.{
  ℕ, ◌≡◌, ◌≢◌, refl, sym, ap, ◌∙◌, ◌⊎◌, inl, inr, false, some, List, [], ◌∷◌, Memᴰ, String, str_eq,
  eq_iff, ◌==◌, Bool-cases, if◌then◌else◌, arith,
}
use go_base.Http.Response.{Entry, put, lookup, Folded, fold_entry, fold_entries}

lookup-put :
    (k v j : String) (l : List Entry)
    → lookup j (put k v l) ≡ (if str_eq k j then some v else lookup j l)
lookup-put k v j [] = refl
lookup-put k v j ((i, w) ∷ l) = elim (Bool-cases (str_eq i k)) [
  | inl h ↦
      let e : i ≡ k = (eq_iff i k).0 h in
      elim (Bool-cases (str_eq k j)) [
        | inl t ↦ rw (h, t) refl
        | inr t ↦ let u : str_eq i j ≡ false = ap (λ x. str_eq x j) e ∙ t in rw (h, t, u) refl
      ]
  | inr h ↦ elim (Bool-cases (str_eq i j)) [
    | inl t ↦
        let e : i ≡ j = (eq_iff i j).0 t in
        elim (Bool-cases (str_eq k j)) [
          | inl u ↦ let same = (eq_iff i k).1 (e ∙ sym ((eq_iff k j).0 u)) in absurd (ground arith)
          | inr u ↦ rw (h, t, u) refl
        ]
    | inr t ↦ rw (h, t) (lookup-put k v j l)
  ]
]

-- A field that the loop has found was in an entry, or was found before.
module _ (status : ℕ) where
  pub fold_entries-inv :
      (es : List Entry) (f : Folded) (k v : String)
      → lookup k (fold_entries status es f).validation ≡ some v
      → Memᴰ (k, v) es ⊎ (lookup k f.validation ≡ some v)
  unfolding fold_entries
  fold_entries-inv [] f k v h = inr h
  fold_entries-inv ((j, t) ∷ es) f k v h =
      elim (fold_entries-inv es (fold_entry status (j, t) f) k v h) [
        | inl m ↦ inl (Memᴰ.tail m)
        | inr q ↦ elim (Bool-cases (str_eq j "")) [
          | inl b ↦ elim (Bool-cases (status == 522)) [
            | inl c ↦ inr (rw (b, c) at q)
            | inr c ↦ inr (rw (b, c) at q)
          ]
          | inr b ↦
              let q' : lookup k (put j t f.validation) ≡ some v = rw b at q in
              elim (Bool-cases (str_eq j k)) [
                | inl s ↦
                    let e : t ≡ v = ground (arith, lookup-put j t k f.validation) in
                    inl (Memᴰ.head (λ i. (sym ((eq_iff j k).0 s) i, sym e i)))
                | inr s ↦ inr (ground (arith, lookup-put j t k f.validation))
              ]
        ]
      ]

  -- A field whose entries all have one message is found with it.
  pub fold_entries-found :
      (es : List Entry) (f : Folded) (k v : String)
      → k ≢ ""
      → ((w : String) → Memᴰ (k, w) es → w ≡ v)
      → Memᴰ (k, v) es ⊎ (lookup k f.validation ≡ some v)
      → lookup k (fold_entries status es f).validation ≡ some v
  unfolding fold_entries
  fold_entries-found [] f k v n one h = elim h [ inl m ↦ elim m [ ] | inr q ↦ q ]
  fold_entries-found ((j, t) ∷ es) f k v n one h =
      fold_entries-found es (fold_entry status (j, t) f) k v n (λ w m. one w (Memᴰ.tail m))
        (elim (Bool-cases (str_eq j k)) [
          | inl s ↦
              let e : j ≡ k = (eq_iff j k).0 s in
              let same : t ≡ v = one t (Memᴰ.head (λ i. (sym e i, t))) in
              let b : str_eq j "" ≡ false = elim (Bool-cases (str_eq j "")) [
                | inl x ↦ absurd (n (sym e ∙ (eq_iff j "").0 x))
                | inr x ↦ x
              ] in
              inr (rw b (lookup-put j t k f.validation ∙ ground (arith, same)))
          | inr s ↦ elim h [
            | inl (Memᴰ.head q) ↦ absurd (ground (arith, eq_iff j k, ap (λ (p : Entry). p.0) q))
            | inl (Memᴰ.tail m) ↦ inl m
            | inr q ↦ inr (elim (Bool-cases (str_eq j "")) [
              | inl b ↦ elim (Bool-cases (status == 522)) [
                | inl c ↦ rw (b, c) q
                | inr c ↦ rw (b, c) q
              ]
              | inr b ↦ rw b (lookup-put j t k f.validation ∙ ground (arith, q))
            ])
          ]
        ])
