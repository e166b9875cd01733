-- ===== src/Tokens/PublicKeys/Files.antt =====
-- pkg/tokens/public_keys.go: the maps from filenames that `sync` builds.
use go_base.Base.{
  ◌≡◌, ◌≢◌, refl, sym, ap, ◌∙◌, ◌⊎◌, inl, inr, not, none, some, List, [], ◌∷◌, Memᴰ, String, str_eq,
  eq_iff, Bool-cases, Mem-filter, Mem-filter_inv, arith,
}
use go_base.Tokens.PublicKeys.{KeyEntry, find_file, put_file, by_files, remove}

module _ {Key : Type 0} where
  pub find_file-Mem :
      (name : String) (es : List (KeyEntry Key)) {e : KeyEntry Key}
      → find_file name es ≡ some e
      → Memᴰ e es × (e.filename ≡ name)
  find_file-Mem name [] h = absurd (cc)
  find_file-Mem name (x ∷ xs) {e} h = elim (Bool-cases (str_eq x.filename name)) [
    | inl same ↦
        let i : x ≡ e = ground arith in
        (
          Memᴰ.head (sym i),
          ap (λ (y : KeyEntry Key). y.filename) (sym i) ∙ (eq_iff x.filename name).0 same,
        )
    | inr differs ↦ let (m, i) = find_file-Mem name xs (ground arith) in (Memᴰ.tail m, i)
  ]

  pub find_file-none :
      (name : String) (es : List (KeyEntry Key)) (e : KeyEntry Key)
      → find_file name es ≡ none
      → Memᴰ e es
      → e.filename ≢ name
  find_file-none name [] e h m q = elim m [ ]
  find_file-none name (x ∷ xs) e h (Memᴰ.head i) q =
      let same : x.filename ≡ name = ap (λ (y : KeyEntry Key). y.filename) (sym i) ∙ q in
      absurd (ground (arith, (eq_iff x.filename name).1 same))
  find_file-none name (x ∷ xs) e h (Memᴰ.tail m) q = find_file-none name xs e (ground arith) m q

  -- Entries under one filename are one entry.
  abbrev pub HasFiles : List (KeyEntry Key) → Type 0
  HasFiles es = (d e : KeyEntry Key) → Memᴰ d es → Memᴰ e es → d.filename ≡ e.filename → d ≡ e

  -- What a map holds after an entry is stored under its filename.
  pub put_file-inv :
      (k : KeyEntry Key) (es : List (KeyEntry Key)) (e : KeyEntry Key)
      → Memᴰ e (put_file k es)
      → (e ≡ k) ⊎ (Memᴰ e es × (e.filename ≢ k.filename))
  put_file-inv k es e (Memᴰ.head i) = inl i
  put_file-inv k es e (Memᴰ.tail m) =
      let (held, apart) =
        Mem-filter_inv (λ (x : KeyEntry Key). not (str_eq x.filename k.filename)) es m in
      inr (held, λ i. ground (arith, (eq_iff e.filename k.filename).1 i))

  pub put_file-keep :
      (k : KeyEntry Key) (es : List (KeyEntry Key)) {e : KeyEntry Key}
      → Memᴰ e es
      → e.filename ≢ k.filename
      → Memᴰ e (put_file k es)
  put_file-keep k es {e} m ne = Memᴰ.tail (
      Mem-filter (λ (x : KeyEntry Key). not (str_eq x.filename k.filename)) es m
        (ground (arith, eq_iff e.filename k.filename)))

  pub put_file-HasFiles :
      (k : KeyEntry Key) (es : List (KeyEntry Key)) → HasFiles es → HasFiles (put_file k es)
  put_file-HasFiles k es u d e md me same = elim (put_file-inv k es d md) [
    | inl i ↦ elim (put_file-inv k es e me) [
      | inl j ↦ i ∙ sym j
      | inr (_, apart) ↦ absurd (apart (sym same ∙ ap (λ (y : KeyEntry Key). y.filename) i))
    ]
    | inr (hd, apart) ↦ elim (put_file-inv k es e me) [
      | inl j ↦ absurd (apart (same ∙ ap (λ (y : KeyEntry Key). y.filename) j))
      | inr (he, _) ↦ u d e hd he same
    ]
  ]

  pub by_files-HasFiles : (es : List (KeyEntry Key)) → HasFiles (by_files es)
  by_files-HasFiles [] d e md me same = elim md [ ]
  by_files-HasFiles (x ∷ xs) d e md me same =
      put_file-HasFiles x (by_files xs) (by_files-HasFiles xs) d e md me same

  pub by_files-Mem :
      (es : List (KeyEntry Key)) (e : KeyEntry Key) → Memᴰ e (by_files es) → Memᴰ e es
  by_files-Mem [] e m = m
  by_files-Mem (x ∷ xs) e m = elim (put_file-inv x (by_files xs) e m) [
    | inl i ↦ Memᴰ.head i
    | inr (h, _) ↦ Memᴰ.tail (by_files-Mem xs e h)
  ]

  pub by_files-all :
      (es : List (KeyEntry Key)) (e : KeyEntry Key) → HasFiles es → Memᴰ e es → Memᴰ e (by_files es)
  by_files-all [] e u m = m
  by_files-all (x ∷ xs) e u (Memᴰ.head i) = Memᴰ.head i
  by_files-all (x ∷ xs) e u (Memᴰ.tail m) = elim (Bool-cases (str_eq e.filename x.filename)) [
    | inl same ↦
        Memᴰ.head (u e x (Memᴰ.tail m) (Memᴰ.head refl) ((eq_iff e.filename x.filename).0 same))
    | inr differs ↦
        put_file-keep x (by_files xs)
          (by_files-all xs e (λ a b ma mb. u a b (Memᴰ.tail ma) (Memᴰ.tail mb)) m)
          (λ i. ground (arith, (eq_iff e.filename x.filename).1 i))
  ]

pub remove-keep : (name x : String) (l : List String) → Memᴰ x l → x ≢ name → Memᴰ x (remove name l)
remove-keep name x l m ne =
    Mem-filter (λ (y : String). not (str_eq y name)) l m (ground (arith, eq_iff x name))
