-- ===== src/Base/Lists.antt =====
-- Lists measured and indexed by native numbers, under the library's names, and membership facts.
use Prim.Native.Nat.{ℕ, zero, suc, ◌+◌, ◌-◌, ◌≤◌}
use mathlib.Core.Path.{◌≡◌, refl, sym, ap, ◌∙◌}
use mathlib.Core.Logic.{◌⊎◌, inl, inr}
use Prim.Native.String.{String, ◌++◌ as str_append}
use text.Mathlib.Text.{◌==◌ as str_eq}
use text.Mathlib.TextEquality.{eq_iff}
use mathlib.Core.Bool.{Bool, true, false, ◌||◌}
use mathlib.Core.List.{List, [], ◌∷◌, ◌++◌, map, Memᴰ}
use mathlib.Core.Option.{Option, none, some}
use native.Mathlib.Omega.{arith}
use go_base.Base.Tests.{if◌then◌else◌, Bool-cases}

module _ {ℓ} {A : Type ℓ} where
  abbrev pub length : List A → ℕ
  length [] = 0
  length (x ∷ xs) = suc (length xs)

  abbrev pub get_elem? : List A → ℕ → Option A
  get_elem? [] i = none
  get_elem? (x ∷ xs) zero = some x
  get_elem? (x ∷ xs) (suc i) = get_elem? xs i

  pub length-append : (xs ys : List A) → length (xs ++ ys) ≡ length xs + length ys
  length-append [] ys = omega arith
  length-append (x ∷ xs) ys = omega (arith, length-append xs ys)

  -- The rows that a test keeps: the library's `filter` for a Boolean test.
  abbrev pub filter : (A → Bool) → List A → List A
  filter p [] = []
  filter p (x ∷ xs) = let rest = filter p xs in if p x then x ∷ rest else rest

module _ {ℓ} {A : Type ℓ} where
  keep-inv :
      (b : Bool) {a x : A} {l : List A}
      → Memᴰ a (if b then x ∷ l else l)
      → ((a ≡ x) × (b ≡ true)) ⊎ Memᴰ a l
  keep-inv true (Memᴰ.head q) = inl (q, refl)
  keep-inv true (Memᴰ.tail m) = inr m
  keep-inv false m = inr m

  keep_tail : (b : Bool) {a : A} (x : A) {l : List A} → Memᴰ a l → Memᴰ a (if b then x ∷ l else l)
  keep_tail true x m = Memᴰ.tail m
  keep_tail false x m = m

  -- What the list of kept rows holds, both ways.
  pub Mem-filter_inv :
      (p : A → Bool) (l : List A) {a : A} → Memᴰ a (filter p l) → Memᴰ a l × (p a ≡ true)
  Mem-filter_inv p [] h = elim h [ ]
  Mem-filter_inv p (x ∷ xs) h = elim (keep-inv (p x) h) [
    | inl (q, e) ↦ (Memᴰ.head q, rw q e)
    | inr m ↦ let (m', e) = Mem-filter_inv p xs m in (Memᴰ.tail m', e)
  ]

  pub Mem-filter : (p : A → Bool) {a : A} (l : List A) → Memᴰ a l → p a ≡ true → Memᴰ a (filter p l)
  Mem-filter p [] m e = elim m [ ]
  Mem-filter p (x ∷ xs) (Memᴰ.head q) e = rw (ap p (sym q) ∙ e) (Memᴰ.head q)
  Mem-filter p (x ∷ xs) (Memᴰ.tail m) e = keep_tail (p x) x (Mem-filter p xs m e)

module _ {ℓ κ} {A : Type ℓ} {B : Type κ} where
  pub Mem-map : (f : A → B) {a : A} (l : List A) → Memᴰ a l → Memᴰ (f a) (map f l)
  Mem-map f [] m = elim m [ ]
  Mem-map f (x ∷ xs) (Memᴰ.head q) = Memᴰ.head (ap f q)
  Mem-map f (x ∷ xs) (Memᴰ.tail m) = Memᴰ.tail (Mem-map f xs m)

  pub Mem-map_inv :
      (f : A → B) (l : List A) {b : B} → Memᴰ b (map f l) → (a : A) × Memᴰ a l × (b ≡ f a)
  Mem-map_inv f [] h = elim h [ ]
  Mem-map_inv f (x ∷ xs) (Memᴰ.head q) = (x, Memᴰ.head refl, q)
  Mem-map_inv f (x ∷ xs) (Memᴰ.tail m) = let (a, h, e) = Mem-map_inv f xs m in (a, Memᴰ.tail h, e)

module _ {ℓ} {A : Type ℓ} where
  pub Mem-append_left : {a : A} (l : List A) (m : List A) → Memᴰ a l → Memᴰ a (l ++ m)
  Mem-append_left [] m h = elim h [ ]
  Mem-append_left (x ∷ xs) m (Memᴰ.head e) = Memᴰ.head e
  Mem-append_left (x ∷ xs) m (Memᴰ.tail h) = Memᴰ.tail (Mem-append_left xs m h)

  pub Mem-append_right : {a : A} (l : List A) {m : List A} → Memᴰ a m → Memᴰ a (l ++ m)
  Mem-append_right [] h = h
  Mem-append_right (x ∷ xs) h = Memᴰ.tail (Mem-append_right xs h)

  pub Mem-append_inv : {a : A} (l : List A) {m : List A} → Memᴰ a (l ++ m) → Memᴰ a l ⊎ Memᴰ a m
  Mem-append_inv [] h = inr h
  Mem-append_inv (x ∷ xs) (Memᴰ.head e) = inl (Memᴰ.head e)
  Mem-append_inv (x ∷ xs) (Memᴰ.tail h) = elim (Mem-append_inv xs h) [
    | inl m ↦ inl (Memᴰ.tail m)
    | inr m ↦ inr m
  ]

  -- What a list holds after an element is added at its end.
  pub Mem-snoc_inv : {a b : A} (l : List A) → Memᴰ a (l ++ b ∷ []) → Memᴰ a l ⊎ (a ≡ b)
  Mem-snoc_inv [] (Memᴰ.head e) = inr e
  Mem-snoc_inv [] (Memᴰ.tail h) = elim h [ ]
  Mem-snoc_inv (x ∷ xs) (Memᴰ.head e) = inl (Memᴰ.head e)
  Mem-snoc_inv (x ∷ xs) (Memᴰ.tail h) = elim (Mem-snoc_inv xs h) [
    | inl m ↦ inl (Memᴰ.tail m)
    | inr e ↦ inr e
  ]

module _ {ℓ} {A : Type ℓ} where
  abbrev pub take : ℕ → List A → List A
  take zero xs = []
  take (suc n) [] = []
  take (suc n) (x ∷ xs) = x ∷ take n xs

  abbrev pub drop : ℕ → List A → List A
  drop zero xs = xs
  drop (suc n) [] = []
  drop (suc n) (x ∷ xs) = drop n xs

  -- Two lists that were joined come apart where the first ends.
  pub take-append : (n : ℕ) (xs ys : List A) → length xs ≡ n → take n (xs ++ ys) ≡ xs
  take-append zero [] ys e = refl
  take-append zero (x ∷ xs) ys e = absurd (omega (arith, e))
  take-append (suc n) [] ys e = absurd (omega (arith, e))
  take-append (suc n) (x ∷ xs) ys e =
      ap (λ (l : List A). x ∷ l) (take-append n xs ys (omega (arith, e)))

  pub drop-append : (n : ℕ) (xs ys : List A) → length xs ≡ n → drop n (xs ++ ys) ≡ ys
  drop-append zero [] ys e = refl
  drop-append zero (x ∷ xs) ys e = absurd (omega (arith, e))
  drop-append (suc n) [] ys e = absurd (omega (arith, e))
  drop-append (suc n) (x ∷ xs) ys e = drop-append n xs ys (omega (arith, e))

  pub take-drop : (n : ℕ) (xs : List A) → take n xs ++ drop n xs ≡ xs
  take-drop zero xs = refl
  take-drop (suc n) [] = refl
  take-drop (suc n) (x ∷ xs) = ap (λ (l : List A). x ∷ l) (take-drop n xs)

  pub length-drop : (n : ℕ) (xs : List A) → length (drop n xs) ≡ length xs - n
  length-drop zero xs = omega arith
  length-drop (suc n) [] = omega arith
  length-drop (suc n) (x ∷ xs) = omega (arith, length-drop n xs)

  pub length-take : (n : ℕ) (xs : List A) → n ≤ length xs → length (take n xs) ≡ n
  length-take zero xs h = refl
  length-take (suc n) [] h = absurd (omega arith)
  length-take (suc n) (x ∷ xs) h = omega (arith, length-take n xs (omega arith))

-- Whether a text is in a list.
abbrev pub listed : String → List String → Bool
listed v [] = false
listed v (w ∷ ws) = str_eq w v || listed v ws

pub listed-Mem : (v : String) (l : List String) → listed v l ≡ true → Memᴰ v l
listed-Mem v [] h = absurd (cc)
listed-Mem v (w ∷ ws) h = elim (Bool-cases (str_eq w v)) [
  | inl e ↦ Memᴰ.head (sym ((eq_iff w v).0 e))
  | inr e ↦ Memᴰ.tail (listed-Mem v ws (ground arith))
]

pub Mem-listed : (v : String) (l : List String) → Memᴰ v l → listed v l ≡ true
Mem-listed v [] m = elim m [ ]
Mem-listed v (w ∷ ws) (Memᴰ.head e) = ground (arith, (eq_iff w v).1 (sym e))
Mem-listed v (w ∷ ws) (Memᴰ.tail m) = ground (arith, Mem-listed v ws m)

abbrev pub concat : List String → String
concat [] = ""
concat (s ∷ ss) = str_append s (concat ss)

-- `strings.Join`, the separator first.
abbrev pub join : String → List String → String
join sep [] = ""
join sep (s ∷ []) = s
join sep (s ∷ t ∷ ts) = str_append s (str_append sep (join sep (t ∷ ts)))
