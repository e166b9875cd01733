-- ===== src/Http/Validation.antt =====
-- pkg/errors/errors.go and pkg/http/clients/errors.go: the fields' errors, from the handler that
-- answers with them to the client that reads them.
use go_base.Base.{
  ℕ, ◌≤◌, leb, ltb, ◌&&◌, ==_iff, ok, ◌≡◌, ◌≢◌, refl, sym, ap, subst, ◌∙◌, ◌↔◌, inl, inr, false,
  Option, none, some, List, [], ◌∷◌, map, Mem-map, Mem-map_inv, Memᴰ, String, str_eq, eq_iff, ◌==◌,
  Bool-cases, arith,
}
use go_base.Http.{
  api, ValidationErrors, Messenger, Library, before, to_messenger, to_messengers,
  validation_errors_to_field_error_response,
}
use go_base.Http.Client.{HttpResponse, check_status, error_of}
use go_base.Http.Fields.{fold_entries-inv, fold_entries-found}
use go_base.Http.Response.{
  Entry, entry_of, lookup, Folded, fold_entry, fold_entries, response_errors, present,
  validation_errors, validation_errors_of, lookup_in,
}

-- The failures whose body the client does not keep, and the one whose general errors become a field's.
abbrev pub special_statuses : List ℕ
special_statuses = 401 ∷ 403 ∷ 404 ∷ 501 ∷ 522 ∷ []

-- The entries that a client reads of the response that a handler wrote.
abbrev pub entries : Library → ValidationErrors → List Entry
entries lib errs = map entry_of (validation_errors_to_field_error_response lib errs)

entry_of_messenger : (k v : String) → entry_of (to_messenger k v) ≡ (k, v)
entry_of_messenger k v = elim (Bool-cases (str_eq k "")) [
  | inl h ↦ rw h (λ i. (sym ((eq_iff k "").0 h) i, v))
  | inr h ↦ rw h refl
]

to_messengers-Mem :
    (errs : ValidationErrors) (k v : String)
    → Memᴰ (k, some v) errs
    → Memᴰ (to_messenger k v) (to_messengers errs)
to_messengers-Mem [] k v m = elim m [ ]
to_messengers-Mem ((j, none) ∷ errs) k v (Memᴰ.head e) =
    let q = ap (λ (p : String × Option String). p.1) e in absurd (cc)
to_messengers-Mem ((j, none) ∷ errs) k v (Memᴰ.tail m) = to_messengers-Mem errs k v m
to_messengers-Mem ((j, some t) ∷ errs) k v (Memᴰ.head e) =
    let i = ap (λ (p : String × Option String). p.0) e in
    let q = ap (λ (p : String × Option String). p.1) e in
    let q' : v ≡ t = ground arith in Memᴰ.head (λ x. to_messenger (i x) (q' x))
to_messengers-Mem ((j, some t) ∷ errs) k v (Memᴰ.tail m) = Memᴰ.tail (to_messengers-Mem errs k v m)

to_messengers-inv :
    (errs : ValidationErrors) (m : Messenger)
    → Memᴰ m (to_messengers errs)
    → (k v : String) × Memᴰ (k, some v) errs × (m ≡ to_messenger k v)
to_messengers-inv [] m h = elim h [ ]
to_messengers-inv ((j, none) ∷ errs) m h =
    let (k, v, i, e) = to_messengers-inv errs m h in (k, v, Memᴰ.tail i, e)
to_messengers-inv ((j, some t) ∷ errs) m (Memᴰ.head e) = (j, t, Memᴰ.head refl, e)
to_messengers-inv ((j, some t) ∷ errs) m (Memᴰ.tail h) =
    let (k, v, i, e) = to_messengers-inv errs m h in (k, v, Memᴰ.tail i, e)

module _ (lib : Library) (errs : ValidationErrors) where
  entries-Mem : (k v : String) → Memᴰ (k, some v) errs → Memᴰ (k, v) (entries lib errs)
  unfolding validation_errors_to_field_error_response
  entries-Mem k v m =
      subst (λ p. Memᴰ p (entries lib errs)) (entry_of_messenger k v)
        (Mem-map entry_of (validation_errors_to_field_error_response lib errs) (
          lib.sort_complete (before lib) (to_messengers (lib.walk errs)) (to_messenger k v)
            (to_messengers-Mem (lib.walk errs) k v (lib.walk_complete errs (k, some v) m))))

  entries-inv : (k v : String) → Memᴰ (k, v) (entries lib errs) → Memᴰ (k, some v) errs
  unfolding validation_errors_to_field_error_response
  entries-inv k v m =
      let (msg, i, e) =
        Mem-map_inv entry_of (validation_errors_to_field_error_response lib errs) m in
      let (j, w, h, q) =
        to_messengers-inv (lib.walk errs) msg
          (lib.sort_sound (before lib) (to_messengers (lib.walk errs)) msg i) in
      let same : (k, v) ≡ (j, w) = e ∙ ap entry_of q ∙ entry_of_messenger j w in
      subst (λ (p : Entry). Memᴰ (p.0, some p.1) errs) (sym same)
        (lib.walk_sound errs (j, some w) h)

  -- The same of the entries alone, in any status but 522.
  response_errors_iff :
      (status : ℕ) (k v : String)
      → ((j : String) (a b : Option String) → Memᴰ (j, a) errs → Memᴰ (j, b) errs → a ≡ b)
      → (status == 522) ≡ false
      → k ≢ ""
      → (lookup k (response_errors status (entries lib errs)).1 ≡ some v) ↔ Memᴰ (k, some v) errs
  unfolding response_errors fold_entries
  response_errors_iff status k v one s n =
      let start : Folded = record { validation = []; connectivity = []; general = [] } in
      let plain : (fold_entries status (entries lib errs) start).connectivity ≡ [] =
        no_connectivity (entries lib errs) start in
      (
        λ h.
            let h' : lookup k (fold_entries status (entries lib errs) start).validation ≡ some v =
              rw plain at h in
            elim (fold_entries-inv status (entries lib errs) start k v h') [
              | inl m ↦ entries-inv k v m
              | inr q ↦ absurd (cc)
            ],
        λ m. rw plain (
            fold_entries-found status (entries lib errs) start k v n
              (λ w i. let both = one k (some w) (some v) (entries-inv k w i) m in ground arith)
              (inl (entries-Mem k v m))),
      )
    where
      no_connectivity :
          (es : List Entry) (f : Folded) → (fold_entries status es f).connectivity ≡ f.connectivity
      no_connectivity [] f = refl
      no_connectivity ((j, t) ∷ es) f =
          no_connectivity es (fold_entry status (j, t) f)
          ∙ elim (Bool-cases (str_eq j "")) [ inl b ↦ rw (b, s) refl | inr b ↦ rw b refl ]

  lookup-present : (k : String) (l : List Entry) → lookup_in k (present l) ≡ lookup k l
  lookup-present k [] = refl
  lookup-present k (e ∷ es) = refl

  -- The client keeps the body of a failure whose status it has no sentinel for.
  check_status-api :
      (resp : HttpResponse) (text : String)
      → resp.body ≡ ok text
      → 300 ≤ resp.status
      → ¬ Memᴰ resp.status special_statuses
      → error_of (check_status resp)
        ≡ some (api record { status = resp.status; header = resp.header; response = text })
  check_status-api resp text body far away =
      let b : (leb 200 resp.status && ltb resp.status 300) ≡ false = ground arith in
      let x1 : (resp.status == 401) ≡ false = other 401 (Memᴰ.head refl) in
      let x3 : (resp.status == 403) ≡ false = other 403 (Memᴰ.tail (Memᴰ.head refl)) in
      let x4 : (resp.status == 404) ≡ false = other 404 (Memᴰ.tail (Memᴰ.tail (Memᴰ.head refl))) in
      let x5 : (resp.status == 501) ≡ false =
        other 501 (Memᴰ.tail (Memᴰ.tail (Memᴰ.tail (Memᴰ.head refl)))) in
      rw (b, x1, x3, x4, x5, body) refl
    where
      other : (n : ℕ) → Memᴰ n special_statuses → (resp.status == n) ≡ false
      other n m = elim (Bool-cases (resp.status == n)) [
        | inl h ↦
            absurd
              (away (subst (λ s. Memᴰ s special_statuses) (sym ((==_iff resp.status n).0 h)) m))
        | inr h ↦ h
      ]

  -- If the fields' errors have one error for each key, and the client receives the body that a
  -- handler wrote of them with a status from 300 on that is none of 401, 403, 404, 501 and 522,
  -- then `ValidationErrors` of the error that the client returns has a message for a key that is
  -- not empty exactly if it is the message of that key's error, in whatever order the handler wrote
  -- them.
  pub validation_round_trip :
      (decode : String → Option (List Entry)) (resp : HttpResponse) (text k v : String)
      → ((j : String) (a b : Option String) → Memᴰ (j, a) errs → Memᴰ (j, b) errs → a ≡ b)
      → resp.body ≡ ok text
      → decode text ≡ some (entries lib errs)
      → 300 ≤ resp.status
      → ¬ Memᴰ resp.status special_statuses
      → k ≢ ""
      → (lookup_in k (validation_errors_of decode (error_of (check_status resp))) ≡ some v)
        ↔ Memᴰ (k, some v) errs
  validation_round_trip decode resp text k v one body read far away n =
      let s : (resp.status == 522) ≡ false = elim (Bool-cases (resp.status == 522)) [
        | inl h ↦
            let m = Memᴰ.tail (Memᴰ.tail (Memᴰ.tail (Memᴰ.tail (Memᴰ.head refl)))) in
            absurd
              (away (subst (λ s. Memᴰ s special_statuses) (sym ((==_iff resp.status 522).0 h)) m))
        | inr h ↦ h
      ] in
      let found : lookup_in k (validation_errors_of decode (error_of (check_status resp)))
          ≡ lookup k (response_errors resp.status (entries lib errs)).1 =
        ap (λ e. lookup_in k (validation_errors_of decode e))
          (check_status-api resp text body far away)
        ∙ ap (λ es. lookup_in k (validation_errors resp.status es)) read
        ∙ lookup-present k (response_errors resp.status (entries lib errs)).1 in
      let (to, from) = response_errors_iff resp.status k v one s n in
      (λ h. to (sym found ∙ h), λ m. found ∙ from m)
