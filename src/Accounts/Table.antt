-- ===== src/Accounts/Table.antt =====
-- The SQL that src/tryops/db.py runs on one table: rows in a list, with a text as primary key.
use try_ops_try_on_mlops.Base.{
  ◌+◌, String, string_eq, Bool, true, false, ◌≡◌, refl, sym, Option, none, some, List, [], ◌∷◌,
  ◌++◌, count_if, All, arith, if◌then◌else◌, Bool-cases, inl, inr, ◌≢◌, Option-cases, All-append,
}

module _ {A : Type 0} where
  -- `SELECT * ... WHERE p`, and the first row of it
  abbrev pub find_row : (A → Bool) → List A → Option A
  find_row p [] = none
  find_row p (r ∷ rs) = let rest = find_row p rs in if p r then some r else rest

  -- `UPDATE ... SET f WHERE p`
  abbrev pub update_rows : (A → Bool) → (A → A) → List A → List A
  update_rows p f [] = []
  update_rows p f (r ∷ rs) = (if p r then f r else r) ∷ update_rows p f rs

  -- `INSERT`, unless the row clashes with one that is there
  abbrev pub insert_row : (A → A → Bool) → A → List A → Option (List A)
  insert_row clashes r rs = elim (find_row (clashes r) rs) [
    | none ↦ some (rs ++ (r ∷ []))
    | some other ↦ none
  ]

  pub find_row-true : (p : A → Bool) (rs : List A) (r : A) → find_row p rs ≡ some r → p r ≡ true
  find_row-true p [] r h = cc
  find_row-true p (s ∷ rs) r h = elim (Bool-cases (p s)) [
    | inl t ↦ let same : s ≡ r = ground (arith, h, t) in rw (← same) t
    | inr f ↦ find_row-true p rs r (ground (arith, h, f))
  ]

  find_row-none : (p : A → Bool) (rs : List A) → find_row p rs ≡ none → All (λ r. p r ≡ false) rs
  find_row-none p [] h = tt
  find_row-none p (s ∷ rs) h = elim (Bool-cases (p s)) [
    | inl t ↦ absurd (let e : some s ≡ none = ground (arith, h, t) in cc)
    | inr f ↦ (f, find_row-none p rs (ground (arith, h, f)))
  ]

  find_row-All :
      (P : A → Type 0) (p : A → Bool) (rs : List A) (r : A)
      → find_row p rs ≡ some r
      → All P rs
      → P r
  find_row-All P p [] r h all = cc
  find_row-All P p (s ∷ rs) r h all = elim (Bool-cases (p s)) [
    | inl t ↦ let same : s ≡ r = ground (arith, h, t) in rw (← same) all.0
    | inr f ↦ find_row-All P p rs r (ground (arith, h, f)) all.1
  ]

  -- Rows that an update does not reach stay.
  update_rows-none :
      (p : A → Bool) (f : A → A) (rs : List A) → All (λ r. p r ≡ false) rs → update_rows p f rs ≡ rs
  update_rows-none p f [] h = refl
  update_rows-none p f (r ∷ rs) h = rw (h.0, update_rows-none p f rs h.1)

  module _ (key : A → String) where
    -- what the primary key of the table means
    abbrev pub Distinct : List A → Type 0
    Distinct [] = Unit
    Distinct (r ∷ rs) = All (λ s. key s ≢ key r) rs × Distinct rs

    -- A test that fixes the key is false on the rows with another.
    others-false :
        (p : A → Bool) (r : A) (rs : List A)
        → ((s : A) → p s ≡ true → key s ≡ key r)
        → All (λ s. key s ≢ key r) rs
        → All (λ s. p s ≡ false) rs
    others-false p r [] fixed h = tt
    others-false p r (s ∷ rs) fixed h = (
      elim (Bool-cases (p s)) [ inl t ↦ absurd (h.0 (fixed s t)) | inr f ↦ f ],
      others-false p r rs fixed h.1,
    )

    -- An update of the one row with a key changes the count by that row.
    pub count_if-update_rows :
        (p q : A → Bool) (f : A → A) (rs : List A) (r : A)
        → Distinct rs
        → ((s t : A) → p s ≡ true → p t ≡ true → key s ≡ key t)
        → find_row p rs ≡ some r
        → count_if q (update_rows p f rs) + (if q r then 1 else 0)
          ≡ count_if q rs + (if q (f r) then 1 else 0)
    count_if-update_rows p q f [] r d fixed h = cc
    count_if-update_rows p q f (s ∷ rs) r d fixed h = elim (Bool-cases (p s)) [
      | inl t ↦
          let same : s ≡ r = ground (arith, h, t) in
          let rest = update_rows-none p f rs (others-false p s rs (λ u pu. fixed u s pu t) d.0) in
          rw (t, rest) (rw same (omega arith))
      | inr e ↦
          let rest : find_row p rs ≡ some r = ground (arith, h, e) in
          rw e (omega (arith, count_if-update_rows p q f rs r d.1 fixed rest))
    ]

    -- A row that one test finds is the one that its key finds.
    pub find_row-by_key :
        (p q : A → Bool) (rs : List A) (r : A)
        → Distinct rs
        → ((s t : A) → q s ≡ true → q t ≡ true → key s ≡ key t)
        → find_row p rs ≡ some r
        → q r ≡ true
        → find_row q rs ≡ some r
    find_row-by_key p q [] r d fixed h hit = cc
    find_row-by_key p q (s ∷ rs) r d fixed h hit = elim (Bool-cases (p s)) [
      | inl t ↦
          let same : s ≡ r = ground (arith, h, t) in
          let there : q s ≡ true = rw same hit in rw (there, same) refl
      | inr f ↦
          let rest : find_row p rs ≡ some r = ground (arith, h, f) in
          elim (Bool-cases (q s)) [
            | inl t ↦
                absurd (find_row-All (λ u. key u ≢ key s) p rs r rest d.0 (sym (fixed s r t hit)))
            | inr e ↦ rw e (find_row-by_key p q rs r d.1 fixed rest hit)
          ]
    ]

    update_rows-keys :
        (p : A → Bool) (f : A → A) (k : String) (rs : List A)
        → ((s : A) → key (f s) ≡ key s)
        → All (λ s. key s ≢ k) rs
        → All (λ s. key s ≢ k) (update_rows p f rs)
    update_rows-keys p f k [] keeps h = tt
    update_rows-keys p f k (s ∷ rs) keeps h = (
      elim (Bool-cases (p s)) [ inl t ↦ rw t (rw keeps h.0) | inr e ↦ rw e h.0 ],
      update_rows-keys p f k rs keeps h.1,
    )

    pub update_rows-Distinct :
        (p : A → Bool) (f : A → A) (rs : List A)
        → ((s : A) → key (f s) ≡ key s)
        → Distinct rs
        → Distinct (update_rows p f rs)
    update_rows-Distinct p f [] keeps d = tt
    update_rows-Distinct p f (s ∷ rs) keeps d = (
      elim (Bool-cases (p s)) [
        | inl t ↦ rw t (rw keeps (update_rows-keys p f (key s) rs keeps d.0))
        | inr e ↦ rw e (update_rows-keys p f (key s) rs keeps d.0)
      ],
      update_rows-Distinct p f rs keeps d.1,
    )

    append-Distinct :
        (r : A) (rs : List A)
        → All (λ s. key s ≢ key r) rs
        → Distinct rs
        → Distinct (rs ++ (r ∷ []))
    append-Distinct r [] h d = (tt, tt)
    append-Distinct r (s ∷ rs) h d = (
      All-append (λ u. key u ≢ key s) rs (r ∷ []) d.0 ((λ e. h.0 (sym e)), tt),
      append-Distinct r rs h.1 d.1,
    )

    fresh_keys :
        (clashes : A → A → Bool) (r : A) (rs : List A)
        → ((s : A) → key s ≡ key r → clashes r s ≡ true)
        → All (λ s. clashes r s ≡ false) rs
        → All (λ s. key s ≢ key r) rs
    fresh_keys clashes r [] seen h = tt
    fresh_keys clashes r (s ∷ rs) seen h =
        ((λ e. let t = seen s e in let f = h.0 in cc (t, f)), fresh_keys clashes r rs seen h.1)

    -- A row is inserted at the end, and only under a new key.
    pub insert_row-Distinct :
        (clashes : A → A → Bool) (r : A) (rs rs' : List A)
        → ((s : A) → key s ≡ key r → clashes r s ≡ true)
        → insert_row clashes r rs ≡ some rs'
        → Distinct rs
        → (rs' ≡ rs ++ (r ∷ [])) × Distinct rs'
    insert_row-Distinct clashes r rs rs' seen h d = elim (Option-cases (find_row (clashes r) rs)) [
      | inl none_there ↦
          let same : rs ++ (r ∷ []) ≡ rs' = ground (arith, h, none_there) in
          rw (← same) (
            refl,
            append-Distinct r rs
                (fresh_keys clashes r rs seen (find_row-none (clashes r) rs none_there)) d,
          )
      | inr (other, there) ↦ absurd (let e : none ≡ some rs' = ground (arith, h, there) in cc)
    ]
