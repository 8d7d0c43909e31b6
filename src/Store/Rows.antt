-- ===== src/Store/Rows.antt =====
-- internal/db/store.go: what one statement does to a table. A table is the list of its rows, in the
-- order in which they were inserted; a row is found by its id.
use zent_proxy.Base.{
  ℕ, ◌<◌, ◌≡◌, refl, sym, ◌≢◌, ◌⊎◌, inl, inr, true, Option, none, some, List, [], ◌∷◌, ◌++◌, arith,
  ◌==◌, if◌then◌else◌, Bool-cases, In,
}

module _ {A : Type 0} (id_of : A → ℕ) where
  -- SELECT … WHERE id=?
  unfoldable pub find : ℕ → List A → Option A
  find k [] = none
  find k (a ∷ rows) = if id_of a == k then some a else find k rows

  -- UPDATE … WHERE id=?
  unfoldable pub replace : ℕ → (A → A) → List A → List A
  replace k f [] = []
  replace k f (a ∷ rows) = (if id_of a == k then f a else a) ∷ replace k f rows

  -- DELETE … WHERE id=?
  unfoldable pub remove : ℕ → List A → List A
  remove k [] = []
  remove k (a ∷ rows) = let rest = remove k rows in if id_of a == k then rest else a ∷ rest

  pub find-inv : (k : ℕ) (rows : List A) (a : A) → find k rows ≡ some a → In a rows × (id_of a ≡ k)
  unfolding find
  find-inv k [] a h = absurd (cc)
  find-inv k (b ∷ rows) a h = elim (Bool-cases (id_of b == k)) [
    | inl e ↦ let p : b ≡ a = ground arith in (inl (sym p), ground arith)
    | inr e ↦ let (i, q) = find-inv k rows a (rw e at h) in (inr i, q)
  ]

  pub In-remove : (k : ℕ) (rows : List A) (b : A) → In b (remove k rows) → In b rows
  unfolding remove
  In-remove k [] b i = elim i [ ]
  In-remove k (a ∷ rows) b i = elim (Bool-cases (id_of a == k)) [
    | inl e ↦ inr (In-remove k rows b (rw e at i))
    | inr e ↦ elim (rw e at i) [ inl p ↦ inl p | inr j ↦ inr (In-remove k rows b j) ]
  ]

  -- A row of a table in which one row was written: another row, or the one written.
  pub In-replace :
      (k : ℕ) (f : A → A) (rows : List A) (b : A)
      → In b (replace k f rows)
      → (In b rows × (id_of b ≢ k)) ⊎ ((a : A) × In a rows × (id_of a ≡ k) × (b ≡ f a))
  unfolding replace
  In-replace k f [] b i = elim i [ ]
  In-replace k f (a ∷ rows) b (inl p) = elim (Bool-cases (id_of a == k)) [
    | inl e ↦ inr (a, inl refl, ground arith, ground arith)
    | inr e ↦ let p : b ≡ a = ground arith in inl (inl p, λ q. ground arith)
  ]
  In-replace k f (a ∷ rows) b (inr i) = elim (In-replace k f rows b i) [
    | inl (j, n) ↦ inl (inr j, n)
    | inr (c, j, p, q) ↦ inr (c, inr j, p, q)
  ]

  -- Deleting the row that was just inserted gives the table that was there.
  pub remove-insert :
      (k : ℕ) (rows : List A) (a : A)
      → ((b : A) → In b rows → id_of b < k)
      → id_of a ≡ k
      → remove k (rows ++ (a ∷ [])) ≡ rows
  unfolding remove
  remove-insert k [] a h p = ground arith
  remove-insert k (b ∷ rows) a h p =
      let lt : id_of b < k = h b (inl refl) in
      let rest : remove k (rows ++ (a ∷ [])) ≡ rows =
        remove-insert k rows a (λ c i. h c (inr i)) p in
      ground arith

  -- A row that was just inserted under a new id is found.
  pub find-insert :
      (k : ℕ) (rows : List A) (a : A)
      → ((b : A) → In b rows → id_of b < k)
      → id_of a ≡ k
      → find k (rows ++ (a ∷ [])) ≡ some a
  unfolding find
  find-insert k [] a h p = ground arith
  find-insert k (b ∷ rows) a h p =
      let lt : id_of b < k = h b (inl refl) in
      let rest : find k (rows ++ (a ∷ [])) ≡ some a = find-insert k rows a (λ c i. h c (inr i)) p in
      ground arith

  -- A row is found again after it was written under its id.
  pub find-replace :
      (k : ℕ) (f : A → A) (rows : List A) (a : A)
      → ((b : A) → id_of (f b) ≡ id_of b)
      → find k rows ≡ some a
      → (b : A) × (find k (replace k f rows) ≡ some b)
  unfolding find replace
  find-replace k f [] a same h = absurd (cc)
  find-replace k f (c ∷ rows) a same h = elim (Bool-cases (id_of c == k)) [
    | inl e ↦
        let q : id_of (f c) ≡ id_of c = same c in
        let t : (id_of (f c) == k) ≡ true = rw q e in (f c, rw e (rw t refl))
    | inr e ↦ let (b, q) = find-replace k f rows a same (rw e at h) in (b, rw e (rw e q))
  ]
