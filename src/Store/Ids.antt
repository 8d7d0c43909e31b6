-- ===== src/Store/Ids.antt =====
-- internal/db/store.go: proofs on the ids of a table, a primary key.
use zent_proxy.Base.{
  ℕ, ◌<◌, ◌≡◌, refl, sym, ap, ◌∙◌, subst, ◌≢◌, ◌↔◌, ◌⊎◌, inl, inr, some, List, [], ◌∷◌, ◌++◌, map,
  arith, ◌==◌, ==_iff, Bool-cases, In,
}
use zent_proxy.Store.Rows.{find, replace, remove}

-- No id stands twice.
abbrev pub AreUnique : List ℕ → Type 0
AreUnique [] = Unit
AreUnique (k ∷ ks) = ¬ In k ks × AreUnique ks

pub In-map_append :
    {A : Type 0} (f : A → ℕ) (k : ℕ) (xs : List A) (a : A)
    → In k (map f (xs ++ (a ∷ [])))
    → In k (map f xs) ⊎ (k ≡ f a)
In-map_append f k [] a (inl e) = inr e
In-map_append f k [] a (inr i) = elim i [ ]
In-map_append f k (x ∷ xs) a (inl e) = inl (inl e)
In-map_append f k (x ∷ xs) a (inr i) = elim (In-map_append f k xs a i) [
  | inl j ↦ inl (inr j)
  | inr e ↦ inr e
]

pub In-map_left :
    {A : Type 0} (f : A → ℕ) (k : ℕ) (xs : List A) (a : A)
    → In k (map f xs)
    → In k (map f (xs ++ (a ∷ [])))
In-map_left f k [] a i = elim i [ ]
In-map_left f k (x ∷ xs) a (inl e) = inl e
In-map_left f k (x ∷ xs) a (inr i) = inr (In-map_left f k xs a i)

pub AreUnique-insert :
    {A : Type 0} (f : A → ℕ) (xs : List A) (a : A)
    → AreUnique (map f xs)
    → ((k : ℕ) → In k (map f xs) → k < f a)
    → AreUnique (map f (xs ++ (a ∷ [])))
AreUnique-insert f [] a u h = (λ i. i, tt)
AreUnique-insert f (x ∷ xs) a (n, u) h = (
  λ i. elim (In-map_append f (f x) xs a i) [
    | inl j ↦ n j
    | inr e ↦ let lt : f x < f a = h (f x) (inl refl) in omega arith
  ],
  AreUnique-insert f xs a u (λ k i. h k (inr i)),
)

module _ {A : Type 0} (id_of : A → ℕ) where
  pub ids-replace :
      (k : ℕ) (f : A → A) (rows : List A)
      → ((a : A) → id_of (f a) ≡ id_of a)
      → map id_of (replace id_of k f rows) ≡ map id_of rows
  unfolding replace
  ids-replace k f [] h = refl
  ids-replace k f (a ∷ rows) h = elim (Bool-cases (id_of a == k)) [
    | inl e ↦ rw e (cc (h a, ids-replace k f rows h))
    | inr e ↦ rw e (cc (ids-replace k f rows h))
  ]

  pub In-ids_remove :
      (k j : ℕ) (rows : List A)
      → In j (map id_of (remove id_of k rows)) ↔ (In j (map id_of rows) × (j ≢ k))
  unfolding remove
  In-ids_remove k j [] = ground arith
  In-ids_remove k j (a ∷ rows) = ground (arith, In-ids_remove k j rows)

  pub AreUnique-remove :
      (k : ℕ) (rows : List A)
      → AreUnique (map id_of rows)
      → AreUnique (map id_of (remove id_of k rows))
  unfolding remove
  AreUnique-remove k [] u = tt
  AreUnique-remove k (a ∷ rows) (n, u) = elim (Bool-cases (id_of a == k)) [
    | inl e ↦ rw e (AreUnique-remove k rows u)
    | inr e ↦ rw e (λ i. n ((In-ids_remove k (id_of a) rows).0 i).0, AreUnique-remove k rows u)
  ]

  pub In-ids : (a : A) (rows : List A) → In a rows → In (id_of a) (map id_of rows)
  In-ids a [] i = elim i [ ]
  In-ids a (b ∷ rows) (inl e) = inl (ap id_of e)
  In-ids a (b ∷ rows) (inr i) = inr (In-ids a rows i)

  -- A row is found under its id.
  pub find-own :
      (a : A) (rows : List A)
      → AreUnique (map id_of rows)
      → In a rows
      → find id_of (id_of a) rows ≡ some a
  unfolding find
  find-own a [] u i = elim i [ ]
  find-own a (b ∷ rows) (n, u) (inl e) = ground (arith, e)
  find-own a (b ∷ rows) (n, u) (inr i) = elim (Bool-cases (id_of b == id_of a)) [
    | inl q ↦
        let s : id_of b ≡ id_of a = ground arith in
        absurd (n (subst (λ k. In k (map id_of rows)) (sym s) (In-ids a rows i)))
    | inr q ↦ rw q (find-own a rows u i)
  ]

  -- Deleting keeps the rows with another id.
  pub In-remove_other :
      (k : ℕ) (a : A) (rows : List A) → In a rows → id_of a ≢ k → In a (remove id_of k rows)
  unfolding remove
  In-remove_other k a [] i n = elim i [ ]
  In-remove_other k a (b ∷ rows) (inl e) n = elim (Bool-cases (id_of b == k)) [
    | inl q ↦ absurd (n (ap id_of e ∙ (==_iff (id_of b) k).0 q))
    | inr q ↦ rw q (inl e)
  ]
  In-remove_other k a (b ∷ rows) (inr i) n = elim (Bool-cases (id_of b == k)) [
    | inl q ↦ rw q (In-remove_other k a rows i n)
    | inr q ↦ rw q (inr (In-remove_other k a rows i n))
  ]

  -- Writing a row changes none that the function leaves as it is.
  pub In-replace_fixed :
      (k : ℕ) (f : A → A) (a : A) (rows : List A)
      → f a ≡ a
      → In a rows
      → In a (replace id_of k f rows)
  unfolding replace
  In-replace_fixed k f a [] h i = elim i [ ]
  In-replace_fixed k f a (b ∷ rows) h (inl e) = elim (Bool-cases (id_of b == k)) [
    | inl q ↦ rw q (inl (sym h ∙ ap f e))
    | inr q ↦ rw q (inl e)
  ]
  In-replace_fixed k f a (b ∷ rows) h (inr i) = inr (In-replace_fixed k f a rows h i)
