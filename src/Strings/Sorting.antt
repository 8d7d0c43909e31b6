-- ===== src/Strings/Sorting.antt =====
-- `sort.Strings` and `sort.Slice`. Go's order of texts is that of their bytes, a total order, so
-- the sorted permutation of a list of texts is unique: here it is computed by insertion.
use zent_proxy.Base.{
  suc, ◌≡◌, refl, sym, ap, ◌∙◌, ◌↔◌, inl, inr, Bool, true, false, ◌&&◌, ◌||◌, List, [], ◌∷◌, arith,
  ltb, ◌==◌, if◌then◌else◌, Bool-cases, length, In, Text,
}
use zent_proxy.Strings.Equality.{Distinct}
use mathlib.Core.List.{Perm}
use mathlib.Core.List.Perm

unfoldable pub text_le : Text → Text → Bool
text_le [] t = true
text_le (a ∷ s) [] = false
text_le (a ∷ s) (b ∷ t) = ltb a b || (a == b && text_le s t)

pub text_le_total : (s t : Text) → text_le s t ≡ false → text_le t s ≡ true
unfolding text_le
text_le_total [] t h = cc
text_le_total (a ∷ s) [] h = refl
text_le_total (a ∷ s) (b ∷ t) h = ground (arith, text_le_total s t)

pub text_le_antisym : (s t : Text) → text_le s t ≡ true → text_le t s ≡ true → s ≡ t
unfolding text_le
text_le_antisym [] [] h k = refl
text_le_antisym [] (b ∷ t) h k = cc
text_le_antisym (a ∷ s) [] h k = cc
text_le_antisym (a ∷ s) (b ∷ t) h k = ground (arith, text_le_antisym s t)

pub text_le_trans : (s t u : Text) → text_le s t ≡ true → text_le t u ≡ true → text_le s u ≡ true
unfolding text_le
text_le_trans [] t u h k = refl
text_le_trans (a ∷ s) [] u h k = cc
text_le_trans (a ∷ s) (b ∷ t) [] h k = cc
text_le_trans (a ∷ s) (b ∷ t) (c ∷ u) h k = ground (arith, text_le_trans s t u)

module _ {A : Type 0} (le : A → A → Bool) where
  unfoldable pub insert : A → List A → List A
  insert x [] = x ∷ []
  insert x (y ∷ ys) = if le x y then x ∷ y ∷ ys else y ∷ insert x ys

  unfoldable pub sort_by : List A → List A
  unfolding insert
  sort_by [] = []
  sort_by (x ∷ xs) = insert x (sort_by xs)

  In-insert : (a x : A) (ys : List A) → In a (insert x ys) ↔ In a (x ∷ ys)
  unfolding insert
  In-insert a x [] = ground arith
  In-insert a x (y ∷ ys) = ground (arith, In-insert a x ys)

  -- Sorting keeps the members.
  pub In-sort_by : (a : A) (xs : List A) → In a (sort_by xs) ↔ In a xs
  unfolding sort_by
  In-sort_by a [] = ground arith
  In-sort_by a (x ∷ xs) = ground (arith, In-insert a x (sort_by xs), In-sort_by a xs)

  insert-perm : (x : A) (ys : List A) → Perm (insert x ys) (x ∷ ys)
  unfolding insert
  insert-perm x [] = Perm.refl _
  insert-perm x (y ∷ ys) = elim (Bool-cases (le x y)) [
    | inl e ↦ rw e (Perm.refl _)
    | inr e ↦ rw e (Perm.trans (Perm.cons y (insert-perm x ys)) (Perm.swap x y ys))
  ]

  pub sort_by-perm : (xs : List A) → Perm (sort_by xs) xs
  unfolding sort_by
  sort_by-perm [] = Perm.refl _
  sort_by-perm (x ∷ xs) = Perm.trans (insert-perm x (sort_by xs)) (Perm.cons x (sort_by-perm xs))

  length-insert : (x : A) (ys : List A) → length (insert x ys) ≡ suc (length ys)
  unfolding insert
  length-insert x [] = refl
  length-insert x (y ∷ ys) = ground (arith, length-insert x ys)

  pub length-sort_by : (xs : List A) → length (sort_by xs) ≡ length xs
  unfolding sort_by
  length-sort_by [] = refl
  length-sort_by (x ∷ xs) = omega (arith, length-insert x (sort_by xs), length-sort_by xs)

-- `sort.Strings`
unfoldable pub sort_texts : List Text → List Text
sort_texts xs = sort_by text_le xs

-- Each text is at most the next.
abbrev pub IsSorted : List Text → Type 0
IsSorted [] = Unit
IsSorted (x ∷ []) = Unit
IsSorted (x ∷ y ∷ r) = (text_le x y ≡ true) × IsSorted (y ∷ r)

insert-IsSorted : (x : Text) (ys : List Text) → IsSorted ys → IsSorted (insert text_le x ys)
unfolding insert
insert-IsSorted x [] h = tt
insert-IsSorted x (y ∷ []) h = ground (arith, text_le_total x y)
insert-IsSorted x (y ∷ z ∷ r) h =
    ground (arith, text_le_total x y, text_le_total x z, insert-IsSorted x (z ∷ r) h.1)

pub sort_texts-IsSorted : (xs : List Text) → IsSorted (sort_texts xs)
unfolding sort_texts sort_by
sort_texts-IsSorted [] = tt
sort_texts-IsSorted (x ∷ xs) = insert-IsSorted x (sort_texts xs) (sort_texts-IsSorted xs)

pub In-sort_texts : (a : Text) (xs : List Text) → In a (sort_texts xs) ↔ In a xs
unfolding sort_texts
In-sort_texts a xs = In-sort_by text_le a xs

insert_of_IsSorted : (x : Text) (ys : List Text) → IsSorted (x ∷ ys) → insert text_le x ys ≡ x ∷ ys
unfolding insert
insert_of_IsSorted x [] h = refl
insert_of_IsSorted x (y ∷ ys) (p, h) = rw p refl

IsSorted-tail : (x : Text) (xs : List Text) → IsSorted (x ∷ xs) → IsSorted xs
IsSorted-tail x [] h = tt
IsSorted-tail x (y ∷ r) h = h.1

-- A sorted list is its own sorting.
pub sort_texts_of_IsSorted : (xs : List Text) → IsSorted xs → sort_texts xs ≡ xs
unfolding sort_texts sort_by
sort_texts_of_IsSorted [] h = refl
sort_texts_of_IsSorted (x ∷ xs) h =
    ap (insert text_le x) (sort_texts_of_IsSorted xs (IsSorted-tail x xs h))
    ∙ insert_of_IsSorted x xs h

insert-Distinct :
    (x : Text) (ys : List Text) → ¬ In x ys → Distinct ys → Distinct (insert text_le x ys)
unfolding insert
insert-Distinct x [] n d = (λ h. h, tt)
insert-Distinct x (y ∷ ys) n (m, d) = elim (Bool-cases (text_le x y)) [
  | inl e ↦ rw e (n, (m, d))
  | inr e ↦ rw e (
    λ h. elim ((In-insert text_le y x ys).0 h) [ inl p ↦ n (inl (sym p)) | inr k ↦ m k ],
    insert-Distinct x ys (λ k. n (inr k)) d,
  )
]

-- Sorting makes no duplicates.
pub sort_texts-Distinct : (xs : List Text) → Distinct xs → Distinct (sort_texts xs)
unfolding sort_texts sort_by
sort_texts-Distinct [] d = tt
sort_texts-Distinct (x ∷ xs) (n, d) =
    insert-Distinct x (sort_texts xs) (λ h. n ((In-sort_texts x xs).0 h)) (sort_texts-Distinct xs d)
