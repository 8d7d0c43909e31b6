-- ===== src/Providers/Sets.antt =====
-- internal/providers/manager.go: proofs on uniqueSorted and sameStrings.
use zent_proxy.Base.{
  suc, ◌≡◌, refl, sym, ap, ◌∙◌, subst, ◌↔◌, inl, inr, true, List, [], ◌∷◌, arith, Bool-cases,
  length, In, Text,
}
use zent_proxy.Strings.Equality.{text_eq_iff, has, has_iff, Distinct}
use zent_proxy.Strings.Sorting.{
  text_le, text_le_total, text_le_antisym, text_le_trans, insert, sort_by, sort_by-perm, sort_texts,
  IsSorted, sort_texts-IsSorted, In-sort_texts, sort_texts-Distinct,
}
use zent_proxy.Providers.{dedup, unique_sorted, texts_eq, same_strings}
use mathlib.Core.Bool.{Bool-set}
use mathlib.Core.Logic.{∥∥₁_elim}
use mathlib.Core.List.{Perm}
use mathlib.Core.List.Perm
use mathlib.Core.List.{Permᴰ}

texts_eq_iff : (xs ys : List Text) → (texts_eq xs ys ≡ true) ↔ (xs ≡ ys)
unfolding texts_eq
texts_eq_iff [] [] = ground arith
texts_eq_iff [] (y ∷ ys) = ground arith
texts_eq_iff (x ∷ xs) [] = ground arith
texts_eq_iff (x ∷ xs) (y ∷ ys) = ground (arith, text_eq_iff x y, texts_eq_iff xs ys)

In-dedup : (a : Text) (xs : List Text) → In a (dedup xs) ↔ In a xs
unfolding dedup
In-dedup a [] = ground arith
In-dedup a (x ∷ xs) = ground (arith, has_iff x (dedup xs), In-dedup a xs, In-dedup x xs)

dedup-Distinct : (xs : List Text) → Distinct (dedup xs)
unfolding dedup
dedup-Distinct [] = tt
dedup-Distinct (x ∷ xs) = elim (Bool-cases (has x (dedup xs))) [
  | inl e ↦ rw e (dedup-Distinct xs)
  | inr e ↦ rw e (λ i. let q = (has_iff x (dedup xs)).1 i in cc, dedup-Distinct xs)
]

-- A list of addresses is clean: sorted, and without duplicates.
pub record IsClean (xs : List Text) : Type 0 where
  pub sorted : IsSorted xs
  pub distinct : Distinct xs

pub unique_sorted-IsClean : (xs : List Text) → IsClean (unique_sorted xs)
unfolding unique_sorted
unique_sorted-IsClean xs = record {
  sorted = sort_texts-IsSorted (dedup xs);
  distinct = sort_texts-Distinct (dedup xs) (dedup-Distinct xs);
}

pub In-unique_sorted : (a : Text) (xs : List Text) → In a (unique_sorted xs) ↔ In a xs
unfolding unique_sorted
In-unique_sorted a xs = ground (arith, In-sort_texts a (dedup xs), In-dedup a xs)

insert_comm :
    (x y : Text) (zs : List Text)
    → insert text_le x (insert text_le y zs) ≡ insert text_le y (insert text_le x zs)
unfolding insert
insert_comm x y [] = ground (arith, text_le_total x y, text_le_total y x, text_le_antisym x y)
insert_comm x y (z ∷ zs) = ground (
  arith,
  text_le_total x y,
  text_le_total y x,
  text_le_antisym x y,
  text_le_trans x y z,
  text_le_trans y x z,
  text_le_total x z,
  text_le_total y z,
  text_le_trans x z y,
  text_le_trans y z x,
  insert_comm x y zs,
)

sort_perm : {xs ys : List Text} → Permᴰ xs ys → sort_texts xs ≡ sort_texts ys
unfolding sort_texts sort_by
sort_perm Permᴰ.nil = refl
sort_perm (Permᴰ.cons e d) = cc (sort_perm d)
sort_perm (Permᴰ.swap {a' = a'} {b' = b'} {l = l} e f) =
    rw (e, f) (insert_comm b' a' (sort_by text_le l))
sort_perm (Permᴰ.trans d e) = sort_perm d ∙ sort_perm e

length_perm : {xs ys : List Text} → Permᴰ xs ys → length xs ≡ length ys
length_perm Permᴰ.nil = refl
length_perm (Permᴰ.cons e d) = ap suc (length_perm d)
length_perm (Permᴰ.swap e f) = refl
length_perm (Permᴰ.trans d e) = length_perm d ∙ length_perm e

same_of_Permᴰ : (xs ys : List Text) → Permᴰ xs ys → same_strings xs ys ≡ true
unfolding same_strings
same_of_Permᴰ xs ys d =
    ground (arith, length_perm d, (texts_eq_iff (sort_texts xs) (sort_texts ys)).1 (sort_perm d))

Perm_of_same : (xs ys : List Text) → same_strings xs ys ≡ true → Perm xs ys
unfolding same_strings sort_texts
Perm_of_same xs ys h =
    let e : sort_texts xs ≡ sort_texts ys =
      (texts_eq_iff (sort_texts xs) (sort_texts ys)).0 (ground arith) in
    Perm.trans (Perm.symm (sort_by-perm text_le xs))
      (subst (λ l. Perm l ys) (sym e) (sort_by-perm text_le ys))

-- `sameStrings` accepts exactly the pairs of lists of which one is a rearrangement of the other.
pub same_strings_iff : (xs ys : List Text) → (same_strings xs ys ≡ true) ↔ Perm xs ys
unfolding Perm
same_strings_iff xs ys = (Perm_of_same xs ys, λ p. ∥∥₁_elim p (Bool-set _ _) (same_of_Permᴰ xs ys))
