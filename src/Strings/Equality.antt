-- ===== src/Strings/Equality.antt =====
-- Comparison of texts: `==`, and sets of texts (Go's `map[string]struct{}`) as lists of keys.
use zent_proxy.Base.{
  Text, ◌==◌, ◌≡◌, refl, ◌↔◌, Bool, true, false, ◌&&◌, ◌||◌, [], ◌∷◌, List, In, arith,
}

unfoldable pub text_eq : Text → Text → Bool
text_eq [] [] = true
text_eq (a ∷ s) (b ∷ t) = a == b && text_eq s t
text_eq _ _ = false

text_eq_sound : (s t : Text) → text_eq s t ≡ true → s ≡ t
unfolding text_eq
text_eq_sound [] [] h = refl
text_eq_sound (a ∷ s) (b ∷ t) h = ground (arith, text_eq_sound s t)
text_eq_sound [] (b ∷ t) h = cc
text_eq_sound (a ∷ s) [] h = cc

pub text_eq_self : (s : Text) → text_eq s s ≡ true
unfolding text_eq
text_eq_self [] = refl
text_eq_self (a ∷ s) = ground (arith, text_eq_self s)

pub text_eq_iff : (s t : Text) → (text_eq s t ≡ true) ↔ (s ≡ t)
text_eq_iff s t = (text_eq_sound s t, λ e. subst_text e)
  where
    subst_text : s ≡ t → text_eq s t ≡ true
    subst_text e = rw e (text_eq_self t)

-- `_, ok := seen[k]`
unfoldable pub has : Text → List Text → Bool
has k [] = false
has k (x ∷ xs) = text_eq k x || has k xs

pub has_iff : (k : Text) (xs : List Text) → (has k xs ≡ true) ↔ In k xs
unfolding has
has_iff k [] = ground arith
has_iff k (x ∷ xs) = ground (arith, text_eq_iff k x, has_iff k xs)

-- No text stands twice in the list.
abbrev pub Distinct : List Text → Type 0
Distinct [] = Unit
Distinct (x ∷ xs) = ¬ In x xs × Distinct xs
