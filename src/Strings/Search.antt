-- ===== src/Strings/Search.antt =====
-- `strings.HasPrefix`, `HasSuffix`, `TrimPrefix`, `TrimSuffix`, `ContainsAny`, `Contains`,
-- `EqualFold`.
use zent_proxy.Base.{
  ℕ, ◌≡◌, refl, ◌↔◌, Bool, true, false, ◌||◌, Option, none, some, [], ◌∷◌, ◌++◌, reverse, arith,
  ◌==◌, if◌then◌else◌, All, Text,
}
use zent_proxy.Strings.Equality.{text_eq}
use zent_proxy.Strings.Trim.{to_lower}

unfoldable pub strip_prefix : Text → Text → Option Text
strip_prefix [] s = some s
strip_prefix (p ∷ ps) [] = none
strip_prefix (p ∷ ps) (c ∷ s) = if p == c then strip_prefix ps s else none

abbrev is_some {ℓ} : {A : Type ℓ} → Option A → Bool
is_some none = false
is_some (some a) = true

unfoldable pub has_prefix : Text → Text → Bool
has_prefix p s = is_some (strip_prefix p s)

abbrev or_else : Option Text → Text → Text
or_else none s = s
or_else (some t) s = t

-- strings.TrimPrefix(s, p), with the prefix first
unfoldable pub trim_prefix : Text → Text → Text
trim_prefix p s = or_else (strip_prefix p s) s

unfoldable pub has_suffix : Text → Text → Bool
has_suffix p s = has_prefix (reverse p) (reverse s)

unfoldable pub trim_suffix : Text → Text → Text
trim_suffix p s = elim (strip_prefix (reverse p) (reverse s)) [ none ↦ s | some t ↦ reverse t ]

-- is the byte one of the set?
unfoldable pub member : ℕ → Text → Bool
member c [] = false
member c (d ∷ s) = c == d || member c s

-- strings.ContainsAny(s, set)
unfoldable pub contains_any : Text → Text → Bool
contains_any [] set = false
contains_any (c ∷ s) set = member c set || contains_any s set

-- strings.Contains(s, sub)
unfoldable pub contains : Text → Text → Bool
contains [] sub = has_prefix sub []
contains (c ∷ s) sub = has_prefix sub (c ∷ s) || contains s sub

unfoldable pub equal_fold : Text → Text → Bool
equal_fold s t = text_eq (to_lower s) (to_lower t)

pub contains_any-append :
    (s t set : Text) → contains_any (s ++ t) set ≡ (contains_any s set || contains_any t set)
unfolding contains_any
contains_any-append [] t set = refl
contains_any-append (c ∷ s) t set = ground (arith, contains_any-append s t set)

-- No byte of the text is in the set.
pub contains_any-eq-false_iff :
    (s set : Text) → (contains_any s set ≡ false) ↔ All (λ c. member c set ≡ false) s
unfolding contains_any
contains_any-eq-false_iff [] set = ground arith
contains_any-eq-false_iff (c ∷ s) set = ground (arith, contains_any-eq-false_iff s set)
