-- ===== src/Regex/Matches.antt =====
-- When a whole text matches a pattern, as a relation.
use zent_proxy.Base.{ℕ, ◌≡◌, Bool, true, [], ◌∷◌, ◌++◌, Text}
use zent_proxy.Regex.{Regex, class, empty, seq, alt, star}

-- A round of a repetition takes at least one byte: empty rounds add nothing.
pub data Matches : Regex → Text → Type 0 where
  byte : {p : ℕ → Bool} {c : ℕ} → p c ≡ true → Matches (class p) (c ∷ [])
  nothing : Matches empty []
  both : {a b : Regex} {s t u : Text} → Matches a s → Matches b t → u ≡ s ++ t → Matches (seq a b) u
  left : {a b : Regex} {s : Text} → Matches a s → Matches (alt a b) s
  right : {a b : Regex} {s : Text} → Matches b s → Matches (alt a b) s
  done : {a : Regex} → Matches (star a) []
  more :
      {a : Regex} {c : ℕ} {s t u : Text}
      → Matches a (c ∷ s)
      → Matches (star a) t
      → u ≡ (c ∷ s) ++ t
      → Matches (star a) u
