-- ===== src/Strings/Trim.antt =====
-- `strings.TrimSpace`, `Trim`, `TrimRight`, `TrimPrefix`, `TrimSuffix` and `ToLower`.
use zent_proxy.Base.{
  ◌-◌, ℕ, ◌+◌, Text, leb, ◌==◌, if◌then◌else◌, ◌≡◌, refl, ◌↔◌, Bool, true, false, ◌&&◌, ◌||◌, [],
  ◌∷◌, arith, All, ap, Bool-cases, inl, inr, ◌∙◌,
}

unfoldable pub is_space : ℕ → Bool
is_space c = (leb 9 c && leb c 13) || c == 32

unfoldable pub is_nil : Text → Bool
is_nil [] = true
is_nil (c ∷ s) = false

pub is_nil_iff : (s : Text) → (is_nil s ≡ true) ↔ (s ≡ [])
unfolding is_nil
is_nil_iff [] = (λ e. refl, λ e. refl)
is_nil_iff (c ∷ s) = (λ e. absurd (cc), λ e. absurd (cc))

module _ (cut : ℕ → Bool) where
  unfoldable pub trim_left : Text → Text
  trim_left [] = []
  trim_left (c ∷ s) = if cut c then trim_left s else c ∷ s

  abbrev pub keep : ℕ → Text → Text
  keep c [] = if cut c then [] else c ∷ []
  keep c (d ∷ s) = c ∷ d ∷ s

  unfoldable pub trim_right : Text → Text
  trim_right [] = []
  trim_right (c ∷ s) = keep c (trim_right s)

  unfoldable pub trim : Text → Text
  trim s = trim_right (trim_left s)

  pub trim_left_idem : (s : Text) → trim_left (trim_left s) ≡ trim_left s
  unfolding trim_left
  trim_left_idem [] = refl
  trim_left_idem (c ∷ s) = ground (arith, trim_left_idem s)

  pub trim_right_idem : (s : Text) → trim_right (trim_right s) ≡ trim_right s
  unfolding trim_right
  trim_right_idem [] = refl
  trim_right_idem (c ∷ s) = go (trim_right s) (trim_right_idem s)
    where
      go : (r : Text) → trim_right r ≡ r → trim_right (keep c r) ≡ keep c r
      go [] h = ground arith
      go (d ∷ r) h = rw h refl

  -- A text with no blank in front keeps none in front.
  trim_left-trim_right :
      (s : Text) → trim_left (trim_right (trim_left s)) ≡ trim_right (trim_left s)
  unfolding trim_left trim_right
  trim_left-trim_right [] = refl
  trim_left-trim_right (c ∷ s) = elim (Bool-cases (cut c)) [
    | inl e ↦ rw e (trim_left-trim_right s)
    | inr e ↦ rw e (go (trim_right s) e)
  ]
    where
      go : (r : Text) → cut c ≡ false → trim_left (keep c r) ≡ keep c r
      go [] e = rw e (rw e refl)
      go (d ∷ r) e = rw e refl

  pub trim_idem : (s : Text) → trim (trim s) ≡ trim s
  unfolding trim
  trim_idem s = ap trim_right (trim_left-trim_right s) ∙ trim_right_idem (trim_left s)

  module _ (P : ℕ → Type 0) where
    All-trim_left : (s : Text) → All P s → All P (trim_left s)
    unfolding trim_left
    All-trim_left [] h = tt
    All-trim_left (c ∷ s) h = ground (arith, All-trim_left s h.1)

    All-trim_right : (s : Text) → All P s → All P (trim_right s)
    unfolding trim_right
    All-trim_right [] h = tt
    All-trim_right (c ∷ s) (p, h) = go (trim_right s) (All-trim_right s h)
      where
        go : (r : Text) → All P r → All P (keep c r)
        go [] k = ground arith
        go (d ∷ r) k = (p, k)

    pub All-trim : (s : Text) → All P s → All P (trim s)
    unfolding trim
    All-trim s h = All-trim_right (trim_left s) (All-trim_left s h)

unfoldable pub trim_space : Text → Text
trim_space = trim is_space

pub trim_space_idem : (s : Text) → trim_space (trim_space s) ≡ trim_space s
unfolding trim_space
trim_space_idem s = trim_idem is_space s

unfoldable pub lower_byte : ℕ → ℕ
lower_byte c = if leb 65 c && leb c 90 then c + 32 else c

lower_byte_idem : (c : ℕ) → lower_byte (lower_byte c) ≡ lower_byte c
unfolding lower_byte
lower_byte_idem c = ground arith

unfoldable pub to_lower : Text → Text
unfolding lower_byte
to_lower [] = []
to_lower (c ∷ s) = lower_byte c ∷ to_lower s

unfoldable pub upper_byte : ℕ → ℕ
upper_byte c = if leb 97 c && leb c 122 then c - 32 else c

unfoldable pub to_upper : Text → Text
unfolding upper_byte
to_upper [] = []
to_upper (c ∷ s) = upper_byte c ∷ to_upper s

pub to_lower_idem : (s : Text) → to_lower (to_lower s) ≡ to_lower s
unfolding to_lower
to_lower_idem [] = refl
to_lower_idem (c ∷ s) = cc (lower_byte_idem c, to_lower_idem s)

is_space-lower_byte : (c : ℕ) → is_space (lower_byte c) ≡ is_space c
unfolding is_space lower_byte
is_space-lower_byte c = ground arith

trim_left-to_lower : (s : Text) → trim_left is_space (to_lower s) ≡ to_lower (trim_left is_space s)
unfolding to_lower trim_left
trim_left-to_lower [] = refl
trim_left-to_lower (c ∷ s) = elim (Bool-cases (is_space c)) [
  | inl e ↦ rw (is_space-lower_byte c) (rw e (trim_left-to_lower s))
  | inr e ↦ rw (is_space-lower_byte c) (rw e refl)
]

trim_right-to_lower :
    (s : Text) → trim_right is_space (to_lower s) ≡ to_lower (trim_right is_space s)
unfolding to_lower trim_right
trim_right-to_lower [] = refl
trim_right-to_lower (c ∷ s) = rw (trim_right-to_lower s) (go (trim_right is_space s))
  where
    go : (r : Text) → keep is_space (lower_byte c) (to_lower r) ≡ to_lower (keep is_space c r)
    go [] = elim (Bool-cases (is_space c)) [
      | inl e ↦ rw (is_space-lower_byte c) (rw e refl)
      | inr e ↦ rw (is_space-lower_byte c) (rw e refl)
    ]
    go (d ∷ r) = refl

-- Lowering and trimming commute.
pub trim_space-to_lower : (s : Text) → trim_space (to_lower s) ≡ to_lower (trim_space s)
unfolding trim_space trim trim_right
trim_space-to_lower s =
    ap (trim_right is_space) (trim_left-to_lower s) ∙ trim_right-to_lower (trim_left is_space s)
