-- ===== src/Strings/Decimal.antt =====
-- `strconv.Itoa` of numbers that are not negative.
use zent_proxy.Base.{
  refl, ◌≢◌, ℕ, zero, suc, ◌+◌, ◌-◌, ◌*◌, ◌/◌, ◌%◌, ◌≤◌, ◌<◌, ◌≡◌, sym, ap, ◌∙◌, [], ◌∷◌, reverse,
  arith, ltb, if◌then◌else◌, All, Text,
}
use mathlib.Core.List.{reverse-reverse}
use mathlib.Core.List.{reverse_aux}

-- the digits of `n`, the last first
digits : ℕ → ℕ → Text
digits zero n = []
digits (suc fuel) n =
    let rest = digits fuel (n / 10) in (48 + n % 10) ∷ (if ltb n 10 then [] else rest)

unfoldable pub itoa : ℕ → Text
unfolding digits
itoa n = reverse (digits (suc n) n)

-- the number that digits stand for, the last first
abbrev pub value : Text → ℕ
value [] = 0
value (c ∷ s) = c - 48 + 10 * value s

value-digits : (fuel n : ℕ) → n < fuel → value (digits fuel n) ≡ n
unfolding value digits
value-digits zero n h = absurd (omega arith)
value-digits (suc fuel) n h = ground (arith, value-digits fuel (n / 10))

-- Different numbers are printed differently.
pub itoa_inj : (m n : ℕ) → itoa m ≡ itoa n → m ≡ n
unfolding itoa
itoa_inj m n e =
    sym (value-digits (suc m) m (omega arith))
    ∙ ap value (
        sym (reverse-reverse (digits (suc m) m))
        ∙ ap reverse e
        ∙ reverse-reverse (digits (suc n) n))
    ∙ value-digits (suc n) n (omega arith)

abbrev pub IsDigit : ℕ → Type 0
IsDigit c = (48 ≤ c) × (c ≤ 57)

digits-IsDigit : (fuel n : ℕ) → All IsDigit (digits fuel n)
unfolding digits
digits-IsDigit zero n = tt
digits-IsDigit (suc fuel) n = ground (arith, digits-IsDigit fuel (n / 10))

All-reverse : (P : ℕ → Type 0) (s : Text) → All P s → All P (reverse s)
All-reverse P s h = go s [] h tt
  where
    go : (s t : Text) → All P s → All P t → All P (reverse_aux s t)
    go [] t h k = k
    go (c ∷ s) t (p, h) k = go s (c ∷ t) h (p, k)

pub itoa-IsDigit : (n : ℕ) → All IsDigit (itoa n)
unfolding itoa
itoa-IsDigit n = All-reverse IsDigit (digits (suc n) n) (digits-IsDigit (suc n) n)

-- What is printed are digits that stand for the number.
pub itoa-inv : (n : ℕ) → (ds : Text) × (itoa n ≡ reverse ds) × All IsDigit ds × (value ds ≡ n)
unfolding itoa
itoa-inv n =
    (digits (suc n) n, refl, digits-IsDigit (suc n) n, value-digits (suc n) n (omega arith))

pub itoa-ne_nil : (n : ℕ) → itoa n ≢ []
unfolding itoa digits
itoa-ne_nil n e =
    let q : (48 + n % 10) ∷ (if ltb n 10 then [] else digits n (n / 10)) ≡ [] =
      sym (reverse-reverse (digits (suc n) n)) ∙ ap reverse e in
    cc
