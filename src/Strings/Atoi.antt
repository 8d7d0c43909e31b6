-- ===== src/Strings/Atoi.antt =====
-- `strconv.Atoi` on texts without a sign: digits, and a number below 2^63.
use zent_proxy.Base.{
  ℕ, ◌+◌, ◌-◌, ◌*◌, ◌≤◌, ◌≡◌, refl, ap, ◌∙◌, ◌≢◌, inl, inr, false, ◌&&◌, Option, none, some, [],
  ◌∷◌, ◌++◌, reverse, arith, leb, if◌then◌else◌, Bool-cases, All, Text,
}
use zent_proxy.Strings.Trim.{is_nil}
use zent_proxy.Strings.Decimal.{value, IsDigit, itoa, itoa-inv, itoa-ne_nil}
use mathlib.Core.List.{reverse-cons}

abbrev pub max_int : ℕ
max_int = 9223372036854775807

abbrev pub read_digit : ℕ → Option ℕ → Option ℕ
read_digit c none = none
read_digit c (some n) = if leb 48 c && leb c 57 then some (10 * n + (c - 48)) else none

-- the digits of the text behind those of a number
unfoldable pub read_digits : Option ℕ → Text → Option ℕ
read_digits n [] = n
read_digits n (c ∷ s) = read_digits (read_digit c n) s

abbrev pub in_range : Option ℕ → Option ℕ
in_range none = none
in_range (some n) = if leb n max_int then some n else none

unfoldable pub atoi : Text → Option ℕ
atoi s = if is_nil s then none else in_range (read_digits (some 0) s)

read_digits-append :
    (n : Option ℕ) (s : Text) (c : ℕ)
    → read_digits n (s ++ (c ∷ [])) ≡ read_digit c (read_digits n s)
unfolding read_digits
read_digits-append n [] c = refl
read_digits-append n (d ∷ s) c = read_digits-append (read_digit d n) s c

read_digit-IsDigit : (c n : ℕ) → IsDigit c → read_digit c (some n) ≡ some (c - 48 + 10 * n)
read_digit-IsDigit c n h = ground arith

read_digits-reverse :
    (ds : Text) → All IsDigit ds → read_digits (some 0) (reverse ds) ≡ some (value ds)
unfolding read_digits
read_digits-reverse [] h = refl
read_digits-reverse (c ∷ ds) (p, h) =
    ap (read_digits (some 0)) (reverse-cons c ds)
    ∙ read_digits-append (some 0) (reverse ds) c
    ∙ ap (read_digit c) (read_digits-reverse ds h)
    ∙ read_digit-IsDigit c (value ds) p

is_nil_of : (s : Text) → s ≢ [] → is_nil s ≡ false
unfolding is_nil
is_nil_of [] n = absurd (n refl)
is_nil_of (c ∷ s) n = refl

pub is_nil-itoa : (n : ℕ) → is_nil (itoa n) ≡ false
is_nil-itoa n = is_nil_of (itoa n) (itoa-ne_nil n)

-- A number that fits is read back from what is printed of it.
pub atoi-itoa : (n : ℕ) → n ≤ max_int → atoi (itoa n) ≡ some n
unfolding atoi
atoi-itoa n h =
    let (ds, e, d, v) = itoa-inv n in
    let r : read_digits (some 0) (itoa n) ≡ some n =
      ap (read_digits (some 0)) e ∙ read_digits-reverse ds d ∙ ap some v in
    rw (is_nil-itoa n, r) (fits n h)
  where
    fits : (n : ℕ) → n ≤ max_int → in_range (some n) ≡ some n
    fits n h = ground arith

-- What is read fits.
pub atoi-inv : (s : Text) (n : ℕ) → atoi s ≡ some n → n ≤ max_int
unfolding atoi
atoi-inv s n h = elim (Bool-cases (is_nil s)) [
  | inl e ↦ absurd (let q : none ≡ some n = rw e at h in cc)
  | inr e ↦ go (read_digits (some 0) s) (rw e at h)
]
  where
    go : (o : Option ℕ) → in_range o ≡ some n → n ≤ max_int
    go none q = absurd (cc)
    go (some m) q = ground arith
