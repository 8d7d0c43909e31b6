-- ===== src/Api/Update/Versions.antt =====
-- internal/api/update.go: proofs on versions.
use zent_proxy.Base.{
  ℕ, ◌≤◌, ◌<◌, ◌↔◌, ◌≡◌, refl, ap, ◌∙◌, ◌≢◌, ◌⊎◌, inl, inr, true, false, Option, none, some, List,
  [], ◌∷◌, arith, Bool-cases, All, All-append, All_weaken, Text, lit,
}
use zent_proxy.Strings.Trim.{is_space, trim_left, keep, trim_right, trim, trim_space}
use zent_proxy.Strings.Split.{split, join, Lacks, split-join}
use zent_proxy.Strings.Search.{strip_prefix, trim_prefix}
use zent_proxy.Strings.Decimal.{itoa, IsDigit, itoa-IsDigit}
use zent_proxy.Strings.Atoi.{atoi, atoi-itoa, atoi-inv, max_int}
use zent_proxy.Api.Update.{
  Semver, cut_at_sign, semver_of, semver_of_parts, parse_semver, greater_than, show_semver,
}

-- The numbers fit in an `int`.
abbrev pub Fits : Semver → Type 0
Fits v = (v.major ≤ max_int) × (v.minor ≤ max_int) × (v.patch ≤ max_int)

-- a digit or a dot
abbrev IsPlain : ℕ → Type 0
IsPlain c = (46 ≤ c) × (c ≤ 57)

trim_right-plain : (s : Text) → All IsPlain s → trim_right is_space s ≡ s
unfolding trim_right is_space
trim_right-plain [] h = refl
trim_right-plain (c ∷ s) (p, h) = ap (keep is_space c) (trim_right-plain s h) ∙ go s
  where
    go : (s : Text) → keep is_space c s ≡ c ∷ s
    go [] = ground arith
    go (d ∷ s) = refl

trim_left-plain : (s : Text) → All IsPlain s → trim_left is_space s ≡ s
unfolding trim_left is_space
trim_left-plain [] h = refl
trim_left-plain (c ∷ s) (p, h) = ground arith

trim_space-plain : (s : Text) → All IsPlain s → trim_space s ≡ s
unfolding trim_space trim
trim_space-plain s h = ap (trim_right is_space) (trim_left-plain s h) ∙ trim_right-plain s h

trim_prefix-plain : (s : Text) → All IsPlain s → trim_prefix (lit "v") s ≡ s
unfolding trim_prefix strip_prefix lit
trim_prefix-plain [] h = refl
trim_prefix-plain (c ∷ s) (p, h) = ground arith

cut_at_sign-plain : (s : Text) → All IsPlain s → cut_at_sign s ≡ s
unfolding cut_at_sign
cut_at_sign-plain [] h = refl
cut_at_sign-plain (c ∷ s) (p, h) = ground (arith, cut_at_sign-plain s h)

digits-IsPlain : (s : Text) → All IsDigit s → All IsPlain s
digits-IsPlain = All_weaken IsDigit IsPlain (λ c h. (omega arith, omega arith))

digits-lack : (s : Text) → All IsDigit s → Lacks b'.' s
digits-lack = All_weaken IsDigit (λ c. c ≢ b'.') (λ c h e. omega arith)

show_semver-IsPlain : (v : Semver) → All IsPlain (show_semver v)
unfolding show_semver join
show_semver-IsPlain v =
    All-append IsPlain (itoa v.major) _ (digits-IsPlain _ (itoa-IsDigit v.major)) (
      (omega arith, omega arith),
      All-append IsPlain (itoa v.minor) _ (digits-IsPlain _ (itoa-IsDigit v.minor))
          ((omega arith, omega arith), digits-IsPlain _ (itoa-IsDigit v.patch)),
    )

split-show_semver :
    (v : Semver) → split b'.' (show_semver v) ≡ itoa v.major ∷ itoa v.minor ∷ itoa v.patch ∷ []
unfolding show_semver
split-show_semver v =
    split-join b'.' (itoa v.major) (itoa v.minor ∷ itoa v.patch ∷ [])
      (digits-lack _ (itoa-IsDigit v.major))
      (digits-lack _ (itoa-IsDigit v.minor), (digits-lack _ (itoa-IsDigit v.patch), tt))

-- A version whose numbers fit in an `int` is parsed back from what is printed of it.
pub parse_semver-show_semver : (v : Semver) → Fits v → parse_semver (show_semver v) ≡ some v
unfolding parse_semver
parse_semver-show_semver v (a, b, c) =
    let h : All IsPlain (show_semver v) = show_semver-IsPlain v in
    let text : cut_at_sign (trim_space (trim_prefix (lit "v") (trim_space (show_semver v))))
        ≡ show_semver v =
      rw
        (
          trim_space-plain (show_semver v) h,
          trim_prefix-plain (show_semver v) h,
          trim_space-plain (show_semver v) h,
          cut_at_sign-plain (show_semver v) h,
        )
        refl in
    rw (text, split-show_semver v, atoi-itoa v.major a, atoi-itoa v.minor b, atoi-itoa v.patch c)
      refl

semver_of-inv :
    (a b c : Option ℕ) (v : Semver)
    → semver_of a b c ≡ some v
    → (a ≡ some v.major) × (b ≡ some v.minor) × (c ≡ some v.patch)
semver_of-inv (some x) (some y) (some z) v h =
    let e : (record { major = x; minor = y; patch = z }) ≡ v = ground arith in
    (ap (λ u. some u.major) e, ap (λ u. some u.minor) e, ap (λ u. some u.patch) e)
semver_of-inv none b c v h = absurd (cc)
semver_of-inv (some x) none c v h = absurd (cc)
semver_of-inv (some x) (some y) none v h = absurd (cc)

semver_of_parts-Fits : (ps : List Text) (v : Semver) → semver_of_parts ps ≡ some v → Fits v
semver_of_parts-Fits [] v h = absurd (cc)
semver_of_parts-Fits (a ∷ []) v h = absurd (cc)
semver_of_parts-Fits (a ∷ b ∷ []) v h = absurd (cc)
semver_of_parts-Fits (a ∷ b ∷ c ∷ []) v h =
    let (p, q, r) = semver_of-inv (atoi a) (atoi b) (atoi c) v h in
    (atoi-inv a v.major p, atoi-inv b v.minor q, atoi-inv c v.patch r)
semver_of_parts-Fits (a ∷ b ∷ c ∷ d ∷ ps) v h = absurd (cc)

pub parse_semver-Fits : (s : Text) (v : Semver) → parse_semver s ≡ some v → Fits v
unfolding parse_semver
parse_semver-Fits s v h =
    semver_of_parts-Fits
      (split b'.' (cut_at_sign (trim_space (trim_prefix (lit "v") (trim_space s))))) v h

-- Above in the order of versions: the first number that differs decides.
abbrev pub IsAbove : Semver → Semver → Type 0
IsAbove v w =
    (w.major < v.major)
    ⊎ (((w.major ≡ v.major) × (w.minor < v.minor))
        ⊎ ((w.major ≡ v.major) × (w.minor ≡ v.minor) × (w.patch < v.patch)))

pub greater_than-IsAbove : (v w : Semver) → (greater_than v w ≡ true) ↔ IsAbove v w
unfolding greater_than
greater_than-IsAbove v w = ground arith

same_numbers : (v w : Semver) → v.major ≡ w.major → v.minor ≡ w.minor → v.patch ≡ w.patch → v ≡ w
same_numbers v w a b c = λ i. record { major = a i; minor = b i; patch = c i }

neither_greater : (v w : Semver) → greater_than v w ≡ false → greater_than w v ≡ false → v ≡ w
unfolding greater_than
neither_greater v w p q = same_numbers v w (ground arith) (ground arith) (ground arith)

-- The order of versions is strict and total: no version is above itself, of two different versions
-- one is above the other, and what is above a version is above all that this one is above.
pub greater_than-order :
    (u v w : Semver)
    → (greater_than v v ≡ false)
      × (v ≢ w → (greater_than v w ≡ true) ⊎ (greater_than w v ≡ true))
      × (greater_than u v ≡ true → greater_than v w ≡ true → greater_than u w ≡ true)
unfolding greater_than
greater_than-order u v w = (
  ground arith,
  λ n. elim (Bool-cases (greater_than v w)) [
    | inl e ↦ inl e
    | inr e ↦ elim (Bool-cases (greater_than w v)) [
      | inl f ↦ inr f
      | inr f ↦ absurd (n (neither_greater v w e f))
    ]
  ],
  λ p q. ground arith,
)
