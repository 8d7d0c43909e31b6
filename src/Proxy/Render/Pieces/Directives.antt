-- ===== src/Proxy/Render/Pieces/Directives.antt =====
-- internal/proxy/manager.go: proofs on which lines `stripManagedRealIPDirectives` takes for directives.
use zent_proxy.Base.{
  ◌≡◌, ◌≢◌, refl, ap, subst, ◌∙◌, inl, inr, true, false, some, List, [], ◌∷◌, ◌++◌, arith,
  Bool-cases, ◌==◌, In, Text, lit,
}
use zent_proxy.Strings.Trim.{
  is_space, trim_left, keep, trim_right, trim, trim_space, to_lower, lower_byte,
}
use zent_proxy.Strings.Search.{strip_prefix, has_prefix, has_suffix}
use zent_proxy.Proxy.Render.Pieces.{
  ends_directive, drop_same, strip_folded, is_managed_as, is_managed,
}
use mathlib.Core.List.{reverse-append}

-- the directives of the real IP module
abbrev pub real_ip_names : List Text
real_ip_names = lit "set_real_ip_from" ∷ lit "real_ip_header" ∷ lit "real_ip_recursive" ∷ []

-- But for blanks the line begins with the name, whatever its case.
pub record BeginsWith (name line : Text) : Type 0 where
  pub word : Text
  pub rest : Text
  pub whole : trim_space line ≡ word ++ rest
  pub same : to_lower word ≡ name

-- The line begins with the name and ends with a semicolon.
pub record IsDirective (name line : Text) : Type 0 where
  pub word : Text
  pub body : Text
  pub whole : trim_space line ≡ word ++ (body ++ (b';' ∷ []))
  pub same : to_lower word ≡ name

has_prefix-to_lower : (w s : Text) → has_prefix (to_lower w) (to_lower (w ++ s)) ≡ true
unfolding to_lower strip_prefix has_prefix
has_prefix-to_lower [] s = refl
has_prefix-to_lower (c ∷ w) s = ground (arith, has_prefix-to_lower w s)

drop_same-to_lower : (w s : Text) → drop_same (to_lower w) (w ++ s) ≡ s
unfolding to_lower drop_same
drop_same-to_lower [] s = refl
drop_same-to_lower (c ∷ w) s = drop_same-to_lower w s

strip_folded-same : (w s : Text) → strip_folded (to_lower w) (w ++ s) ≡ some s
unfolding strip_folded
strip_folded-same w s = rw (has_prefix-to_lower w s) (ap some (drop_same-to_lower w s))

trim_left-stop :
    (s : Text) → trim_left is_space (s ++ (b';' ∷ [])) ≡ trim_left is_space s ++ (b';' ∷ [])
unfolding trim_left is_space
trim_left-stop [] = refl
trim_left-stop (c ∷ s) = elim (Bool-cases (is_space c)) [
  | inl e ↦ rw e (trim_left-stop s)
  | inr e ↦ rw e refl
]

trim_right-stop : (s : Text) → trim_right is_space (s ++ (b';' ∷ [])) ≡ s ++ (b';' ∷ [])
unfolding trim_right is_space
trim_right-stop [] = refl
trim_right-stop (c ∷ s) = ap (keep is_space c) (trim_right-stop s) ∙ go s
  where
    go : (s : Text) → keep is_space c (s ++ (b';' ∷ [])) ≡ c ∷ (s ++ (b';' ∷ []))
    go [] = refl
    go (d ∷ s) = refl

has_suffix-stop : (s : Text) → has_suffix (lit ";") (s ++ (b';' ∷ [])) ≡ true
unfolding has_suffix has_prefix strip_prefix lit
has_suffix-stop s = rw (reverse-append s (b';' ∷ [])) refl

ends_directive-stop : (body : Text) → ends_directive (some (body ++ (b';' ∷ []))) ≡ true
unfolding trim_space trim
ends_directive-stop body =
    let e : trim_space (body ++ (b';' ∷ [])) ≡ trim_left is_space body ++ (b';' ∷ []) =
      ap (trim_right is_space) (trim_left-stop body) ∙ trim_right-stop (trim_left is_space body) in
    rw e (rw (has_suffix-stop (trim_left is_space body)) refl)

is_managed_as-IsDirective : (name l : Text) → IsDirective name l → is_managed_as name l ≡ true
unfolding is_managed_as
is_managed_as-IsDirective name l d =
    ap ends_directive (
      ap (strip_folded name) d.whole
      ∙ subst
          (λ n. strip_folded n (d.word ++ (d.body ++ (b';' ∷ []))) ≡ some (d.body ++ (b';' ∷ [])))
          d.same (strip_folded-same d.word (d.body ++ (b';' ∷ []))))
    ∙ ends_directive-stop d.body

-- A line that is kept is no directive.
pub is_managed-IsDirective :
    (l : Text) → is_managed l ≡ false → (name : Text) → In name real_ip_names → ¬ IsDirective name l
unfolding is_managed
is_managed-IsDirective l k name i d =
    let m = is_managed_as-IsDirective name l d in
    elim i [
      | inl e ↦
          let q : is_managed_as (lit "set_real_ip_from") l ≡ true =
            subst (λ n. is_managed_as n l ≡ true) e m in
          absurd (ground arith)
      | inr (inl e) ↦
          let q : is_managed_as (lit "real_ip_header") l ≡ true =
            subst (λ n. is_managed_as n l ≡ true) e m in
          absurd (ground arith)
      | inr (inr (inl e)) ↦
          let q : is_managed_as (lit "real_ip_recursive") l ≡ true =
            subst (λ n. is_managed_as n l ≡ true) e m in
          absurd (ground arith)
      | inr (inr (inr b)) ↦ absurd b
    ]

folded_front :
    (p t : Text)
    → has_prefix p (to_lower t) ≡ true
    → (w : Text) × (r : Text) × (t ≡ w ++ r) × (to_lower w ≡ p)
unfolding to_lower strip_prefix has_prefix
folded_front [] t h = ([], t, refl, refl)
folded_front (a ∷ p) [] h = absurd (cc)
folded_front (a ∷ p) (c ∷ t) h = elim (Bool-cases (a == lower_byte c)) [
  | inl e ↦
      let k : has_prefix p (to_lower t) ≡ true = ground (arith, h) in
      let (w, r, whole, same) = folded_front p t k in
      let head : lower_byte c ≡ a = ground arith in
      (c ∷ w, r, ap (λ x. c ∷ x) whole, cc (head, same))
  | inr e ↦ absurd (ground (arith, h))
]

is_managed_as-BeginsWith : (name l : Text) → is_managed_as name l ≡ true → BeginsWith name l
unfolding is_managed_as strip_folded
is_managed_as-BeginsWith name l h = elim (Bool-cases (has_prefix name (to_lower (trim_space l)))) [
  | inl e ↦
      let (w, r, whole, same) = folded_front name (trim_space l) e in
      record { word = w; rest = r; whole = whole; same = same }
  | inr e ↦ absurd (let q : false ≡ is_managed_as name l = rw e refl in cc)
]

-- A line that is taken away begins with the name of a directive.
pub BeginsWith-is_managed :
    (l : Text)
    → ((name : Text) → In name real_ip_names → ¬ BeginsWith name l)
    → is_managed l ≡ false
unfolding is_managed
BeginsWith-is_managed l f =
    let not_as : (name : Text) → In name real_ip_names → is_managed_as name l ≢ true =
      λ name i q. f name i (is_managed_as-BeginsWith name l q) in
    let a : is_managed_as (lit "set_real_ip_from") l ≢ true = not_as _ (inl refl) in
    let b : is_managed_as (lit "real_ip_header") l ≢ true = not_as _ (inr (inl refl)) in
    let c : is_managed_as (lit "real_ip_recursive") l ≢ true = not_as _ (inr (inr (inl refl))) in
    ground arith
