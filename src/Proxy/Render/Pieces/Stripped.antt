-- ===== src/Proxy/Render/Pieces/Stripped.antt =====
-- internal/proxy/manager.go: proofs on added configurations and paths of files.
use zent_proxy.Base.{
  ℕ, ◌≢◌, All_weaken, ◌≡◌, refl, ap, subst, ◌⊎◌, inl, inr, false, List, [], ◌∷◌, arith, Bool-cases,
  In, All, Text, lit,
}
use zent_proxy.Strings.Trim.{is_nil, trim_space}
use zent_proxy.Proxy.Render.Pieces.Directives.{
  real_ip_names, BeginsWith, IsDirective, BeginsWith-is_managed, is_managed-IsDirective,
}
use zent_proxy.Strings.Split.{split, join, Lacks, split-join, split-Lacks}
use zent_proxy.Proxy.Render.Pieces.{is_managed, unmanaged, strip_managed_real_ip_directives, pieces}

Lacks-unmanaged : (ls : List Text) → All (Lacks b'\n') ls → All (Lacks b'\n') (unmanaged ls)
unfolding unmanaged
Lacks-unmanaged [] h = tt
Lacks-unmanaged (l ∷ ls) (p, h) = elim (Bool-cases (is_managed l)) [
  | inl e ↦ rw e (Lacks-unmanaged ls h)
  | inr e ↦ rw e (p, Lacks-unmanaged ls h)
]

unmanaged-is_managed : (ls : List Text) → All (λ l. is_managed l ≡ false) (unmanaged ls)
unfolding unmanaged
unmanaged-is_managed [] = tt
unmanaged-is_managed (l ∷ ls) = elim (Bool-cases (is_managed l)) [
  | inl e ↦ rw e (unmanaged-is_managed ls)
  | inr e ↦ rw e (e, unmanaged-is_managed ls)
]

In-unmanaged : (ls : List Text) (l : Text) → In l ls → is_managed l ≡ false → In l (unmanaged ls)
unfolding unmanaged
In-unmanaged [] l i u = elim i [ ]
In-unmanaged (k ∷ ls) l i u = elim (Bool-cases (is_managed k)) [
  | inl e ↦ rw e (elim i [
    | inl p ↦ let q : is_managed l ≡ is_managed k = ap is_managed p in absurd (cc)
    | inr j ↦ In-unmanaged ls l j u
  ])
  | inr e ↦ rw e (elim i [ inl p ↦ inl p | inr j ↦ inr (In-unmanaged ls l j u) ])
]

-- The lines of a text that was joined: those it was joined from, or one empty line.
split-joined :
    (ls : List Text) → All (Lacks b'\n') ls → (ls ≡ []) ⊎ (split b'\n' (join b'\n' ls) ≡ ls)
split-joined [] h = inl refl
split-joined (l ∷ ls) (p, h) = inr (split-join b'\n' l ls p h)

split-nothing : split b'\n' (join b'\n' []) ≡ [] ∷ []
unfolding split join
split-nothing = refl

is_managed-nothing : is_managed [] ≡ false
unfolding pieces zent_proxy.Strings.strings lit
is_managed-nothing = refl

unmanaged-In : (ls : List Text) (l : Text) → In l (unmanaged ls) → In l ls
unfolding unmanaged
unmanaged-In [] l i = i
unmanaged-In (k ∷ ls) l i = elim (Bool-cases (is_managed k)) [
  | inl e ↦ inr (unmanaged-In ls l (ground (arith, i)))
  | inr e ↦ ground (arith, i, unmanaged-In ls l)
]

-- What is left of the lines of a text.
abbrev pub AreStripped : List Text → List Text → Type 0
AreStripped before after =
    All (λ l. (name : Text) → In name real_ip_names → ¬ IsDirective name l) after
    × ((l : Text)
        → In l before
        → ((name : Text) → In name real_ip_names → ¬ BeginsWith name l)
        → In l after)
    × ((l : Text) → In l after → In l before ⊎ (l ≡ []))

clean :
    (ls : List Text)
    → All (λ l. is_managed l ≡ false) ls
    → All (λ l. (name : Text) → In name real_ip_names → ¬ IsDirective name l) ls
clean =
    All_weaken (λ l. is_managed l ≡ false)
      (λ l. (name : Text) → In name real_ip_names → ¬ IsDirective name l) is_managed-IsDirective

unmanaged-AreStripped : (ls : List Text) → AreStripped ls (unmanaged ls)
unmanaged-AreStripped ls = (
  clean (unmanaged ls) (unmanaged-is_managed ls),
  λ l i f. In-unmanaged ls l i (BeginsWith-is_managed l f),
  λ l i. inl (unmanaged-In ls l i),
)

nothing-AreStripped : (ls : List Text) → unmanaged ls ≡ [] → AreStripped ls ([] ∷ [])
nothing-AreStripped ls e =
    let (a, kept, c) = unmanaged-AreStripped ls in
    (
      clean ([] ∷ []) (is_managed-nothing, tt),
      λ l i f. absurd (subst (In l) e (kept l i f)),
      λ l i. elim i [ inl q ↦ inr q | inr b ↦ absurd b ],
    )

-- No line that is left of a text that is not blank is a directive of the real IP module, whatever its
-- case, with nothing but blanks in front of it and behind its semicolon. Every line of the text that
-- does not begin with the name of such a directive is left, and each line that is left is one of the
-- text, or empty.
pub strip_managed_real_ip_directives-lines :
    (v : Text)
    → is_nil (trim_space v) ≡ false
    → AreStripped (split b'\n' v) (split b'\n' (strip_managed_real_ip_directives v))
unfolding strip_managed_real_ip_directives
strip_managed_real_ip_directives-lines v p =
    let ls = split b'\n' v in
    rw p (elim (split-joined (unmanaged ls) (Lacks-unmanaged ls (split-Lacks b'\n' v))) [
      | inr e ↦ rw e (unmanaged-AreStripped ls)
      | inl e ↦ rw e (rw split-nothing (nothing-AreStripped ls e))
    ])

-- no carriage return, line feed, semicolon or double quote
abbrev pub IsInside : ℕ → Type 0
IsInside c = (c ≢ 13) × (c ≢ 10) × (c ≢ 59) × (c ≢ 34)

-- The path itself where it can be written, and the fallback where it cannot.
abbrev pub IsPathOr : Text → Text → Text → Type 0
IsPathOr path fallback got =
    ((got ≡ path) × (path ≢ []) × All IsInside path)
    ⊎ ((got ≡ fallback) × ((path ≡ []) ⊎ (¬ All IsInside path)))
