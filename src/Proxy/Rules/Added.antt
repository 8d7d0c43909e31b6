-- ===== src/Proxy/Rules/Added.antt =====
-- internal/proxy/manager.go: proofs on lists to which each text is added once.
use zent_proxy.Base.{
  ◌≡◌, sym, subst, ◌↔◌, ◌⊎◌, inl, inr, List, [], ◌∷◌, ◌++◌, arith, Bool-cases, In, Text,
}
use zent_proxy.Strings.Equality.{has, has_iff, Distinct}
use zent_proxy.Proxy.Rules.{
  HostRules, add_once, add_all, Action, block, zentloop, Kind, source_ip_list, path_exact,
  path_prefix, add_to, chosen,
}

In-snoc : (v w : Text) (dst : List Text) → In v (dst ++ (w ∷ [])) ↔ (In v dst ⊎ (v ≡ w))
In-snoc v w [] = ground arith
In-snoc v w (x ∷ dst) = ground (arith, In-snoc v w dst)

pub In-add_once : (v w : Text) (dst : List Text) → In v (add_once dst w) ↔ (In v dst ⊎ (v ≡ w))
unfolding add_once
In-add_once v w dst = elim (Bool-cases (has w dst)) [
  | inl e ↦ rw e (
    λ h. inl h,
    λ h. elim h [ inl i ↦ i | inr p ↦ subst (λ x. In x dst) (sym p) ((has_iff w dst).0 e) ],
  )
  | inr e ↦ rw e (In-snoc v w dst)
]

pub In-add_all : (v : Text) (dst vs : List Text) → In v (add_all dst vs) ↔ (In v dst ⊎ In v vs)
unfolding add_all
In-add_all v dst [] = ground arith
In-add_all v dst (w ∷ vs) = ground (arith, In-add_all v (add_once dst w) vs, In-add_once v w dst)

Distinct-snoc :
    (w : Text) (dst : List Text) → ¬ In w dst → Distinct dst → Distinct (dst ++ (w ∷ []))
Distinct-snoc w [] n d = (λ h. h, tt)
Distinct-snoc w (x ∷ dst) n (m, d) = (
  λ h. elim ((In-snoc x w dst).0 h) [ inl i ↦ m i | inr p ↦ n (inl (sym p)) ],
  Distinct-snoc w dst (λ i. n (inr i)) d,
)

pub add_once-Distinct : (w : Text) (dst : List Text) → Distinct dst → Distinct (add_once dst w)
unfolding add_once
add_once-Distinct w dst d = elim (Bool-cases (has w dst)) [
  | inl e ↦ rw e d
  | inr e ↦ rw e (Distinct-snoc w dst (λ i. (ground (arith, has_iff w dst))) d)
]

pub add_all-Distinct : (dst vs : List Text) → Distinct dst → Distinct (add_all dst vs)
unfolding add_all
add_all-Distinct dst [] d = d
add_all-Distinct dst (w ∷ vs) d = add_all-Distinct (add_once dst w) vs (add_once-Distinct w dst d)

-- What is added for one kind and action is in the list of that kind and action alone.
pub In-add_to :
    (v : Text) (k : Kind) (a : Action) (l : Kind) (b : Action) (vs : List Text) (r : HostRules)
    → In v (chosen k a (add_to l b vs r)) ↔ (In v (chosen k a r) ⊎ ((l ≡ k) × (b ≡ a) × In v vs))
unfolding add_to
In-add_to v source_ip_list block source_ip_list block vs r =
    ground (arith, In-add_all v (chosen source_ip_list block r) vs)
In-add_to v source_ip_list block source_ip_list zentloop vs r = ground arith
In-add_to v source_ip_list block path_exact block vs r = ground arith
In-add_to v source_ip_list block path_exact zentloop vs r = ground arith
In-add_to v source_ip_list block path_prefix block vs r = ground arith
In-add_to v source_ip_list block path_prefix zentloop vs r = ground arith
In-add_to v source_ip_list zentloop source_ip_list block vs r = ground arith
In-add_to v source_ip_list zentloop source_ip_list zentloop vs r =
    ground (arith, In-add_all v (chosen source_ip_list zentloop r) vs)
In-add_to v source_ip_list zentloop path_exact block vs r = ground arith
In-add_to v source_ip_list zentloop path_exact zentloop vs r = ground arith
In-add_to v source_ip_list zentloop path_prefix block vs r = ground arith
In-add_to v source_ip_list zentloop path_prefix zentloop vs r = ground arith
In-add_to v path_exact block source_ip_list block vs r = ground arith
In-add_to v path_exact block source_ip_list zentloop vs r = ground arith
In-add_to v path_exact block path_exact block vs r =
    ground (arith, In-add_all v (chosen path_exact block r) vs)
In-add_to v path_exact block path_exact zentloop vs r = ground arith
In-add_to v path_exact block path_prefix block vs r = ground arith
In-add_to v path_exact block path_prefix zentloop vs r = ground arith
In-add_to v path_exact zentloop source_ip_list block vs r = ground arith
In-add_to v path_exact zentloop source_ip_list zentloop vs r = ground arith
In-add_to v path_exact zentloop path_exact block vs r = ground arith
In-add_to v path_exact zentloop path_exact zentloop vs r =
    ground (arith, In-add_all v (chosen path_exact zentloop r) vs)
In-add_to v path_exact zentloop path_prefix block vs r = ground arith
In-add_to v path_exact zentloop path_prefix zentloop vs r = ground arith
In-add_to v path_prefix block source_ip_list block vs r = ground arith
In-add_to v path_prefix block source_ip_list zentloop vs r = ground arith
In-add_to v path_prefix block path_exact block vs r = ground arith
In-add_to v path_prefix block path_exact zentloop vs r = ground arith
In-add_to v path_prefix block path_prefix block vs r =
    ground (arith, In-add_all v (chosen path_prefix block r) vs)
In-add_to v path_prefix block path_prefix zentloop vs r = ground arith
In-add_to v path_prefix zentloop source_ip_list block vs r = ground arith
In-add_to v path_prefix zentloop source_ip_list zentloop vs r = ground arith
In-add_to v path_prefix zentloop path_exact block vs r = ground arith
In-add_to v path_prefix zentloop path_exact zentloop vs r = ground arith
In-add_to v path_prefix zentloop path_prefix block vs r = ground arith
In-add_to v path_prefix zentloop path_prefix zentloop vs r =
    ground (arith, In-add_all v (chosen path_prefix zentloop r) vs)

pub add_to-Distinct :
    (k : Kind) (a : Action) (l : Kind) (b : Action) (vs : List Text) (r : HostRules)
    → Distinct (chosen k a r)
    → Distinct (chosen k a (add_to l b vs r))
unfolding add_to
add_to-Distinct source_ip_list block source_ip_list block vs r d =
    add_all-Distinct (chosen source_ip_list block r) vs d
add_to-Distinct source_ip_list block source_ip_list zentloop vs r d = d
add_to-Distinct source_ip_list block path_exact block vs r d = d
add_to-Distinct source_ip_list block path_exact zentloop vs r d = d
add_to-Distinct source_ip_list block path_prefix block vs r d = d
add_to-Distinct source_ip_list block path_prefix zentloop vs r d = d
add_to-Distinct source_ip_list zentloop source_ip_list block vs r d = d
add_to-Distinct source_ip_list zentloop source_ip_list zentloop vs r d =
    add_all-Distinct (chosen source_ip_list zentloop r) vs d
add_to-Distinct source_ip_list zentloop path_exact block vs r d = d
add_to-Distinct source_ip_list zentloop path_exact zentloop vs r d = d
add_to-Distinct source_ip_list zentloop path_prefix block vs r d = d
add_to-Distinct source_ip_list zentloop path_prefix zentloop vs r d = d
add_to-Distinct path_exact block source_ip_list block vs r d = d
add_to-Distinct path_exact block source_ip_list zentloop vs r d = d
add_to-Distinct path_exact block path_exact block vs r d =
    add_all-Distinct (chosen path_exact block r) vs d
add_to-Distinct path_exact block path_exact zentloop vs r d = d
add_to-Distinct path_exact block path_prefix block vs r d = d
add_to-Distinct path_exact block path_prefix zentloop vs r d = d
add_to-Distinct path_exact zentloop source_ip_list block vs r d = d
add_to-Distinct path_exact zentloop source_ip_list zentloop vs r d = d
add_to-Distinct path_exact zentloop path_exact block vs r d = d
add_to-Distinct path_exact zentloop path_exact zentloop vs r d =
    add_all-Distinct (chosen path_exact zentloop r) vs d
add_to-Distinct path_exact zentloop path_prefix block vs r d = d
add_to-Distinct path_exact zentloop path_prefix zentloop vs r d = d
add_to-Distinct path_prefix block source_ip_list block vs r d = d
add_to-Distinct path_prefix block source_ip_list zentloop vs r d = d
add_to-Distinct path_prefix block path_exact block vs r d = d
add_to-Distinct path_prefix block path_exact zentloop vs r d = d
add_to-Distinct path_prefix block path_prefix block vs r d =
    add_all-Distinct (chosen path_prefix block r) vs d
add_to-Distinct path_prefix block path_prefix zentloop vs r d = d
add_to-Distinct path_prefix zentloop source_ip_list block vs r d = d
add_to-Distinct path_prefix zentloop source_ip_list zentloop vs r d = d
add_to-Distinct path_prefix zentloop path_exact block vs r d = d
add_to-Distinct path_prefix zentloop path_exact zentloop vs r d = d
add_to-Distinct path_prefix zentloop path_prefix block vs r d = d
add_to-Distinct path_prefix zentloop path_prefix zentloop vs r d =
    add_all-Distinct (chosen path_prefix zentloop r) vs d
