-- ===== src/Proxy/Hosts/Conflicts.antt =====
-- internal/proxy/manager.go: proofs on conflicts of domains.
use zent_proxy.Base.{
  ℕ, ◌≡◌, refl, sym, subst, ◌≢◌, ◌↔◌, inl, inr, none, some, List, [], ◌∷◌, map, arith, ◌==◌,
  Bool-cases, Option-cases, In, All, Text,
}
use zent_proxy.Model.{Host}
use zent_proxy.Strings.Equality.{has, has_iff}
use zent_proxy.Proxy.Hosts.{conflict_key, conflict_in, conflict_among, check_domain_conflicts}

-- The keys of two lists of domains have none in common.
abbrev pub NoneWanted : List Text → List Text → Type 0
NoneWanted wanted ds = All (λ d. ¬ In (conflict_key d) wanted) ds

conflict_in_iff : (wanted ds : List Text) → (conflict_in wanted ds ≡ none) ↔ NoneWanted wanted ds
unfolding conflict_in
conflict_in_iff wanted [] = ground arith
conflict_in_iff wanted (d ∷ ds) =
    ground (arith, has_iff (conflict_key d) wanted, conflict_in_iff wanted ds)

conflict_among_iff :
    (wanted : List Text) (exclude : ℕ) (hosts : List Host)
    → (conflict_among wanted exclude hosts ≡ none)
      ↔ All (λ (h : Host). h.id ≢ exclude → NoneWanted wanted h.domains) hosts
unfolding conflict_among
conflict_among_iff wanted exclude [] = ground arith
conflict_among_iff wanted exclude (h ∷ hs) =
    ground (arith, conflict_in_iff wanted h.domains, conflict_among_iff wanted exclude hs)

-- No conflict is reported exactly if no host but the excluded one has a domain that is equal, up to
-- case and blanks at the ends, to one of the domains.
pub check_domain_conflicts_iff :
    (hosts : List Host) (domains : List Text) (exclude : ℕ)
    → (check_domain_conflicts hosts domains exclude ≡ none)
      ↔ All (λ (h : Host). h.id ≢ exclude → NoneWanted (map conflict_key domains) h.domains) hosts
unfolding check_domain_conflicts
check_domain_conflicts_iff hosts domains exclude =
    conflict_among_iff (map conflict_key domains) exclude hosts

conflict_in-inv :
    (wanted ds : List Text) (k : Text)
    → conflict_in wanted ds ≡ some k
    → (d : Text) × In d ds × (k ≡ conflict_key d) × In k wanted
unfolding conflict_in
conflict_in-inv wanted [] k h = absurd (cc)
conflict_in-inv wanted (d ∷ ds) k h = elim (Bool-cases (has (conflict_key d) wanted)) [
  | inl e ↦
      let same : conflict_key d ≡ k = ground arith in
      (d, inl refl, sym same, subst (λ t. In t wanted) same ((has_iff (conflict_key d) wanted).0 e))
  | inr e ↦ let (x, i, p, q) = conflict_in-inv wanted ds k (rw e at h) in (x, inr i, p, q)
]

-- The host to blame: it stands in the list, is not excluded, and has a domain with the key.
abbrev pub Blames : List Text → ℕ → List Host → Text → Text → Type 0
Blames wanted exclude hosts k name =
    (h : Host) × In h hosts
    × (h.id ≢ exclude)
    × (h.name ≡ name)
    × ((d : Text) × In d h.domains × (k ≡ conflict_key d) × In k wanted)

Blames-cons :
    (wanted : List Text) (exclude : ℕ) (g : Host) (hosts : List Host) (k name : Text)
    → Blames wanted exclude hosts k name
    → Blames wanted exclude (g ∷ hosts) k name
Blames-cons wanted exclude g hosts k name (h, i, n, m, d) = (h, inr i, n, m, d)

conflict_among-inv :
    (wanted : List Text) (exclude : ℕ) (hosts : List Host) (k name : Text)
    → conflict_among wanted exclude hosts ≡ some (k, name)
    → Blames wanted exclude hosts k name
unfolding conflict_among
conflict_among-inv wanted exclude [] k name e = absurd (cc)
conflict_among-inv wanted exclude (h ∷ hs) k name e = elim (Bool-cases (h.id == exclude)) [
  | inl c ↦
      Blames-cons wanted exclude h hs k name
        (conflict_among-inv wanted exclude hs k name (ground arith))
  | inr c ↦ elim (Option-cases (conflict_in wanted h.domains)) [
    | inl f ↦
        Blames-cons wanted exclude h hs k name
          (conflict_among-inv wanted exclude hs k name (ground arith))
    | inr (j, f) ↦
        (h, inl refl, ground arith, ground arith, conflict_in-inv wanted h.domains k (ground arith))
  ]
]

-- A conflict that is reported names the key of a wanted domain, and the name of a host other than
-- the excluded one that has a domain of that key.
pub check_domain_conflicts-inv :
    (hosts : List Host) (domains : List Text) (exclude : ℕ) (k name : Text)
    → check_domain_conflicts hosts domains exclude ≡ some (k, name)
    → Blames (map conflict_key domains) exclude hosts k name
unfolding check_domain_conflicts
check_domain_conflicts-inv hosts domains exclude =
    conflict_among-inv (map conflict_key domains) exclude hosts
