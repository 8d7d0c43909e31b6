-- ===== src/Api/Hosts/Sound.antt =====
-- The invariant of the stored hosts of internal/db/store.go, when a row is inserted or deleted.
pub mod Kept
use zent_proxy.Base.{
  ℕ, suc, ◌+◌, ◌-◌, ◌≤◌, ◌<◌, ◌≡◌, refl, sym, ap, ◌∙◌, subst, ◌≢◌, ◌⊎◌, inl, inr, List, [], ◌∷◌,
  ◌++◌, map, arith, In, In-append_split, All, Text,
}
use zent_proxy.Model.{HostInput, Host}
use zent_proxy.Net.{Net}
use zent_proxy.Proxy.Hosts.{conflict_key, input_of_host}
use zent_proxy.Proxy.Hosts.Accepted.{IsAccepted}
use zent_proxy.Proxy.Hosts.Conflicts.{NoneWanted}
use zent_proxy.Store.Rows.{remove, In-remove}
use zent_proxy.Api.State.{id_of, host_of_input}

In-map : {A B : Type 0} → (f : A → B) (a : A) (xs : List A) → In a xs → In (f a) (map f xs)
In-map f a [] i = elim i [ ]
In-map f a (x ∷ xs) (inl p) = inl (ap f p)
In-map f a (x ∷ xs) (inr i) = inr (In-map f a xs i)

NoneWanted-inv :
    (wanted ds : List Text) (d : Text)
    → NoneWanted wanted ds
    → In d ds
    → ¬ In (conflict_key d) wanted
NoneWanted-inv wanted [] d n i = elim i [ ]
NoneWanted-inv wanted (e ∷ ds) d (n, ns) (inl p) =
    λ j. n (subst (λ x. In (conflict_key x) wanted) p j)
NoneWanted-inv wanted (e ∷ ds) d (n, ns) (inr i) = NoneWanted-inv wanted ds d ns i

no_shared :
    (ds es : List Text) (d : Text)
    → NoneWanted (map conflict_key (d ∷ ds)) es
    → ¬ In (conflict_key d) (map conflict_key es)
no_shared ds [] d n j = elim j [ ]
no_shared ds (e ∷ es) d (n, ns) (inl p) = n (inl (sym p))
no_shared ds (e ∷ es) d (n, ns) (inr j) = no_shared ds es d ns j

fewer :
    (ds es : List Text) (d : Text)
    → NoneWanted (map conflict_key (d ∷ ds)) es
    → NoneWanted (map conflict_key ds) es
fewer ds [] d n = tt
fewer ds (e ∷ es) d (n, ns) = (λ j. n (inr j), fewer ds es d ns)

-- Sharing no domain is symmetric.
pub NoneWanted-sym :
    (ds es : List Text) → NoneWanted (map conflict_key ds) es → NoneWanted (map conflict_key es) ds
NoneWanted-sym [] es n = tt
NoneWanted-sym (d ∷ ds) es n = (no_shared ds es d n, NoneWanted-sym ds es (fewer ds es d n))

-- The two hosts share no domain.
abbrev pub Apart : Host → Host → Type 0
Apart g h = NoneWanted (map conflict_key g.domains) h.domains

module _ (net : Net) where
  -- All stored hosts were accepted, no two share a domain, and the ids are unique and used.
  pub record IsSound (hosts : List Host) (next_id : ℕ) : Type 0 where
    pub accepted : (h : Host) → In h hosts → IsAccepted net (input_of_host h)
    pub apart : (g h : Host) → In g hosts → In h hosts → g.id ≢ h.id → Apart g h
    pub unique : (g h : Host) → In g hosts → In h hosts → g.id ≡ h.id → g ≡ h
    pub below : (h : Host) → In h hosts → h.id < next_id
    pub positive : (h : Host) → In h hosts → 1 ≤ h.id
    pub started : 1 ≤ next_id

  -- The domains are free but for the host with the id.
  abbrev pub IsFree : List Text → ℕ → List Host → Type 0
  IsFree domains id hosts =
      (g : Host) → In g hosts → g.id ≢ id → NoneWanted (map conflict_key domains) g.domains

  input_of_host_of_input :
      (id created updated : ℕ) (in_ : HostInput)
      → input_of_host (host_of_input id created updated in_) ≡ in_
  unfolding input_of_host host_of_input
  input_of_host_of_input id created updated in_ = refl

  inserted : (hosts : List Host) (h g : Host) → In g (hosts ++ (h ∷ [])) → In g hosts ⊎ (g ≡ h)
  inserted hosts h g i = elim (In-append_split g hosts (h ∷ []) i) [
    | inl j ↦ inl j
    | inr (inl p) ↦ inr p
    | inr (inr j) ↦ elim j [ ]
  ]

  pub IsSound-insert :
      (hosts : List Host) (n : ℕ) (h : Host)
      → IsSound hosts n
      → h.id ≡ n
      → IsAccepted net (input_of_host h)
      → IsFree h.domains n hosts
      → IsSound (hosts ++ (h ∷ [])) (suc n)
  IsSound-insert hosts n h s p a f = record {
    accepted = λ g i. elim (inserted hosts h g i) [
      | inl j ↦ s.accepted g j
      | inr q ↦ subst (λ (x : Host). IsAccepted net (input_of_host x)) (sym q) a
    ];
    apart = λ g k i j ne. elim (inserted hosts h g i) [
      | inl ig ↦ elim (inserted hosts h k j) [
        | inl ik ↦ s.apart g k ig ik ne
        | inr q ↦
            let lt = s.below g ig in
            subst (Apart g) (sym q) (NoneWanted-sym h.domains g.domains (f g ig (omega arith)))
      ]
      | inr r ↦ elim (inserted hosts h k j) [
        | inl ik ↦
            let lt = s.below k ik in subst (λ (x : Host). Apart x k) (sym r) (f k ik (omega arith))
        | inr q ↦ absurd (ne (ap (λ (x : Host). x.id) (r ∙ sym q)))
      ]
    ];
    unique = λ g k i j e. elim (inserted hosts h g i) [
      | inl ig ↦ elim (inserted hosts h k j) [
        | inl ik ↦ s.unique g k ig ik e
        | inr q ↦
            let lt = s.below g ig in let same = ap (λ (x : Host). x.id) q in absurd (omega arith)
      ]
      | inr r ↦ elim (inserted hosts h k j) [
        | inl ik ↦
            let lt = s.below k ik in let same = ap (λ (x : Host). x.id) r in absurd (omega arith)
        | inr q ↦ r ∙ sym q
      ]
    ];
    below = λ g i. elim (inserted hosts h g i) [
      | inl ig ↦ let lt = s.below g ig in omega arith
      | inr q ↦ let same = ap (λ (x : Host). x.id) q in omega arith
    ];
    positive = λ g i. elim (inserted hosts h g i) [
      | inl ig ↦ s.positive g ig
      | inr q ↦ let same = ap (λ (x : Host). x.id) q in let from = s.started in omega arith
    ];
    started = let from = s.started in omega arith;
  }

  pub IsSound-remove :
      (hosts : List Host) (n id : ℕ) → IsSound hosts n → IsSound (remove id_of id hosts) n
  IsSound-remove hosts n id s =
      let was : (g : Host) → In g (remove id_of id hosts) → In g hosts =
        λ g. In-remove id_of id hosts g in
      record {
        accepted = λ g i. s.accepted g (was g i);
        apart = λ g k i j. s.apart g k (was g i) (was k j);
        unique = λ g k i j. s.unique g k (was g i) (was k j);
        below = λ g i. s.below g (was g i);
        positive = λ g i. s.positive g (was g i);
        started = s.started;
      }
