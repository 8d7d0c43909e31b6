-- ===== src/Api/Providers/Normal.antt =====
-- internal/api/server.go: proofs on normalizeProviderInput.
use zent_proxy.Base.{
  suc, ◌≤◌, ◌≡◌, refl, sym, ap, subst, ◌≢◌, ◌⊎◌, inl, inr, true, false, not, ◌||◌, Option, none,
  some, List, [], ◌∷◌, ◌++◌, arith, ltb, Bool-cases, length, In, In-append_split, Text,
}
use zent_proxy.Model.{TrustedProxyProviderInput}
use zent_proxy.Net.{Net}
use zent_proxy.Strings.Equality.{has, has_iff, Distinct}
use zent_proxy.Strings.Trim.{is_nil, trim_space}
use zent_proxy.Strings.Sorting.{
  text_le, length-sort_by, sort_texts, sort_texts-IsSorted, In-sort_texts, sort_texts-Distinct,
}
use zent_proxy.Providers.Clean.{IsCidr, AreCidrs, IsGood}
use zent_proxy.Api.Providers.{
  ProviderError, invalid_address, valid_header_name, Entry, blank, value, bad, address_entry,
  prefix_entry, entry_of, add_value, collect, max_addresses, with_cidrs, normalize_provider_input,
}

Distinct-snoc : (v : Text) (xs : List Text) → ¬ In v xs → Distinct xs → Distinct (xs ++ (v ∷ []))
Distinct-snoc v [] n d = (λ i. i, tt)
Distinct-snoc v (x ∷ xs) n (m, d) = (
  λ i. elim (In-append_split x xs (v ∷ []) i) [
    | inl j ↦ m j
    | inr j ↦ elim j [ inl e ↦ n (inl (sym e)) | inr k ↦ k ]
  ],
  Distinct-snoc v xs (λ i. n (inr i)) d,
)

module _ (net : Net) where
  record IsCollected (xs : List Text) : Type 0 where
    pub distinct : Distinct xs
    pub cidrs : AreCidrs net xs

  abbrev Collected : List Text ⊎ ProviderError → Type 0
  Collected (inl xs) = IsCollected xs
  Collected (inr e) = Unit

  add_value-IsCollected :
      (v : Text) (acc : List Text) → IsCidr net v → IsCollected acc → IsCollected (add_value v acc)
  unfolding add_value
  add_value-IsCollected v acc h c = elim (Bool-cases (has v acc)) [
    | inl e ↦ rw e c
    | inr e ↦ rw e (record {
      distinct = Distinct-snoc v acc (λ i. let q = (has_iff v acc).1 i in cc) c.distinct;
      cidrs = λ a i. elim (In-append_split a acc (v ∷ []) i) [
        | inl j ↦ c.cidrs a j
        | inr j ↦ elim j [ inl p ↦ subst (IsCidr net) (sym p) h | inr k ↦ elim k [ ] ]
      ];
    })
  ]

  abbrev ValueIsCidr : Entry → Type 0
  ValueIsCidr blank = Unit
  ValueIsCidr (value v) = IsCidr net v
  ValueIsCidr (bad line) = Unit

  address_entry-ValueIsCidr :
      (line : Text) (o : Option Text) → net.parse_addr line ≡ o → ValueIsCidr (address_entry line o)
  address_entry-ValueIsCidr line none e = tt
  address_entry-ValueIsCidr line (some v) e = (line, inr e)

  prefix_entry-ValueIsCidr :
      (line : Text) (o : Option Text)
      → net.parse_prefix line ≡ o
      → ValueIsCidr (prefix_entry net line o)
  prefix_entry-ValueIsCidr line none e = address_entry-ValueIsCidr line (net.parse_addr line) refl
  prefix_entry-ValueIsCidr line (some v) e = (line, inl e)

  entry_of-ValueIsCidr : (raw : Text) → ValueIsCidr (entry_of net raw)
  unfolding entry_of
  entry_of-ValueIsCidr raw = elim (Bool-cases (is_nil (trim_space raw))) [
    | inl e ↦ rw e tt
    | inr e ↦
        rw e (prefix_entry-ValueIsCidr (trim_space raw) (net.parse_prefix (trim_space raw)) refl)
  ]

  collect-Collected :
      (rest : List Text) (acc : List Text) → IsCollected acc → Collected (collect net rest acc)
  unfolding collect
  collect-Collected [] acc c = c
  collect-Collected (raw ∷ rest) acc c =
      go (entry_of net raw) (entry_of-ValueIsCidr raw) (collect-Collected rest)
    where
      go :
          (e : Entry)
          → ValueIsCidr e
          → ((ac : List Text) → IsCollected ac → Collected (collect net rest ac))
          → Collected (elim e [
            | blank ↦ collect net rest acc
            | value v ↦ collect net rest (add_value v acc)
            | bad line ↦ inr (invalid_address line)
          ])
      go blank h ih = ih acc c
      go (value v) h ih = ih (add_value v acc) (add_value-IsCollected v acc h c)
      go (bad line) h ih = tt

  -- An input that may be stored.
  pub record IsNormal (in_ : TrustedProxyProviderInput) : Type 0 where
    pub good : IsGood net in_.cidrs
    pub some_cidrs : in_.cidrs ≢ []
    pub few : length in_.cidrs ≤ 5000
    pub name : (is_nil in_.name ≡ false) × (length in_.name ≤ 100)
    pub header : valid_header_name in_.header ≡ true

  abbrev Normal : TrustedProxyProviderInput ⊎ ProviderError → Type 0
  Normal (inl in_) = IsNormal in_
  Normal (inr e) = Unit

  sort-ne_nil : (c : Text) (cs : List Text) → sort_texts (c ∷ cs) ≢ []
  unfolding sort_texts
  sort-ne_nil c cs e =
      let n : length (sort_texts (c ∷ cs)) ≡ suc (length cs) =
        unfold sort_texts in length-sort_by text_le (c ∷ cs) in
      let m : length (sort_texts (c ∷ cs)) ≡ 0 = ap length e in omega arith

  with_cidrs-Normal :
      (in_ : TrustedProxyProviderInput) (r : List Text ⊎ ProviderError)
      → (is_nil in_.name ≡ false) × (length in_.name ≤ 100)
      → valid_header_name in_.header ≡ true
      → Collected r
      → Normal (with_cidrs in_ r)
  with_cidrs-Normal in_ (inr e) n h c = tt
  with_cidrs-Normal in_ (inl []) n h c = tt
  with_cidrs-Normal in_ (inl (x ∷ xs)) n h c =
      elim (Bool-cases (ltb max_addresses (length (x ∷ xs)))) [
        | inl e ↦ rw e tt
        | inr e ↦ rw e (record {
          good = record {
            clean = record {
              sorted = sort_texts-IsSorted (x ∷ xs);
              distinct = sort_texts-Distinct (x ∷ xs) c.distinct;
            };
            cidrs = λ a i. c.cidrs a ((In-sort_texts a (x ∷ xs)).0 i);
          };
          some_cidrs = sort-ne_nil x xs;
          few =
              let n : length (sort_texts (x ∷ xs)) ≡ length (x ∷ xs) =
                unfold sort_texts in length-sort_by text_le (x ∷ xs) in
              let m : length (x ∷ xs) ≤ 5000 = ground arith in omega arith;
          name = n;
          header = h;
        })
      ]

  normal : (raw : TrustedProxyProviderInput) → Normal (normalize_provider_input net raw)
  unfolding normalize_provider_input
  normal raw = elim (Bool-cases (is_nil (trim_space raw.name))) [
    | inl e ↦ rw e tt
    | inr e ↦ rw e (elim (Bool-cases (ltb 100 (length (trim_space raw.name)))) [
      | inl f ↦ rw f tt
      | inr f ↦
          rw f
            (elim (Bool-cases
              (is_nil (trim_space raw.header) || not (valid_header_name (trim_space raw.header)))) [
                | inl g ↦ rw g tt
                | inr g ↦ rw g (
                    with_cidrs-Normal
                      (record raw { name = trim_space raw.name; header = trim_space raw.header })
                      (collect net raw.cidrs []) (e, ground arith) (ground arith)
                      (collect-Collected raw.cidrs []
                        (record { distinct = tt; cidrs = λ a i. elim i [ ] })))
              ])
    ])
  ]

  -- What `normalizeProviderInput` lets through has a name of at most 100 bytes, a header that is one,
  -- and at least one and at most 5000 addresses, each in canonical form, sorted and none twice.
  pub normalize_provider_input-IsNormal :
      (raw in_ : TrustedProxyProviderInput)
      → normalize_provider_input net raw ≡ inl in_
      → IsNormal in_
  normalize_provider_input-IsNormal raw in_ e = subst Normal e (normal raw)
