-- ===== src/Api/ZentLoop/Valid.antt =====
-- internal/api/server.go: proofs on the settings of ZentLoop that are accepted.
use zent_proxy.Base.{
  ◌≡◌, refl, sym, subst, ◌⊎◌, inl, inr, true, false, not, ◌&&◌, ◌||◌, Option, none, some, List, [],
  ◌∷◌, arith, Bool-cases, In, All, Text, lit,
}
use zent_proxy.Model.{ZentLoopRule, ZentLoopConfig}
use zent_proxy.Net.{Net}
use zent_proxy.Strings.Equality.{text_eq, text_eq_iff, has, has_iff}
use zent_proxy.Strings.Trim.{is_nil, trim_space, to_lower}
use zent_proxy.Strings.Search.{has_prefix, contains_any}
use zent_proxy.Api.ZentLoop.{
  UpstreamUrl, ZentLoopError, is_address, cons_entry, clean_entries, Lists, with_entries,
  clean_lists, Rules, directive_bytes, is_list_rule, normal_rule, rule_error, cons_rule,
  clean_rules, names_of, normal_fallback, with_old, trimmed, with_default, is_usable, with_rules,
  with_lists, accept_config,
}

-- The names of the lists, in lower case, are not blank and differ, and the entries are addresses.
abbrev pub AreValidLists : Net → List Text → Lists → Type 0
AreValidLists net names [] = Unit
AreValidLists net names (l ∷ ls) =
    (is_nil l.name ≡ false)
    × (¬ In (to_lower l.name) names)
    × All (λ v. is_address net v ≡ true) l.entries
    × AreValidLists net (to_lower l.name ∷ names) ls

-- A rule with a name, for an existing list or for a path that cannot end its directive.
pub record IsValidRule (names : List Text) (r : ZentLoopRule) : Type 0 where
  pub name : is_nil r.name ≡ false
  pub subject :
      ((r.match ≡ lit "source_ip_list") × In (to_lower r.value) names)
      ⊎ (((r.match ≡ lit "path_exact") ⊎ (r.match ≡ lit "path_prefix"))
          × (has_prefix (lit "/") r.value ≡ true)
          × (contains_any r.value directive_bytes ≡ false))
  pub action : (r.action ≡ lit "zentloop") ⊎ (r.action ≡ lit "block")

rule_error-IsValidRule :
    (names : List Text) (r : ZentLoopRule) → rule_error names r ≡ none → IsValidRule names r
unfolding rule_error is_list_rule
rule_error-IsValidRule names r h =
    let p = text_eq_iff r.match (lit "source_ip_list") in
    let q = text_eq_iff r.match (lit "path_exact") in
    let s = text_eq_iff r.match (lit "path_prefix") in
    let t = text_eq_iff r.action (lit "zentloop") in
    let u = text_eq_iff r.action (lit "block") in
    let v = has_iff (to_lower r.value) names in
    record {
      name = ground arith;
      subject = ground (arith, p, q, s, v);
      action = ground (arith, t, u);
    }

module _ (net : Net) where
  abbrev GoodEntries : List Text ⊎ ZentLoopError → Type 0
  GoodEntries (inr e) = Unit
  GoodEntries (inl vs) = All (λ v. is_address net v ≡ true) vs

  cons_entry-Good :
      (v : Text) (r : List Text ⊎ ZentLoopError)
      → is_address net v ≡ true
      → GoodEntries r
      → GoodEntries (cons_entry v r)
  cons_entry-Good v (inr e) h g = tt
  cons_entry-Good v (inl vs) h g = (h, g)

  clean_entries-Good : (raws : List Text) → GoodEntries (clean_entries net raws)
  unfolding clean_entries
  clean_entries-Good [] = tt
  clean_entries-Good (raw ∷ rest) = elim (Bool-cases (is_nil (trim_space raw))) [
    | inl e ↦ rw e (clean_entries-Good rest)
    | inr e ↦ rw e (elim (Bool-cases (is_address net (trim_space raw))) [
      | inl f ↦ rw f (cons_entry-Good (trim_space raw) _ f (clean_entries-Good rest))
      | inr f ↦ rw f tt
    ])
  ]

  abbrev GoodLists : List Text → Lists ⊎ ZentLoopError → Type 0
  GoodLists names (inr e) = Unit
  GoodLists names (inl ls) = AreValidLists net names ls

  with_entries-Good :
      (names : List Text) (name : Text)
      → is_nil name ≡ false
      → ¬ In (to_lower name) names
      → (r : List Text ⊎ ZentLoopError) → GoodEntries r
      → (rest : Lists ⊎ ZentLoopError) → GoodLists (to_lower name ∷ names) rest
      → GoodLists names (with_entries name r rest)
  with_entries-Good names name n d (inr e) g rest h = tt
  with_entries-Good names name n d (inl vs) g (inr e) h = tt
  with_entries-Good names name n d (inl vs) g (inl ls) h = (n, d, g, h)

  clean_lists-Good : (names : List Text) (ls : Lists) → GoodLists names (clean_lists net names ls)
  unfolding clean_lists
  clean_lists-Good names [] = tt
  clean_lists-Good names (l ∷ ls) =
      elim (Bool-cases (is_nil (trim_space l.name) || has (to_lower (trim_space l.name)) names)) [
        | inl e ↦ rw e tt
        | inr e ↦ rw e (
            let n : is_nil (trim_space l.name) ≡ false = ground arith in
            let f : has (to_lower (trim_space l.name)) names ≡ false = ground arith in
            with_entries-Good names (trim_space l.name) n
              (λ i. let q = (has_iff (to_lower (trim_space l.name)) names).1 i in cc)
              (clean_entries net l.entries) (clean_entries-Good l.entries)
              (clean_lists net (to_lower (trim_space l.name) ∷ names) ls)
              (clean_lists-Good (to_lower (trim_space l.name) ∷ names) ls))
      ]

  abbrev GoodRules : List Text → Rules ⊎ ZentLoopError → Type 0
  GoodRules names (inr e) = Unit
  GoodRules names (inl rs) = All (IsValidRule names) rs

  cons_rule-Good :
      (names : List Text) (r : ZentLoopRule) (o : Option ZentLoopError)
      → rule_error names r ≡ o
      → (rest : Rules ⊎ ZentLoopError) → GoodRules names rest
      → GoodRules names (cons_rule o r rest)
  cons_rule-Good names r (some e) q rest g = tt
  cons_rule-Good names r none q (inr e) g = tt
  cons_rule-Good names r none q (inl rs) g = (rule_error-IsValidRule names r q, g)

  clean_rules-Good : (names : List Text) (rs : Rules) → GoodRules names (clean_rules names rs)
  unfolding clean_rules
  clean_rules-Good names [] = tt
  clean_rules-Good names (r ∷ rs) =
      cons_rule-Good names (normal_rule r) (rule_error names (normal_rule r)) refl
        (clean_rules names rs) (clean_rules-Good names rs)

  -- Settings that may be stored.
  pub record IsValidConfig (parse_url : Text → Option UpstreamUrl) (c : ZentLoopConfig)
      : Type 0 where
    pub lists : AreValidLists net [] c.ip_lists
    pub rules : All (IsValidRule (names_of c.ip_lists)) c.rules
    pub upstream : c.enabled ≡ true → is_usable (parse_url c.upstream) ≡ true
    pub fallback : (c.fallback ≡ lit "503") ⊎ (c.fallback ≡ lit "block")

  module _ (parse_url : Text → Option UpstreamUrl) where
    abbrev pub GoodConfig : ZentLoopConfig ⊎ ZentLoopError → Type 0
    GoodConfig (inr e) = Unit
    GoodConfig (inl c) = IsValidConfig parse_url c

    with_rules-Good :
        (old in_ : ZentLoopConfig) (lists : Lists)
        → (in_.fallback ≡ lit "503") ⊎ (in_.fallback ≡ lit "block")
        → AreValidLists net [] lists
        → (r : Rules ⊎ ZentLoopError) → GoodRules (names_of lists) r
        → GoodConfig (with_rules net parse_url old in_ lists r)
    with_rules-Good old in_ lists f h (inr e) g = tt
    with_rules-Good old in_ lists f h (inl rules) g =
        elim (Bool-cases (in_.enabled && not (is_usable (parse_url (with_default in_.upstream))))) [
          | inl e ↦ rw e tt
          | inr e ↦
              rw e (record { lists = h; rules = g; upstream = λ q. ground arith; fallback = f })
        ]

    with_lists-Good :
        (old in_ : ZentLoopConfig)
        → (in_.fallback ≡ lit "503") ⊎ (in_.fallback ≡ lit "block")
        → (r : Lists ⊎ ZentLoopError) → GoodLists [] r
        → GoodConfig (with_lists net parse_url old in_ r)
    with_lists-Good old in_ f (inr e) g = tt
    with_lists-Good old in_ f (inl lists) g =
        with_rules-Good old in_ lists f g (clean_rules (names_of lists) in_.rules)
          (clean_rules-Good (names_of lists) in_.rules)

    pub normal_fallback-cases :
        (f : Text) → (normal_fallback f ≡ lit "503") ⊎ (normal_fallback f ≡ lit "block")
    unfolding normal_fallback
    normal_fallback-cases f = elim (Bool-cases (text_eq f (lit "503"))) [
      | inl e ↦ rw e (inl ((text_eq_iff f (lit "503")).0 e))
      | inr e ↦ rw e (inr refl)
    ]

    with_old-fallback :
        (old raw : ZentLoopConfig) → (with_old old (trimmed raw)).fallback ≡ (trimmed raw).fallback
    unfolding with_old
    with_old-fallback old raw = elim (Bool-cases (trimmed raw).enabled) [
      | inl e ↦ rw e refl
      | inr e ↦ rw e refl
    ]

    pub accept_config-Good :
        (old raw : ZentLoopConfig) → GoodConfig (accept_config net parse_url old raw)
    unfolding accept_config
    accept_config-Good old raw =
        with_lists-Good old (with_old old (trimmed raw))
          (subst (λ f. (f ≡ lit "503") ⊎ (f ≡ lit "block")) (sym (with_old-fallback old raw))
            (unfold trimmed in normal_fallback-cases (to_lower (trim_space raw.fallback))))
          (clean_lists net [] (with_old old (trimmed raw)).ip_lists)
          (clean_lists-Good [] (with_old old (trimmed raw)).ip_lists)
