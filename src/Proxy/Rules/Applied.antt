-- ===== src/Proxy/Rules/Applied.antt =====
-- internal/proxy/manager.go: proofs on the ZentLoop rules of a host.
use zent_proxy.Base.{
  ℕ, ◌≡◌, refl, sym, ap, subst, ◌↔◌, ◌⊎◌, inl, inr, true, false, not, ◌||◌, Option, none, some,
  List, [], ◌∷◌, arith, Bool-cases, In, Text,
}
use zent_proxy.Model.{ZentLoopIpList, ZentLoopRule, ZentLoopConfig}
use zent_proxy.Strings.Equality.{Distinct}
use zent_proxy.Strings.Trim.{trim_space, to_lower}
use zent_proxy.Strings.Sorting.{
  sort_texts, IsSorted, sort_texts-IsSorted, sort_texts-Distinct, In-sort_texts,
}
use zent_proxy.Proxy.Rules.Added.{In-add_to, add_to-Distinct}
use zent_proxy.Proxy.Rules.{
  HostRules, has_id, applies, Action, block, zentloop, Kind, source_ip_list, path_exact,
  path_prefix, action_of, kind_of, rule_texts, add_found, add_rule, add_rules, no_rules, sort_rules,
  zent_loop_rules_for_host, chosen, rules,
}

-- The rule is for the host, and asks for `v` to be treated so.
pub record Asks (lists : List ZentLoopIpList) (host_id : ℕ) (k : Kind) (a : Action) (v : Text)
    (rule : ZentLoopRule) : Type 0 where
  pub enabled : rule.enabled ≡ true
  pub for_host : (rule.host_ids ≡ []) ⊎ In host_id rule.host_ids
  pub kind : kind_of (to_lower (trim_space rule.match)) ≡ some k
  pub action : action_of (to_lower (trim_space rule.action)) ≡ some a
  pub listed : In v (rule_texts lists k (trim_space rule.value))

has_id_iff : (k : ℕ) (ids : List ℕ) → (has_id k ids ≡ true) ↔ In k ids
unfolding has_id
has_id_iff k [] = ground arith
has_id_iff k (i ∷ is) = ground (arith, has_id_iff k is)

applies_iff : (k : ℕ) (ids : List ℕ) → (applies k ids ≡ true) ↔ ((ids ≡ []) ⊎ In k ids)
unfolding applies
applies_iff k [] = ground arith
applies_iff k (i ∷ is) = ground (arith, has_id_iff k (i ∷ is))

module _ (lists : List ZentLoopIpList) (host_id : ℕ) (k : Kind) (a : Action) where
  In-add_found :
      (v : Text) (mk : Option Kind) (ma : Option Action) (value : Text) (r : HostRules)
      → In v (chosen k a (add_found lists mk ma value r))
        ↔ (In v (chosen k a r) ⊎ ((mk ≡ some k) × (ma ≡ some a) × In v (rule_texts lists k value)))
  In-add_found v none ma value r = (λ i. inl i, λ h. elim h [ inl i ↦ i | inr p ↦ absurd (cc) ])
  In-add_found v (some l) none value r =
      (λ i. inl i, λ h. elim h [ inl i ↦ i | inr p ↦ absurd (cc) ])
  In-add_found v (some l) (some b) value r =
      let e = In-add_to v k a l b (rule_texts lists l value) r in
      (
        λ i. elim (e.0 i) [
          | inl j ↦ inl j
          | inr (p, q, j) ↦
              inr (ap some p, ap some q, subst (λ x. In v (rule_texts lists x value)) p j)
        ],
        λ h. elim h [
          | inl j ↦ e.1 (inl j)
          | inr (p, q, j) ↦
              let p : l ≡ k = ground arith in
              let q : b ≡ a = ground arith in
              e.1 (inr (p, q, subst (λ x. In v (rule_texts lists x value)) (sym p) j))
        ],
      )

  add_found-Distinct :
      (mk : Option Kind) (ma : Option Action) (value : Text) (r : HostRules)
      → Distinct (chosen k a r)
      → Distinct (chosen k a (add_found lists mk ma value r))
  add_found-Distinct none ma value r d = d
  add_found-Distinct (some l) none value r d = d
  add_found-Distinct (some l) (some b) value r d =
      add_to-Distinct k a l b (rule_texts lists l value) r d

  skipped :
      (rule : ZentLoopRule)
      → not rule.enabled || not (applies host_id rule.host_ids) ≡ true
      → rule.enabled ≡ true
      → (rule.host_ids ≡ []) ⊎ In host_id rule.host_ids
      → ⊥
  skipped rule e on mine = ground (arith, applies_iff host_id rule.host_ids)

  taken :
      (rule : ZentLoopRule)
      → not rule.enabled || not (applies host_id rule.host_ids) ≡ false
      → (rule.enabled ≡ true) × ((rule.host_ids ≡ []) ⊎ In host_id rule.host_ids)
  taken rule e = ground (arith, applies_iff host_id rule.host_ids)

  In-add_rule :
      (v : Text) (rule : ZentLoopRule) (r : HostRules)
      → In v (chosen k a (add_rule lists host_id rule r))
        ↔ (In v (chosen k a r) ⊎ Asks lists host_id k a v rule)
  unfolding add_rule
  In-add_rule v rule r =
      let found =
        In-add_found v (kind_of (to_lower (trim_space rule.match)))
          (action_of (to_lower (trim_space rule.action))) (trim_space rule.value) r in
      elim (Bool-cases (not rule.enabled || not (applies host_id rule.host_ids))) [
        | inl e ↦ rw e (
          λ i. inl i,
          λ h. elim h [ inl i ↦ i | inr q ↦ absurd (skipped rule e q.enabled q.for_host) ],
        )
        | inr e ↦ rw e (
          λ i. elim (found.0 i) [
            | inl j ↦ inl j
            | inr (p, q, j) ↦
                let (on, mine) = taken rule e in
                inr (record { enabled = on; for_host = mine; kind = p; action = q; listed = j })
          ],
          λ h. found.1 (elim h [ inl i ↦ inl i | inr q ↦ inr (q.kind, q.action, q.listed) ]),
        )
      ]

  add_rule-Distinct :
      (rule : ZentLoopRule) (r : HostRules)
      → Distinct (chosen k a r)
      → Distinct (chosen k a (add_rule lists host_id rule r))
  unfolding add_rule
  add_rule-Distinct rule r d =
      elim (Bool-cases (not rule.enabled || not (applies host_id rule.host_ids))) [
        | inl e ↦ rw e d
        | inr e ↦ rw e (
            add_found-Distinct (kind_of (to_lower (trim_space rule.match)))
              (action_of (to_lower (trim_space rule.action))) (trim_space rule.value) r d)
      ]

  -- Some rule of the list asks for it.
  abbrev pub Asked : Text → List ZentLoopRule → Type 0
  Asked v [] = ⊥
  Asked v (rule ∷ rules) = Asks lists host_id k a v rule ⊎ Asked v rules

  In-add_rules :
      (v : Text) (rules : List ZentLoopRule) (r : HostRules)
      → In v (chosen k a (add_rules lists host_id rules r)) ↔ (In v (chosen k a r) ⊎ Asked v rules)
  unfolding add_rules
  In-add_rules v [] r = ground arith
  In-add_rules v (rule ∷ rules) r =
      ground (arith, In-add_rules v rules (add_rule lists host_id rule r), In-add_rule v rule r)

  add_rules-Distinct :
      (rules : List ZentLoopRule) (r : HostRules)
      → Distinct (chosen k a r)
      → Distinct (chosen k a (add_rules lists host_id rules r))
  unfolding add_rules
  add_rules-Distinct [] r d = d
  add_rules-Distinct (rule ∷ rules) r d =
      add_rules-Distinct rules (add_rule lists host_id rule r) (add_rule-Distinct rule r d)

chosen-sort_rules :
    (k : Kind) (a : Action) (r : HostRules) → chosen k a (sort_rules r) ≡ sort_texts (chosen k a r)
unfolding sort_rules
chosen-sort_rules source_ip_list block r = refl
chosen-sort_rules source_ip_list zentloop r = refl
chosen-sort_rules path_exact block r = refl
chosen-sort_rules path_exact zentloop r = refl
chosen-sort_rules path_prefix block r = refl
chosen-sort_rules path_prefix zentloop r = refl

chosen-no_rules : (k : Kind) (a : Action) → chosen k a no_rules ≡ []
chosen-no_rules source_ip_list block = refl
chosen-no_rules source_ip_list zentloop = refl
chosen-no_rules path_exact block = refl
chosen-no_rules path_exact zentloop = refl
chosen-no_rules path_prefix block = refl
chosen-no_rules path_prefix zentloop = refl

-- For each kind and action the list of a host is sorted, holds each text once, and holds a text
-- exactly if some enabled rule that names the host, or names none, asks for it.
pub zent_loop_rules_for_host_lem :
    (cfg : ZentLoopConfig) (host_id : ℕ) (k : Kind) (a : Action)
    → IsSorted (chosen k a (zent_loop_rules_for_host cfg host_id))
      × Distinct (chosen k a (zent_loop_rules_for_host cfg host_id))
      × ((v : Text)
          → In v (chosen k a (zent_loop_rules_for_host cfg host_id))
            ↔ Asked cfg.ip_lists host_id k a v cfg.rules)
unfolding zent_loop_rules_for_host
zent_loop_rules_for_host_lem cfg host_id k a =
    let found = add_rules cfg.ip_lists host_id cfg.rules no_rules in
    let empty = chosen-no_rules k a in
    rw (chosen-sort_rules k a found) (
      sort_texts-IsSorted (chosen k a found),
      sort_texts-Distinct (chosen k a found)
          (add_rules-Distinct cfg.ip_lists host_id k a cfg.rules no_rules (rw empty tt)),
      λ v.
          let listed = In-sort_texts v (chosen k a found) in
          let asked = In-add_rules cfg.ip_lists host_id k a v cfg.rules no_rules in
          (
            λ i. elim (asked.0 (listed.0 i)) [
              | inl n ↦ absurd (subst (λ x. In v x) empty n)
              | inr h ↦ h
            ],
            λ h. listed.1 (asked.1 (inr h)),
          ),
    )
