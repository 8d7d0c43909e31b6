-- ===== src/Api/Providers/Sound.antt =====
-- internal/api/server.go: proofs on the providers that the requests and the downloads leave in the
-- store.
use zent_proxy.Base.{
  ℕ, ◌<◌, ◌≡◌, refl, sym, subst, ◌≢◌, inl, inr, true, false, Option, none, some, List, [], ◌∷◌,
  ◌++◌, map, arith, Bool-cases, In, In-append_split, Text,
}
use zent_proxy.Model.{TrustedProxyProvider, TrustedProxyProviderInput}
use zent_proxy.Net.{Net}
use zent_proxy.Store.Rows.{replace, remove, In-remove, In-replace}
use zent_proxy.Store.Ids.{
  AreUnique, In-map_append, In-map_left, AreUnique-insert, ids-replace, In-ids_remove,
  AreUnique-remove,
}
use zent_proxy.Store.Providers.{Registry, id_of, write_result}
use zent_proxy.Providers.Clean.{IsGood, IsGoodRegistry}
use zent_proxy.Providers.Kept.{IsKept, good_kept}
use zent_proxy.Api.Providers.{
  ProviderRequest, is_manual, new_provider, insert_provider, edited, edit_provider, drop_references,
  remove_provider, log,
}

-- Every reference is to an id that there is.
abbrev pub AreKnown : List ℕ → List (Option ℕ) → Type 0
AreKnown ids rs = (k : ℕ) → In (some k) rs → In k ids

-- The ids are unique and were given out, and the three tables refer to providers that there are.
pub record IsLinked (ids : List ℕ) (next : ℕ) (hosts redirect_hosts dead_hosts : List (Option ℕ))
    : Type 0 where
  pub unique : AreUnique ids
  pub below : (k : ℕ) → In k ids → k < next
  pub hosts_known : AreKnown ids hosts
  pub redirect_hosts_known : AreKnown ids redirect_hosts
  pub dead_hosts_known : AreKnown ids dead_hosts

abbrev pub IsLinkedRegistry : Registry → Type 0
IsLinkedRegistry st =
    IsLinked (map id_of st.providers) st.next_id st.hosts st.redirect_hosts st.dead_hosts

pub record IsSoundRegistry (net : Net) (st : Registry) : Type 0 where
  pub good : IsGoodRegistry net st
  pub linked : IsLinkedRegistry st

replace-IsLinked :
    (id : ℕ) (f : TrustedProxyProvider → TrustedProxyProvider) (st : Registry)
    → ((p : TrustedProxyProvider) → id_of (f p) ≡ id_of p)
    → IsLinkedRegistry st
    → IsLinkedRegistry (record st { providers = replace id_of id f st.providers })
replace-IsLinked id f st h l =
    subst (λ ids. IsLinked ids st.next_id st.hosts st.redirect_hosts st.dead_hosts)
      (sym (ids-replace id_of id f st.providers h)) l

In-drop :
    (id k : ℕ) (rs : List (Option ℕ))
    → In (some k) (drop_references id rs)
    → In (some k) rs × (k ≢ id)
unfolding drop_references
In-drop id k [] i = elim i [ ]
In-drop id k (none ∷ rs) i = ground (arith, In-drop id k rs)
In-drop id k (some j ∷ rs) i = ground (arith, In-drop id k rs)

AreKnown-drop :
    (id : ℕ) (ps : List TrustedProxyProvider) (rs : List (Option ℕ))
    → AreKnown (map id_of ps) rs
    → AreKnown (map id_of (remove id_of id ps)) (drop_references id rs)
AreKnown-drop id ps rs h k i =
    let (j, n) = In-drop id k rs i in (In-ids_remove id_of id k ps).1 (h k j, n)

AreKnown-insert :
    (ps : List TrustedProxyProvider) (p : TrustedProxyProvider) (rs : List (Option ℕ))
    → AreKnown (map id_of ps) rs
    → AreKnown (map id_of (ps ++ (p ∷ []))) rs
AreKnown-insert ps p rs h k i = In-map_left id_of k ps p (h k i)

module _ (net : Net) where
  pub insert-IsSound :
      (slug : Text) (in_ : TrustedProxyProviderInput) (st : Registry)
      → IsGood net in_.cidrs
      → IsSoundRegistry net st
      → IsSoundRegistry net (insert_provider slug in_ st)
  unfolding insert_provider new_provider id_of
  insert-IsSound slug in_ st g s = record {
    good = λ q i. elim (In-append_split q st.providers (new_provider st.next_id slug in_ ∷ []) i) [
      | inl j ↦ s.good q j
      | inr j ↦ elim j [ inl e ↦ subst (λ x. IsGood net x.cidrs) (sym e) g | inr k ↦ elim k [ ] ]
    ];
    linked = record {
      unique =
          AreUnique-insert id_of st.providers (new_provider st.next_id slug in_) s.linked.unique
            s.linked.below;
      below = λ k i.
          elim (In-map_append id_of k st.providers (new_provider st.next_id slug in_) i) [
            | inl j ↦ let lt : k < st.next_id = s.linked.below k j in omega arith
            | inr e ↦ omega (arith, e)
          ];
      hosts_known = AreKnown-insert st.providers _ st.hosts s.linked.hosts_known;
      redirect_hosts_known =
          AreKnown-insert st.providers _ st.redirect_hosts s.linked.redirect_hosts_known;
      dead_hosts_known = AreKnown-insert st.providers _ st.dead_hosts s.linked.dead_hosts_known;
    };
  }

  pub remove-IsSound :
      (id : ℕ) (st : Registry)
      → IsSoundRegistry net st
      → IsSoundRegistry net (remove_provider id st)
  unfolding remove_provider
  remove-IsSound id st s = record {
    good = λ q i. s.good q (In-remove id_of id st.providers q i);
    linked = record {
      unique = AreUnique-remove id_of id st.providers s.linked.unique;
      below = λ k i. s.linked.below k ((In-ids_remove id_of id k st.providers).0 i).0;
      hosts_known = AreKnown-drop id st.providers st.hosts s.linked.hosts_known;
      redirect_hosts_known =
          AreKnown-drop id st.providers st.redirect_hosts s.linked.redirect_hosts_known;
      dead_hosts_known = AreKnown-drop id st.providers st.dead_hosts s.linked.dead_hosts_known;
    };
  }

  edited-id :
      (in_ : TrustedProxyProviderInput) (p : TrustedProxyProvider) → id_of (edited in_ p) ≡ id_of p
  unfolding edited id_of
  edited-id in_ p = elim (Bool-cases (is_manual p)) [ inl e ↦ rw e refl | inr e ↦ rw e refl ]

  edited-IsGood :
      (in_ : TrustedProxyProviderInput) (p : TrustedProxyProvider)
      → IsGood net in_.cidrs
      → IsGood net p.cidrs
      → IsGood net (edited in_ p).cidrs
  unfolding edited
  edited-IsGood in_ p g h = elim (Bool-cases (is_manual p)) [ inl e ↦ rw e g | inr e ↦ rw e h ]

  pub edit-IsSound :
      (id : ℕ) (in_ : TrustedProxyProviderInput) (st : Registry)
      → IsGood net in_.cidrs
      → IsSoundRegistry net st
      → IsSoundRegistry net (edit_provider id in_ st)
  unfolding edit_provider
  edit-IsSound id in_ st g s = record {
    good = λ q i. elim (In-replace id_of id (edited in_) st.providers q i) [
      | inl (j, n) ↦ s.good q j
      | inr (p, j, k, e) ↦
          subst (λ x. IsGood net x.cidrs) (sym e) (edited-IsGood in_ p g (s.good p j))
    ];
    linked = replace-IsLinked id (edited in_) st (edited-id in_) s.linked;
  }

  pub sound_kept : IsKept net (IsSoundRegistry net)
  unfolding write_result id_of
  sound_kept = record {
    checked = λ st id now cidrs e s. record {
      good = (good_kept net).checked st id now cidrs e s.good;
      linked = replace-IsLinked id (write_result cidrs now false e) st (λ p. refl) s.linked;
    };
    changed = λ st id now cidrs e g s. record {
      good = (good_kept net).changed st id now cidrs e g s.good;
      linked = replace-IsLinked id (write_result cidrs now true e) st (λ p. refl) s.linked;
    };
    applied = λ st live n s. record { good = s.good; linked = s.linked };
  }

  pub log-IsSound :
      (rq : ProviderRequest) (action : Text) (id : ℕ) (detail : Text) (st : Registry)
      → IsSoundRegistry net st
      → IsSoundRegistry net (log rq action id detail st)
  unfolding log
  log-IsSound rq action id detail st s = record { good = s.good; linked = s.linked }
