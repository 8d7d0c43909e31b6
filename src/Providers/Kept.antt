-- ===== src/Providers/Kept.antt =====
-- internal/providers/manager.go: proofs on Refresh and RefreshAll, for properties that the single
-- writes keep.
use zent_proxy.Base.{
  ℕ, suc, ◌≡◌, refl, sym, subst, inl, inr, Bool, true, false, not, List, [], ◌∷◌, if◌then◌else◌,
  Bool-cases, Text,
}
use zent_proxy.Model.{TrustedProxyProvider}
use zent_proxy.Net.{Net}
use zent_proxy.Strings.Sorting.{sort_by}
use zent_proxy.Providers.{
  Fetched, fetched, refused, unique_sorted, same_strings, Trip, Result, after_change, change,
  store_fetched, refresh_row, refresh, refresh_each, refresh_all,
}
use zent_proxy.Providers.Sets.{unique_sorted-IsClean, In-unique_sorted}
use zent_proxy.Providers.Clean.{IsGood, IsGoodRegistry, Parsed, fetch_all-Parsed}
use zent_proxy.Store.Rows.{replace, In-replace}
use zent_proxy.Store.Providers.{
  read_row, write_row, Registry, Row, row, missing, failed, id_of, listed_before, get_provider,
  write_result, update_provider_result, activate_as, apply,
}
use zent_proxy.Api.State.{Outcome, activated, rejected, broken}

-- The writes of a refresh keep `P`: a result that leaves the list, one that replaces it by a good
-- list, and an activation.
pub record IsKept (net : Net) (P : Registry → Type 0) : Type 0 where
  pub checked :
      (st : Registry) (id now : ℕ) (cidrs : List Text) (e : Text)
      → P st
      → P (record st { providers = replace id_of id (write_result cidrs now false e) st.providers })
  pub changed :
      (st : Registry) (id now : ℕ) (cidrs : List Text) (e : Text)
      → IsGood net cidrs
      → P st
      → P (record st { providers = replace id_of id (write_result cidrs now true e) st.providers })
  pub applied :
      (st : Registry) (live : List TrustedProxyProvider) (n : ℕ)
      → P st
      → P (record st { live = live; activations = n })

module _ (net : Net) (quote : Text → Text) (outcome : ℕ → List TrustedProxyProvider → Outcome)
    (P : Registry → Type 0) (keeps : IsKept net P) where
  written :
      (fails : Bool) (id now : ℕ) (cidrs : List Text) (change : Bool) (e : Text) (st : Registry)
      → IsGood net cidrs
      → P st
      → P (update_provider_result fails id cidrs now change e st).0
  unfolding update_provider_result
  written true id now cidrs change e st g p = p
  written false id now cidrs true e st g p = keeps.changed st id now cidrs e g p
  written false id now cidrs false e st g p = keeps.checked st id now cidrs e p

  noted :
      (fails : Bool) (id now : ℕ) (cidrs : List Text) (e : Text) (st : Registry)
      → P st
      → P (update_provider_result fails id cidrs now false e st).0
  unfolding update_provider_result
  noted true id now cidrs e st p = p
  noted false id now cidrs e st p = keeps.checked st id now cidrs e p

  pub apply-kept : (st : Registry) → P st → P (apply outcome st).0
  unfolding apply
  apply-kept st p = go (outcome st.activations st.providers)
    where
      go : (o : Outcome) → P (activate_as o st).0
      go activated = keeps.applied st st.providers (suc st.activations) p
      go rejected = keeps.applied st st.live (suc st.activations) p
      go broken = keeps.applied st st.providers (suc st.activations) p

  after_change-state :
      (t : Trip net quote) (id : ℕ) (r : Registry × Bool)
      → (after_change net quote outcome t id r).0 ≡ r.0
  after_change-state t id (st, true) = refl
  after_change-state t id (st, false) = refl

  change-kept :
      (b : Bool) (t : Trip net quote) (id : ℕ) (st : Registry)
      → P st
      → P (change net quote outcome b t id st).0
  change-kept false t id st p = p
  change-kept true t id st p =
      subst P (sym (after_change-state t id (apply outcome st))) (apply-kept st p)

  store_fetched-kept :
      (t : Trip net quote) (p : TrustedProxyProvider) (f : Fetched) (st : Registry)
      → Parsed net f
      → P st
      → P (store_fetched net quote outcome t p f st).0
  store_fetched-kept t p (refused e) st g h = noted (t.fails write_row) p.id t.now p.cidrs e st h
  store_fetched-kept t p (fetched cidrs) st g h =
      go (update_provider_result (t.fails write_row) p.id all t.now new [] st).1 refl
    where
      all : List Text
      all = unique_sorted cidrs

      new : Bool
      new = not (same_strings all p.cidrs)

      good : IsGood net all
      good = record {
        clean = unique_sorted-IsClean cidrs;
        cidrs = λ c i. g c ((In-unique_sorted c cidrs).0 i);
      }

      go :
          (ok : Bool)
          → (update_provider_result (t.fails write_row) p.id all t.now new [] st).1 ≡ ok
          → P
              (if not ok
                then (st, Result.broken_store)
                else change net quote outcome new t p.id
                    (update_provider_result (t.fails write_row) p.id all t.now new [] st).0).0
      go true e =
          change-kept new t p.id _ (written (t.fails write_row) p.id t.now all new [] st good h)
      go false e = h

  refresh_row-kept :
      (t : Trip net quote) (r : Row) (st : Registry)
      → P st
      → P (refresh_row net quote outcome t r st).0
  refresh_row-kept t missing st h = h
  refresh_row-kept t failed st h = h
  refresh_row-kept t (row p) st h = elim (Bool-cases p.auto_update) [
    | inl e ↦ rw e (store_fetched-kept t p _ st (fetch_all-Parsed net quote t.get _) h)
    | inr e ↦ rw e h
  ]

  pub refresh-kept :
      (t : Trip net quote) (id : ℕ) (st : Registry) → P st → P (refresh net quote outcome t id st).0
  unfolding refresh
  refresh-kept t id st h = refresh_row-kept t (get_provider (t.fails read_row) id st) st h

  refresh_each-kept :
      (trips : ℕ → Trip net quote) (ps : List TrustedProxyProvider) (st : Registry)
      → P st
      → P (refresh_each net quote outcome trips ps st)
  unfolding refresh_each
  refresh_each-kept trips [] st h = h
  refresh_each-kept trips (p ∷ ps) st h = elim (Bool-cases p.auto_update) [
    | inl e ↦ rw e (refresh_each-kept trips ps _ (refresh-kept (trips p.id) p.id st h))
    | inr e ↦ rw e (refresh_each-kept trips ps st h)
  ]

  pub refresh_all-kept :
      (fails : Bool) (trips : ℕ → Trip net quote) (st : Registry)
      → P st
      → P (refresh_all net quote outcome fails trips st)
  unfolding refresh_all
  refresh_all-kept true trips st h = h
  refresh_all-kept false trips st h =
      refresh_each-kept trips (sort_by listed_before st.providers) st h

-- The writes of a refresh keep the lists of a good registry good.
pub good_kept : (net : Net) → IsKept net (IsGoodRegistry net)
good_kept net = record {
  checked = λ st id now cidrs e h q i.
      elim (In-replace id_of id (write_result cidrs now false e) st.providers q i) [
        | inl (j, n) ↦ h q j
        | inr (p, j, k, s) ↦ unfold write_result in subst (λ x. IsGood net x.cidrs) (sym s) (h p j)
      ];
  changed = λ st id now cidrs e g h q i.
      elim (In-replace id_of id (write_result cidrs now true e) st.providers q i) [
        | inl (j, n) ↦ h q j
        | inr (p, j, k, s) ↦ unfold write_result in subst (λ x. IsGood net x.cidrs) (sym s) g
      ];
  applied = λ st live n h. h;
}
