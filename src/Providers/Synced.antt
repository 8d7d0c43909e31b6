-- ===== src/Providers/Synced.antt =====
-- internal/providers/manager.go: proofs on what a refresh leaves on disk.
use zent_proxy.Base.{
  ℕ, ◌≡◌, refl, sym, ◌∙◌, ◌≢◌, inl, inr, Bool, true, false, not, none, List, [], ◌∷◌, map, ◌==◌,
  Bool-cases, Text,
}
use zent_proxy.Model.{TrustedProxyProvider}
use zent_proxy.Net.{Net}
use zent_proxy.Providers.{
  Fetched, fetched, refused, unique_sorted, same_strings, Trip, Result, after_change, change,
  store_fetched, refresh_row, refresh,
}
use zent_proxy.Store.Rows.{replace}
use zent_proxy.Store.Providers.{
  read_row, write_row, Registry, Row, row, missing, failed, id_of, get_provider, write_result,
  update_provider_result, activate_as, apply,
}
use zent_proxy.Api.State.{Outcome, activated, rejected, broken}

-- a provider without the times and the error of its downloads
abbrev pub served : TrustedProxyProvider → TrustedProxyProvider
served p = record p { last_checked = none; last_changed = none; last_error = [] }

-- The providers of the configuration on disk are those of the store.
abbrev pub IsSynced : Registry → Type 0
IsSynced st = map served st.live ≡ map served st.providers

pub served-replace :
    (id : ℕ) (f : TrustedProxyProvider → TrustedProxyProvider) (ps : List TrustedProxyProvider)
    → ((p : TrustedProxyProvider) → served (f p) ≡ served p)
    → map served (replace id_of id f ps) ≡ map served ps
unfolding replace
served-replace id f [] h = refl
served-replace id f (p ∷ ps) h = elim (Bool-cases (id_of p == id)) [
  | inl e ↦ rw e (cc (h p, served-replace id f ps h))
  | inr e ↦ rw e (cc (served-replace id f ps h))
]

module _ (net : Net) (quote : Text → Text) (outcome : ℕ → List TrustedProxyProvider → Outcome) where
  noted-IsSynced :
      (fails : Bool) (id now : ℕ) (cidrs : List Text) (e : Text) (st : Registry)
      → IsSynced st
      → IsSynced (update_provider_result fails id cidrs now false e st).0
  unfolding update_provider_result write_result
  noted-IsSynced true id now cidrs e st h = h
  noted-IsSynced false id now cidrs e st h =
      h ∙ sym (served-replace id (write_result cidrs now false e) st.providers (λ p. refl))

  applied-IsSynced :
      (t : Trip net quote) (id : ℕ) (st : Registry)
      → (after_change net quote outcome t id (apply outcome st)).1 ≢ Result.not_activated
      → IsSynced (after_change net quote outcome t id (apply outcome st)).0
  unfolding apply
  applied-IsSynced t id st = go (outcome st.activations st.providers)
    where
      go :
          (o : Outcome)
          → (after_change net quote outcome t id (activate_as o st)).1 ≢ Result.not_activated
          → IsSynced (after_change net quote outcome t id (activate_as o st)).0
      go activated n = refl
      go rejected n = absurd (n refl)
      go broken n = absurd (n refl)

  change-IsSynced :
      (b : Bool) (t : Trip net quote) (id now : ℕ) (cidrs : List Text) (fails : Bool)
      (st : Registry)
      → IsSynced st
      → (change net quote outcome b t id (update_provider_result fails id cidrs now b [] st).0).1
        ≢ Result.not_activated
      → IsSynced
          (change net quote outcome b t id (update_provider_result fails id cidrs now b [] st).0).0
  change-IsSynced false t id now cidrs fails st h n = noted-IsSynced fails id now cidrs [] st h
  change-IsSynced true t id now cidrs fails st h n = applied-IsSynced t id _ n

  store_fetched-IsSynced :
      (t : Trip net quote) (p : TrustedProxyProvider) (f : Fetched) (st : Registry)
      → IsSynced st
      → (store_fetched net quote outcome t p f st).1 ≢ Result.not_activated
      → IsSynced (store_fetched net quote outcome t p f st).0
  store_fetched-IsSynced t p (refused e) st h =
      λ n. noted-IsSynced (t.fails write_row) p.id t.now p.cidrs e st h
  store_fetched-IsSynced t p (fetched cidrs) st h =
      elim (Bool-cases
        (update_provider_result (t.fails write_row) p.id (unique_sorted cidrs) t.now
          (not (same_strings (unique_sorted cidrs) p.cidrs)) [] st).1) [
            | inl e ↦ rw e (
                change-IsSynced (not (same_strings (unique_sorted cidrs) p.cidrs)) t p.id t.now
                  (unique_sorted cidrs) (t.fails write_row) st h)
            | inr e ↦ rw e (λ n. h)
          ]

  refresh_row-IsSynced :
      (t : Trip net quote) (r : Row) (st : Registry)
      → IsSynced st
      → (refresh_row net quote outcome t r st).1 ≢ Result.not_activated
      → IsSynced (refresh_row net quote outcome t r st).0
  refresh_row-IsSynced t missing st h = λ n. h
  refresh_row-IsSynced t failed st h = λ n. h
  refresh_row-IsSynced t (row p) st h = elim (Bool-cases p.auto_update) [
    | inl e ↦ rw e (store_fetched-IsSynced t p _ st h)
    | inr e ↦ rw e (λ n. h)
  ]

  -- If the configuration on disk is that of the stored providers, but for the times and errors of
  -- downloads, it still is after a refresh that does not report a failed activation, whatever the
  -- download and the store do.
  pub refresh-IsSynced :
      (t : Trip net quote) (id : ℕ) (st : Registry)
      → IsSynced st
      → (refresh net quote outcome t id st).1 ≢ Result.not_activated
      → IsSynced (refresh net quote outcome t id st).0
  unfolding refresh
  refresh-IsSynced t id st = refresh_row-IsSynced t (get_provider (t.fails read_row) id st) st
