-- ===== src/Api/Providers/Run.antt =====
-- internal/api/server.go: proofs on sequences of requests on providers and of refreshes.
use zent_proxy.Base.{
  ℕ, ◌≡◌, refl, ◌⊎◌, inl, inr, Bool, true, false, not, ◌||◌, Option, none, some, List, [], ◌∷◌,
  ◌++◌, Bool-cases, Text, lit,
}
use zent_proxy.Model.{TrustedProxyProvider, TrustedProxyProviderInput}
use zent_proxy.Net.{Net}
use zent_proxy.Store.Rows.{find}
use zent_proxy.Store.Providers.{
  read_row, write_row, Registry, Row, row, missing, failed, id_of, get_provider, apply,
}
use zent_proxy.Providers.{Trip, Result, refresh}
use zent_proxy.Providers.Clean.{IsGood}
use zent_proxy.Providers.Kept.{apply-kept, refresh-kept, refresh_all-kept}
use zent_proxy.Api.Providers.{
  ProviderError, normalize_provider_input, ProviderRequest, is_manual, create_provider,
  is_manual_row, update_provider, remove_provider, delete_provider, delete_detail, finish_create,
  create_input, create_body, provider_create, finish_update, after_update, update_input,
  update_body, update_row, update_id, provider_update, finish_delete, after_delete, delete_row,
  delete_id, provider_delete, refreshed, refresh_id, provider_refresh, ProviderStep, step, steps,
}
use zent_proxy.Api.Providers.Normal.{normalize_provider_input-IsNormal}
use zent_proxy.Api.Providers.Sound.{
  IsSoundRegistry, insert-IsSound, remove-IsSound, edit-IsSound, sound_kept, log-IsSound,
}
use zent_proxy.Api.State.{Outcome}

module _ (net : Net) (outcome : ℕ → List TrustedProxyProvider → Outcome) (quote : Text → Text) where
  -- the input, where there is one, has good addresses
  abbrev GoodInput : TrustedProxyProviderInput ⊎ ProviderError → Type 0
  GoodInput r = (in_ : TrustedProxyProviderInput) → r ≡ inl in_ → IsGood net in_.cidrs

  input_good : (raw : TrustedProxyProviderInput) → GoodInput (normalize_provider_input net raw)
  input_good raw in_ e = (normalize_provider_input-IsNormal net raw in_ e).good

  finish_create-IsSound :
      (rq : ProviderRequest) (r : Row) (st : Registry)
      → IsSoundRegistry net st
      → IsSoundRegistry net (finish_create net rq (st, r)).0
  finish_create-IsSound rq (row p) st s = log-IsSound net rq (lit "create") p.id p.name st s
  finish_create-IsSound rq missing st s = s
  finish_create-IsSound rq failed st s = s

  create_input-IsSound :
      (rq : ProviderRequest) (r : TrustedProxyProviderInput ⊎ ProviderError) (st : Registry)
      → GoodInput r
      → IsSoundRegistry net st
      → IsSoundRegistry net (create_input net rq r st).0
  unfolding create_provider
  create_input-IsSound rq (inr e) st g s = s
  create_input-IsSound rq (inl in_) st g s = elim (Bool-cases (rq.fails write_row)) [
    | inl e ↦ rw e s
    | inr e ↦ rw e (
        finish_create-IsSound rq _ _
          (insert-IsSound net (lit "custom-" ++ rq.slug) in_ st (g in_ refl) s))
  ]

  create_body-IsSound :
      (rq : ProviderRequest) (b : Option TrustedProxyProviderInput) (st : Registry)
      → IsSoundRegistry net st
      → IsSoundRegistry net (create_body net rq b st).0
  create_body-IsSound rq none st s = s
  create_body-IsSound rq (some raw) st s =
      create_input-IsSound rq (normalize_provider_input net raw) st (input_good raw) s

  finish_update-IsSound :
      (rq : ProviderRequest) (id : ℕ) (p : TrustedProxyProvider) (r : Registry × Bool)
      → IsSoundRegistry net r.0
      → IsSoundRegistry net (finish_update net outcome rq id p r).0
  finish_update-IsSound rq id p (st, true) s = log-IsSound net rq (lit "update") id p.name st s
  finish_update-IsSound rq id p (st, false) s = s

  after_update-IsSound :
      (rq : ProviderRequest) (id : ℕ) (r : Row) (st : Registry)
      → IsSoundRegistry net st
      → IsSoundRegistry net (after_update net outcome rq id (st, r)).0
  after_update-IsSound rq id (row p) st s =
      finish_update-IsSound rq id p (apply outcome st)
        (apply-kept net quote outcome (IsSoundRegistry net) (sound_kept net) st s)
  after_update-IsSound rq id missing st s = s
  after_update-IsSound rq id failed st s = s

  update_input-IsSound :
      (rq : ProviderRequest) (id : ℕ) (r : TrustedProxyProviderInput ⊎ ProviderError)
      (st : Registry)
      → GoodInput r
      → IsSoundRegistry net st
      → IsSoundRegistry net (update_input net outcome rq id r st).0
  unfolding update_provider
  update_input-IsSound rq id (inr e) st g s = s
  update_input-IsSound rq id (inl in_) st g s = elim (Bool-cases (rq.fails write_row)) [
    | inl e ↦ rw e s
    | inr e ↦ rw e (elim (Bool-cases (is_manual_row (find id_of id st.providers))) [
      | inl m ↦ rw m (after_update-IsSound rq id _ _ (edit-IsSound net id in_ st (g in_ refl) s))
      | inr m ↦ rw m s
    ])
  ]

  update_body-IsSound :
      (rq : ProviderRequest) (id : ℕ) (b : Option TrustedProxyProviderInput) (st : Registry)
      → IsSoundRegistry net st
      → IsSoundRegistry net (update_body net outcome rq id b st).0
  update_body-IsSound rq id none st s = s
  update_body-IsSound rq id (some raw) st s =
      update_input-IsSound rq id (normalize_provider_input net raw) st (input_good raw) s

  update_row-IsSound :
      (rq : ProviderRequest) (id : ℕ) (r : Row) (st : Registry)
      → IsSoundRegistry net st
      → IsSoundRegistry net (update_row net outcome rq id r st).0
  update_row-IsSound rq id missing st s = s
  update_row-IsSound rq id failed st s = s
  update_row-IsSound rq id (row p) st s = elim (Bool-cases (is_manual p)) [
    | inl e ↦ rw e (update_body-IsSound rq id rq.body st s)
    | inr e ↦ rw e s
  ]

  update_id-IsSound :
      (rq : ProviderRequest) (k : Option ℕ) (st : Registry)
      → IsSoundRegistry net st
      → IsSoundRegistry net (update_id net outcome rq k st).0
  update_id-IsSound rq none st s = s
  update_id-IsSound rq (some id) st s =
      update_row-IsSound rq id (get_provider (rq.fails read_row) id st) st s

  finish_delete-IsSound :
      (rq : ProviderRequest) (id : ℕ) (p : TrustedProxyProvider) (n : ℕ) (r : Registry × Bool)
      → IsSoundRegistry net r.0
      → IsSoundRegistry net (finish_delete net outcome rq id p n r).0
  finish_delete-IsSound rq id p n (st, true) s =
      log-IsSound net rq (lit "delete") id (delete_detail p.name n) st s
  finish_delete-IsSound rq id p n (st, false) s = s

  after_delete-IsSound :
      (rq : ProviderRequest) (id : ℕ) (p : TrustedProxyProvider) (st : Registry)
      → IsSoundRegistry net st
      → IsSoundRegistry net (after_delete net outcome rq id p (delete_provider rq id st)).0
  unfolding delete_provider
  after_delete-IsSound rq id p st s =
      elim (Bool-cases (rq.fails write_row || not (is_manual_row (find id_of id st.providers)))) [
        | inl e ↦ rw e s
        | inr e ↦ rw e (
            finish_delete-IsSound rq id p _ (apply outcome (remove_provider id st)) (
              apply-kept net quote outcome (IsSoundRegistry net) (sound_kept net)
                (remove_provider id st) (remove-IsSound net id st s)))
      ]

  delete_row-IsSound :
      (rq : ProviderRequest) (id : ℕ) (r : Row) (st : Registry)
      → IsSoundRegistry net st
      → IsSoundRegistry net (delete_row net outcome rq id r st).0
  delete_row-IsSound rq id missing st s = s
  delete_row-IsSound rq id failed st s = s
  delete_row-IsSound rq id (row p) st s = elim (Bool-cases (is_manual p)) [
    | inl e ↦ rw e (after_delete-IsSound rq id p st s)
    | inr e ↦ rw e s
  ]

  delete_id-IsSound :
      (rq : ProviderRequest) (k : Option ℕ) (st : Registry)
      → IsSoundRegistry net st
      → IsSoundRegistry net (delete_id net outcome rq k st).0
  delete_id-IsSound rq none st s = s
  delete_id-IsSound rq (some id) st s =
      delete_row-IsSound rq id (get_provider (rq.fails read_row) id st) st s

  refreshed-IsSound :
      (rq : ProviderRequest) (id : ℕ) (r : Result net quote) (st : Registry)
      → IsSoundRegistry net st
      → IsSoundRegistry net (refreshed net outcome quote rq id (st, r)).0
  refreshed-IsSound rq id (Result.found p) st s = log-IsSound net rq (lit "refresh") id p.name st s
  refreshed-IsSound rq id Result.no_row st s = s
  refreshed-IsSound rq id Result.broken_store st s = s
  refreshed-IsSound rq id Result.not_automatic st s = s
  refreshed-IsSound rq id Result.not_activated st s = s

  refresh_id-IsSound :
      (rq : ProviderRequest) (t : Trip net quote) (k : Option ℕ) (st : Registry)
      → IsSoundRegistry net st
      → IsSoundRegistry net (refresh_id net outcome quote rq t k st).0
  refresh_id-IsSound rq t none st s = s
  refresh_id-IsSound rq t (some id) st s =
      refreshed-IsSound rq id (refresh net quote outcome t id st).1 _
        (refresh-kept net quote outcome (IsSoundRegistry net) (sound_kept net) t id st s)

  step-IsSound :
      (s : ProviderStep net outcome quote) (st : Registry)
      → IsSoundRegistry net st
      → IsSoundRegistry net (step net outcome quote s st)
  unfolding step provider_create provider_update provider_delete provider_refresh
  step-IsSound (ProviderStep.create rq) st s = create_body-IsSound rq rq.body st s
  step-IsSound (ProviderStep.update rq) st s = update_id-IsSound rq rq.path_id st s
  step-IsSound (ProviderStep.delete rq) st s = delete_id-IsSound rq rq.path_id st s
  step-IsSound (ProviderStep.refresh_one rq t) st s = refresh_id-IsSound rq t rq.path_id st s
  step-IsSound (ProviderStep.refresh_every fails trips) st s =
      refresh_all-kept net quote outcome (IsSoundRegistry net) (sound_kept net) fails trips st s

  -- From a sound registry, any sequence of requests that create, update, delete or refresh providers,
  -- and of refreshes of all, whatever the downloads, the store and the activations do, ends in a sound
  -- registry: each list of addresses is sorted, without duplicates and in canonical form, the ids are
  -- unique and were given out, and the hosts, redirect hosts and 404 hosts refer only to providers
  -- that there are.
  pub steps-IsSound :
      (ss : List (ProviderStep net outcome quote)) (st : Registry)
      → IsSoundRegistry net st
      → IsSoundRegistry net (steps net outcome quote ss st)
  unfolding steps
  steps-IsSound [] st s = s
  steps-IsSound (x ∷ ss) st s = steps-IsSound ss (step net outcome quote x st) (step-IsSound x st s)
