-- ===== src/Providers/Refused.antt =====
-- internal/providers/manager.go: proofs on a download that gives an error.
use zent_proxy.Base.{
  ℕ, ◌≡◌, refl, inl, inr, Bool, true, false, List, [], ◌∷◌, map, Bool-cases, Text,
}
use zent_proxy.Model.{TrustedProxyProvider}
use zent_proxy.Net.{Net}
use zent_proxy.Providers.{
  Fetched, fetched, refused, fetch_all, Trip, store_fetched, refresh_row, refresh,
}
use zent_proxy.Providers.Synced.{served, served-replace}
use zent_proxy.Store.Providers.{
  read_row, write_row, Registry, Row, row, missing, failed, get_provider, write_result,
  update_provider_result,
}
use zent_proxy.Api.State.{Outcome}

-- The lists of addresses are the same, and nothing was activated.
pub record IsUntouched (st after : Registry) : Type 0 where
  pub providers : map served after.providers ≡ map served st.providers
  pub live : after.live ≡ st.live
  pub activations : after.activations ≡ st.activations

module _ (net : Net) (quote : Text → Text) (outcome : ℕ → List TrustedProxyProvider → Outcome) where
  noted-IsUntouched :
      (fails : Bool) (id now : ℕ) (cidrs : List Text) (e : Text) (st : Registry)
      → IsUntouched st (update_provider_result fails id cidrs now false e st).0
  unfolding update_provider_result write_result
  noted-IsUntouched true id now cidrs e st = record {
    providers = refl;
    live = refl;
    activations = refl;
  }
  noted-IsUntouched false id now cidrs e st = record {
    providers = served-replace id (write_result cidrs now false e) st.providers (λ p. refl);
    live = refl;
    activations = refl;
  }

  store_refused :
      (t : Trip net quote) (p : TrustedProxyProvider) (f : Fetched) (e : Text) (st : Registry)
      → f ≡ refused e
      → IsUntouched st (store_fetched net quote outcome t p f st).0
  store_refused t p (refused d) e st q =
      noted-IsUntouched (t.fails write_row) p.id t.now p.cidrs d st
  store_refused t p (fetched cidrs) e st q = absurd (cc)

  refused_row :
      (t : Trip net quote) (r : Row) (st : Registry)
      → ((p : TrustedProxyProvider)
          → r ≡ row p
          → (e : Text) × (fetch_all net quote t.get (p.source_ipv4 ∷ p.source_ipv6 ∷ [])
              ≡ refused e))
      → IsUntouched st (refresh_row net quote outcome t r st).0
  refused_row t missing st h = record { providers = refl; live = refl; activations = refl }
  refused_row t failed st h = record { providers = refl; live = refl; activations = refl }
  refused_row t (row p) st h = elim (Bool-cases p.auto_update) [
    | inl a ↦ let (e, q) = h p refl in rw a (store_refused t p _ e st q)
    | inr a ↦ rw a (record { providers = refl; live = refl; activations = refl })
  ]

  -- If the download of the sources of a provider gives an error, in a request, a status, a body or a line,
  -- a refresh changes no provider but in the times and errors of downloads, and it activates nothing.
  pub refresh-IsUntouched :
      (t : Trip net quote) (id : ℕ) (st : Registry)
      → ((p : TrustedProxyProvider)
          → get_provider (t.fails read_row) id st ≡ row p
          → (e : Text) × (fetch_all net quote t.get (p.source_ipv4 ∷ p.source_ipv6 ∷ [])
              ≡ refused e))
      → IsUntouched st (refresh net quote outcome t id st).0
  unfolding refresh
  refresh-IsUntouched t id st h = refused_row t (get_provider (t.fails read_row) id st) st h
