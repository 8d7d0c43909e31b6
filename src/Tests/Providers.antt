-- ===== src/Tests/Providers.antt =====
-- Refreshes and requests on trusted proxy providers.
use zent_proxy.Base.{
  ℕ, ◌≡◌, refl, ap, subst, ◌↔◌, true, false, none, some, List, [], ◌∷◌, ◌++◌, Text, lit,
}
use zent_proxy.Model.{TrustedProxyProvider, TrustedProxyProviderInput}
use zent_proxy.Store.Providers.{Registry, Row, row, get_provider}
use zent_proxy.Providers.{
  replied, refused, same_strings, fetch_all, Trip, Result, refresh, providers,
}
use zent_proxy.Providers.Sets.{same_strings_iff}
use zent_proxy.Providers.Synced.{IsSynced, refresh-IsSynced}
use zent_proxy.Providers.Refused.{IsUntouched, refresh-IsUntouched}
use zent_proxy.Api.Providers.{
  ProviderRequest, ProviderReply, saved, provider_create, ProviderStep, steps, providers_api,
}
use zent_proxy.Api.Providers.Sound.{IsSoundRegistry}
use zent_proxy.Api.Providers.Run.{steps-IsSound}
use zent_proxy.Api.State.{Outcome, activated}
use zent_proxy.Tests.{net, proxy}
use mathlib.Core.List.{Perm}

abbrev edge : TrustedProxyProvider
edge = record {
  id = 1;
  slug = lit "edge";
  name = lit "Edge";
  kind = lit "builtin";
  header = lit "X-Real-IP";
  auto_update = true;
  source_ipv4 = lit "https://example.com/v4";
  source_ipv6 = lit " ";
  cidrs = lit "10.0.0.0/32" ∷ [];
  last_checked = none;
  next_check = none;
  last_changed = none;
  last_error = [];
}

abbrev registry : Registry
registry = record {
  providers = edge ∷ [];
  next_id = 2;
  hosts = some 1 ∷ none ∷ [];
  redirect_hosts = [];
  dead_hosts = [];
  live = edge ∷ [];
  activations = 0;
  audits = [];
}

abbrev quote : Text → Text
quote s = s

abbrev works : ℕ → List TrustedProxyProvider → Outcome
works n ps = activated

abbrev good_trip : Trip net quote
good_trip = record {
  now = 9;
  get = λ u. replied 200 (lit "10.1.0.0/32" ++ (10 ∷ (lit " 10.0.0.0/32" ++ (13 ∷ 10 ∷ []))));
  fails = λ c. false;
}

abbrev bad_trip : Trip net quote
bad_trip = record good_trip { get = λ u. replied 503 [] }

abbrev refreshed_edge : TrustedProxyProvider
refreshed_edge = record edge {
  cidrs = lit "10.0.0.0/32" ∷ lit "10.1.0.0/32" ∷ [];
  last_checked = some 9;
  last_changed = some 9;
}

refresh-changes : refresh net quote works good_trip 1 registry ≡ (
  record registry { providers = refreshed_edge ∷ []; live = refreshed_edge ∷ []; activations = 1 },
  Result.found refreshed_edge,
)
unfolding proxy providers
refresh-changes = refl

refresh-IsSynced_example : IsSynced (refresh net quote works good_trip 1 registry).0
refresh-IsSynced_example =
    refresh-IsSynced net quote works good_trip 1 registry refl (rw refresh-changes (λ e. cc))

bad_fetch :
    (p : TrustedProxyProvider)
    → get_provider false 1 registry ≡ row p
    → (e : Text) × (fetch_all net quote bad_trip.get (p.source_ipv4 ∷ p.source_ipv6 ∷ [])
        ≡ refused e)
unfolding proxy providers
bad_fetch p h = (
  lit "provider returned HTTP 503",
  subst
      (λ q.
        fetch_all net quote bad_trip.get (q.source_ipv4 ∷ q.source_ipv6 ∷ [])
        ≡ refused (lit "provider returned HTTP 503"))
      same refl,
)
  where
    get_row : Row → TrustedProxyProvider
    get_row (row q) = q
    get_row r = edge

    same : edge ≡ p
    same = ap get_row h

refresh-IsUntouched_example : IsUntouched registry (refresh net quote works bad_trip 1 registry).0
refresh-IsUntouched_example = refresh-IsUntouched net quote works bad_trip 1 registry bad_fetch

same_strings_iff_example :
    (same_strings (lit "b" ∷ lit "a" ∷ []) (lit "a" ∷ lit "b" ∷ []) ≡ true)
    ↔ Perm (lit "b" ∷ lit "a" ∷ []) (lit "a" ∷ lit "b" ∷ [])
same_strings_iff_example = same_strings_iff (lit "b" ∷ lit "a" ∷ []) (lit "a" ∷ lit "b" ∷ [])

abbrev nothing : Registry
nothing = record registry { providers = []; next_id = 1; hosts = []; live = [] }

abbrev office : TrustedProxyProviderInput
office = record {
  name = lit " office ";
  header = lit "X-Forwarded-For";
  cidrs = lit "10.2.0.0/32" ∷ lit "10.1.0.1" ∷ lit "10.2.0.0/32" ∷ [];
}

abbrev add_office : ProviderRequest
add_office = record {
  path_id = none;
  body = some office;
  now = 5;
  actor = lit "session:admin";
  slug = lit "a1";
  fails = λ c. false;
}

abbrev drop_office : ProviderRequest
drop_office = record add_office { path_id = some 1; body = none }

abbrev office_cidrs : ProviderReply → List Text
office_cidrs (saved n p) = p.cidrs
office_cidrs r = []

create_office-cidrs :
    office_cidrs (provider_create net add_office nothing).1
    ≡ lit "10.1.0.1/32" ∷ lit "10.2.0.0/32" ∷ []
unfolding proxy providers providers_api
create_office-cidrs = refl

nothing-IsSound : IsSoundRegistry net nothing
nothing-IsSound = record {
  good = λ p i. elim i [ ];
  linked = record {
    unique = tt;
    below = λ k i. elim i [ ];
    hosts_known = λ k i. elim i [ ];
    redirect_hosts_known = λ k i. elim i [ ];
    dead_hosts_known = λ k i. elim i [ ];
  };
}

steps-IsSound_example : IsSoundRegistry net (
    steps net works quote
      (ProviderStep.create add_office
        ∷ ProviderStep.delete drop_office
        ∷ ProviderStep.refresh_every false (λ k. bad_trip)
        ∷ [])
      nothing)
steps-IsSound_example =
    steps-IsSound net works quote
      (ProviderStep.create add_office
        ∷ ProviderStep.delete drop_office
        ∷ ProviderStep.refresh_every false (λ k. bad_trip)
        ∷ [])
      nothing nothing-IsSound
